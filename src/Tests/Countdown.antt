-- ===== src/Tests/Countdown.antt =====
-- The police status of a client with two slips.
use emlynk_wabot.Prelude.{◌≤◌, ◌≡◌, true, false, some, List, [], ◌∷◌, arith, refl}
use emlynk_wabot.Classification.{DocumentType}
use emlynk_wabot.Storage.Documents.{VerificationStatus}
use emlynk_wabot.Police.Dates.{DateStatus}
use emlynk_wabot.Police.Countdown.{
  ℤ, police_status_order, PoliceDocument, dated_slips, insert, sort, police_countdown,
  police_workflow_event, WorkflowEvent,
}
use emlynk_wabot.Police.Countdown.Laws.{
  latest_date, meaning, police_countdown-meaning, police_countdown-urgent,
}

abbrev slips : List PoliceDocument
slips =
    record {
      document_id = 1 ∷ [];
      verification_status = VerificationStatus.review_required;
      police_submitted_date = some 100;
      received_date = 5;
    }
    ∷ (record {
      document_id = 2 ∷ [];
      verification_status = VerificationStatus.verified;
      police_submitted_date = some 110;
      received_date = 4;
    }
        ∷ [])

three_days_left : (police_countdown slips [] 0 128).days_remaining ≡ some (ℤ.pos 3)
unfolding police_countdown dated_slips sort insert
three_days_left = refl

two_days_late : (police_countdown slips [] 0 133).days_remaining ≡ some (ℤ.negsuc 1)
unfolding police_countdown dated_slips sort insert
two_days_late = refl

slip_filed :
    police_workflow_event DocumentType.police_slip DateStatus.resolved (some 110) true
    ≡ some (WorkflowEvent.slip_received 110 131)
unfolding police_workflow_event
slip_filed = refl

police_countdown-meaning_example :
    (police_countdown slips [] 0 128).status ≡ meaning false (latest_date slips) true 128
police_countdown-meaning_example = police_countdown-meaning slips [] 0 128

police_countdown-urgent_example :
    police_status_order (police_countdown slips [] 0 131).status
    ≤ police_status_order (police_countdown slips [] 0 128).status
police_countdown-urgent_example = police_countdown-urgent slips [] 0 128 131 (omega arith)
