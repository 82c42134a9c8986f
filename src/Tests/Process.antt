-- ===== src/Tests/Process.antt =====
-- Runs of the pipeline on a small bucket and two tables.
use emlynk_wabot.Prelude.{
  ℕ, ◌≡◌, ◌≢◌, ◌⊎◌, refl, true, false, Bool, none, some, List, [], ◌∷◌, Text, codes, text_eq,
}
use emlynk_wabot.Classification.{resolve_document_type}
use emlynk_wabot.Classification.Scoring.{
  classify_document_content, score_document_type, score_indicators,
}
use emlynk_wabot.Confidence.{assess_document_confidence}
use emlynk_wabot.Confidence.Fields.{get_passport_field_confidence}
use emlynk_wabot.Users.PassportId.{normalize_passport_id}
use emlynk_wabot.Users.PhoneNumber.{normalize_phone_number}
use emlynk_wabot.Users.Lookup.{find_users_by_passport_id, find_users_by_whatsapp_number}
use emlynk_wabot.Identity.{decide_identity}
use emlynk_wabot.Reconciliation.{reconcile_passport_fields, outcome_of, normalize_for_compare}
use emlynk_wabot.Reconciliation.Apply.{id_or_empty, apply_reconciliation_updates}
use emlynk_wabot.Reconciliation.Apply.Keeps.{AllFilled}
use emlynk_wabot.Acceptance.{holds, evaluate_passport_acceptance, apply_passport_acceptance}
use emlynk_wabot.Placement.{Place, ProcessingStatus, ChecksumOutcome, decide_placement}
use emlynk_wabot.Review.{derive_review_reason, has_review_blocker, determine_processing_status}
use emlynk_wabot.Review.Reasons.{ReviewReason}
use emlynk_wabot.Queue.Table.{update_many}
use emlynk_wabot.Storage.Documents.{
  Document, VerificationStatus, has_verified_document, verification_status_for_band,
}
use emlynk_wabot.Storage.Checksum.{check_client_checksum}
use emlynk_wabot.Storage.Copy.{copy_to_free_name}
use emlynk_wabot.Storage.World.{renew_held, placement_port}
use emlynk_wabot.Storage.Client.{store_client_document, count_documents}
use emlynk_wabot.Storage.Place.{Placed, place_document, find_pending_duplicate}
use emlynk_wabot.Pipeline.Plan.{
  Read, assess, identify, reconcile, acceptance, stored_confidence, plan, is_client_identified,
  checksum_allows_writes,
}
use emlynk_wabot.Pipeline.Plan
use emlynk_wabot.Pipeline.Trust.{IsFiled}
use emlynk_wabot.Pipeline.Runs.{Stage, Submission, State, update_row}
use emlynk_wabot.Pipeline.Process.{process_document, write_record}
use emlynk_wabot.Pipeline.Process.Completed.{identity_of}
use emlynk_wabot.Pipeline.Process.Kept.{IsKept}
use emlynk_wabot.Users.{User}
use emlynk_wabot.Pipeline.Process.Outcome.{
  passport_answer, whatsapp_answer, checksum_answer, verified_answer, process_document-IsFiled,
  process_document-reason,
}
use emlynk_wabot.Pipeline.Process.Record.{Moves, process_document-AllFilled}
use emlynk_wabot.Tests.Data.{client, passport_read, no_day, waiting}
use emlynk_wabot.Tests.Bucket.{Files, file_bucket}

abbrev ticks : ℕ → ℕ
ticks n = n

abbrev no_failure : Document → Bool
no_failure d = false

abbrev no_break : Stage → Bool
no_break stage = false

abbrev sent : Text → Submission
sent number = record {
  temporary_id = codes "a1";
  whatsapp_number = number;
  temporary_storage_path = codes "t";
  file_sha256 = codes "ff";
  filename_classification = none;
  document_id = codes "d1";
  client_folder = λ passport_id type. codes "c";
  kept_name = λ n. codes "k";
  standard_name = λ type n. codes "p";
  pending_folder = λ owner. codes "q";
  pending_name = λ n. codes "n";
}

abbrev state : State Files
state = record {
  world = record {
    bucket = (codes "t", codes "ff") ∷ [];
    documents = [];
    rows = waiting ∷ [];
    held = none;
    calls = 0;
  };
  users = client ∷ [];
}

-- Nobody else writes.
abbrev alone : Stage → State Files → State Files
alone stage s = s

process_document-AllFilled_example :
    (seen : List User) × (own : List User) × Moves alone state.users seen
    × ((own ≡ seen)
        ⊎ ((read : Read) × (some passport_read ≡ some read)
            × (checksum_allows_writes (
                  checksum_answer file_bucket ticks no_failure alone no_break no_day
                    (codes "2025-01-01")
                    (some passport_read)
                    (sent (codes "94771234567"))
                    state
                    read)
                ≡ true)
            × AllFilled
                (id_or_empty
                  (identity_of file_bucket ticks no_failure alone no_break no_day
                    (codes "2025-01-01")
                    (sent (codes "94771234567"))
                    (assess (codes "2025-01-01") none read)
                    state).passport_id)
                seen
                own))
    × Moves alone own
        ((process_document file_bucket ticks no_failure alone no_break no_day
            (codes "2025-01-01")
            (sent (codes "94771234567"))
            (some passport_read)
            state).0
          ).users
process_document-AllFilled_example =
    process_document-AllFilled file_bucket ticks no_failure alone no_break no_day
      (codes "2025-01-01") (some passport_read) (sent (codes "94771234567")) state

abbrev filed : Placed
filed = record {
  placement = Place.client;
  processing_status = ProcessingStatus.high_confidence;
  pending_storage_path = none;
  stored = some (codes "c/p", VerificationStatus.verified);
}

process_document-IsFiled_example :
    (read : Read) × (some passport_read ≡ some read)
    × ((Plan.outcome_of (
            checksum_answer file_bucket ticks no_failure alone no_break no_day
              (codes "2025-01-01")
              (some passport_read)
              (sent (codes "94771234567"))
              state
              read)
          ≡ some ChecksumOutcome.already_stored)
        ⊎ IsFiled no_day
            (codes "2025-01-01")
            none
            read
            (passport_answer file_bucket ticks no_failure alone no_break no_day
              (codes "2025-01-01")
              (some passport_read)
              (sent (codes "94771234567"))
              state
              read)
            (whatsapp_answer file_bucket ticks no_failure alone no_break no_day
              (codes "2025-01-01")
              (some passport_read)
              (sent (codes "94771234567"))
              state)
            (checksum_answer file_bucket ticks no_failure alone no_break no_day
              (codes "2025-01-01")
              (some passport_read)
              (sent (codes "94771234567"))
              state
              read)
            (verified_answer file_bucket ticks no_failure alone no_break no_day
              (codes "2025-01-01")
              (some passport_read)
              (sent (codes "94771234567"))
              state
              read))
unfolding process_document assess identify reconcile acceptance stored_confidence plan
    is_client_identified decide_placement classify_document_content resolve_document_type
    assess_document_confidence get_passport_field_confidence decide_identity
    reconcile_passport_fields evaluate_passport_acceptance apply_passport_acceptance
    has_review_blocker determine_processing_status score_document_type score_indicators text_eq
    outcome_of normalize_for_compare holds find_users_by_passport_id find_users_by_whatsapp_number
    normalize_passport_id normalize_phone_number check_client_checksum has_verified_document
    verification_status_for_band place_document store_client_document copy_to_free_name
    placement_port renew_held count_documents write_record apply_reconciliation_updates
    derive_review_reason update_many update_row
process_document-IsFiled_example =
    process_document-IsFiled file_bucket ticks no_failure alone no_break no_day (codes "2025-01-01")
      (some passport_read) (sent (codes "94771234567")) state filed none refl refl

abbrev held : Placed
held = record {
  placement = Place.pending;
  processing_status = ProcessingStatus.manual_review;
  pending_storage_path = some (codes "q/n");
  stored = none;
}

process_document-reason_example :
    (some ReviewReason.identity_not_confirmed ≢ none)
    × (let after =
          (process_document file_bucket ticks no_failure alone no_break no_day
            (codes "2025-01-01")
            (sent (codes "94770000000"))
            (some passport_read)
            state).0.world in
        IsKept (codes "a1") held (some ReviewReason.identity_not_confirmed) after.held after.rows)
unfolding process_document assess identify reconcile acceptance stored_confidence plan
    is_client_identified decide_placement classify_document_content resolve_document_type
    assess_document_confidence get_passport_field_confidence decide_identity
    reconcile_passport_fields evaluate_passport_acceptance apply_passport_acceptance
    has_review_blocker determine_processing_status score_document_type score_indicators text_eq
    outcome_of normalize_for_compare holds find_users_by_passport_id find_users_by_whatsapp_number
    normalize_passport_id normalize_phone_number check_client_checksum has_verified_document
    verification_status_for_band place_document store_client_document copy_to_free_name
    placement_port renew_held count_documents write_record apply_reconciliation_updates
    derive_review_reason update_many update_row find_pending_duplicate
process_document-reason_example =
    process_document-reason file_bucket ticks no_failure alone no_break no_day (codes "2025-01-01")
      (some passport_read) (sent (codes "94770000000")) state held
      (some ReviewReason.identity_not_confirmed) (λ u e. cc e) refl refl
