-- ===== src/Pipeline/Trust.antt =====
-- services/documentProcessingService.js: files that an automatic decision puts under a client.
use emlynk_wabot.Prelude.{
  ◌≡◌, ◌≢◌, ◌⊎◌, Bool, true, false, Option, some, Text, arith, refl, sym, ◌∙◌,
}
use emlynk_wabot.Classification.{
  DocumentType, ContentClassification, ResolvedType, is_passport, is_police_slip, is_filename,
  is_unknown,
}
use emlynk_wabot.Classification.Scoring.{classify_document_content}
use emlynk_wabot.Confidence.{
  Confidence, Flag, TextExtraction, document_flags, has_flag, assess_document_confidence,
}
use emlynk_wabot.Users.Lookup.{Lookup}
use emlynk_wabot.Identity.{Identity}
use emlynk_wabot.Identity.Laws.{IsTrusted, decide_identity-IsTrusted}
use emlynk_wabot.Reconciliation.{Reconciled}
use emlynk_wabot.Police.{DateStatus, PoliceDate, extract_police_report_date}
use emlynk_wabot.Acceptance.{Acceptance, is_accepted, PassportField, apply_passport_acceptance}
use emlynk_wabot.Acceptance.Laws.{has_flag-accepted}
use emlynk_wabot.Placement.{Place, Decision, ChecksumOutcome, is_client_band, needs_person}
use emlynk_wabot.Placement.Laws.{client-IsFilable}
use emlynk_wabot.Review.{
  Findings, flags_of, has_review_blocker, record_conflicts, determine_processing_status,
  identity_needs_review, date_needs_review,
}
use emlynk_wabot.Pipeline.Plan.{
  Read, Assessment, Checksum, assess, identify, reconcile, acceptance, stored_confidence, plan,
  document_type_of, field_confidence, findings, request, outcome_of,
}

-- The flag "classified from the file name only" says just that.
filename-flag :
    (text : Option TextExtraction) (content : Option ContentClassification) (r : ResolvedType)
    → has_flag Flag.classified_from_filename_only (document_flags text content (some r))
      ≡ is_filename r.source
unfolding document_flags
filename-flag text content r = ground arith

assess-filename :
    (today : Text) (guess : Option DocumentType) (read : Read)
    → has_flag Flag.classified_from_filename_only (assess today guess read).confidence.flags
      ≡ is_filename (assess today guess read).resolved_type.source
unfolding assess assess_document_confidence
assess-filename today guess read =
    filename-flag (some read.extraction) (some (classify_document_content read.evidence))
      (assess today guess read).resolved_type

-- What no review blocker gives, and a status that needs no person.
module _ (f : Findings) where
  pub cleared-parts :
      has_review_blocker f ≡ false
      → (identity_needs_review f.identity ≡ false)
        × (has_flag Flag.classified_from_filename_only (flags_of f.confidence) ≡ false)
        × (has_flag Flag.wrong_document_suspected (flags_of f.confidence) ≡ false)
        × (has_flag Flag.police_type_unclear (flags_of f.confidence) ≡ false)
        × (date_needs_review f.police_date ≡ false)
  unfolding has_review_blocker
  cleared-parts h = ground arith

  usable-records :
      (c : Confidence)
      → needs_person (determine_processing_status c f) ≡ false
      → record_conflicts f.reconciliation ≡ false
  unfolding determine_processing_status
  usable-records c h = ground arith

assess-slip :
    (today : Text) (guess : Option DocumentType) (read : Read)
    → is_police_slip (document_type_of (assess today guess read)) ≡ true
    → date_needs_review (assess today guess read).police_date ≡ false
    → (d : PoliceDate) × ((assess today guess read).police_date ≡ some d)
      × (d.status ≡ DateStatus.resolved)
unfolding assess
assess-slip today guess read slip ok =
    (extract_police_report_date today read.dates, rw slip, ground arith)

-- A band that admits a document to a client folder was measured, or is the UNCLEAR of an accepted
-- passport.
measured_band-IsClient :
    (c : Confidence) (a : Option Acceptance)
    → is_client_band (apply_passport_acceptance c a).band ≡ true
    → (is_client_band c.band ≡ true) ⊎ (is_accepted a ≡ true)
unfolding apply_passport_acceptance
measured_band-IsClient c a h = ground arith

module _ (day_of : Text → Option Text) (today : Text) (guess : Option DocumentType) (read : Read)
    (passport_lookup : Option Lookup) (whatsapp_lookup : Lookup) (checksum : Option Checksum)
    (verified_of_type_exists : Bool) where
  abbrev pub assessment : Assessment
  assessment = assess today guess read

  abbrev pub sender : Identity
  sender = identify assessment passport_lookup whatsapp_lookup

  abbrev pub reconciliation : Option Reconciled
  reconciliation = reconcile day_of assessment passport_lookup sender

  abbrev pub outcome : Decision
  outcome = plan assessment sender reconciliation checksum verified_of_type_exists

  pub record IsFiled : Type 0 where
    pub trusted :
        IsTrusted passport_lookup
          (some whatsapp_lookup)
          (is_passport (document_type_of assessment))
          (field_confidence assessment PassportField.passport_id)
          sender
    pub typed : is_unknown (document_type_of assessment) ≡ false
    pub from_content : is_filename assessment.resolved_type.source ≡ false
    pub no_conflicts : record_conflicts reconciliation ≡ false
    pub readable :
        (is_client_band assessment.confidence.band ≡ true)
        ⊎ (is_accepted (acceptance assessment sender reconciliation) ≡ true)
    pub dated :
        is_police_slip (document_type_of assessment) ≡ true
        → (d : PoliceDate) × (assessment.police_date ≡ some d) × (d.status ≡ DateStatus.resolved)
    pub not_duplicate : outcome_of checksum ≢ some ChecksumOutcome.duplicate
    pub not_shared : outcome_of checksum ≢ some ChecksumOutcome.cross_client_conflict
    pub first_verified : verified_of_type_exists ≡ false

-- A new document is filed under a client only if the sender was proven to be that client, the type
-- comes from the text, no client record disagrees, the measured band is at least UNCLEAR or the
-- passport was accepted on its check digits, a police slip has its submitted date, the file is
-- neither the client's already nor another client's, and no verified document of the type exists.
pub plan-IsFiled :
    (day_of : Text → Option Text) (today : Text) (guess : Option DocumentType) (read : Read)
    (passport_lookup : Option Lookup) (whatsapp_lookup : Lookup) (checksum : Option Checksum)
    (verified : Bool)
    → (outcome day_of today guess read passport_lookup whatsapp_lookup checksum verified).placement
      ≡ Place.client
    → (outcome day_of today guess read passport_lookup whatsapp_lookup checksum
        verified).already_stored
      ≡ false
    → IsFiled day_of today guess read passport_lookup whatsapp_lookup checksum verified
unfolding plan identify stored_confidence
plan-IsFiled day_of today guess read pl wl checksum verified h n =
    let a = assess today guess read in
    let i = identify a pl wl in
    let r = reconcile day_of a pl i in
    let f = findings a i r checksum verified in
    let filable = client-IsFilable (request a i r checksum verified) h n in
    let (calm, named, right, clear, dated) = cleared-parts f filable.cleared in
    record {
      trusted =
          decide_identity-IsTrusted pl (some wl) (is_passport (document_type_of a))
            (field_confidence a PassportField.passport_id) calm;
      typed = ground (arith, filable.typed);
      from_content =
          sym (assess-filename today guess read)
          ∙ (sym (
                has_flag-accepted Flag.classified_from_filename_only a.confidence (acceptance a i r)
                  refl)
              ∙ named);
      no_conflicts = usable-records f (stored_confidence a i r) filable.usable;
      readable = measured_band-IsClient a.confidence (acceptance a i r) filable.readable;
      dated = λ slip. assess-slip today guess read slip dated;
      not_duplicate = filable.not_duplicate;
      not_shared = filable.not_shared;
      first_verified = filable.first_verified;
    }
