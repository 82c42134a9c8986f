-- ===== src/Pipeline/Plan.antt =====
-- The decisions of processDocument (services/documentProcessingService.js), each a function of the
-- answers that the pipeline has at that point: the text with what the patterns find in it, the two
-- user lookups, the checksum check and the question for a verified document.
use emlynk_wabot.Prelude.{
  ℕ, Bool, true, false, ◌&&◌, not, Option, none, some, List, [], ◌∷◌, Text, is_truthy,
  if◌then◌else◌,
}
use emlynk_wabot.Classification.{
  DocumentType, ResolvedType, is_passport, is_police_slip, resolve_document_type,
}
use emlynk_wabot.Classification.Scoring.{classify_document_content}
use emlynk_wabot.Classification.Scoring
use emlynk_wabot.Confidence.{Band, TextExtraction, Confidence, assess_document_confidence, band_of}
use emlynk_wabot.Confidence.Fields.{Field, get_passport_field_confidence}
use emlynk_wabot.Users.{User}
use emlynk_wabot.Users.Lookup.{Lookup}
use emlynk_wabot.Identity.{Identity, IdentityStatus, decide_identity}
use emlynk_wabot.Reconciliation.{FieldName, Extracted, Reconciled, reconcile_passport_fields}
use emlynk_wabot.Police.{LabelledDate, PoliceDate, extract_police_report_date}
use emlynk_wabot.Acceptance.{
  PassportField, Acceptance, evaluate_passport_acceptance, apply_passport_acceptance,
}
use emlynk_wabot.Placement.{ChecksumOutcome, Request, Decision, decide_placement, is_client_band}
use emlynk_wabot.Review.{Findings, has_review_blocker, determine_processing_status}

-- What extractPassportFields finds in a text.
pub record Passport : Type 0 where
  pub field : PassportField → Field
  pub mrz_lines_found : ℕ

-- The result of extractText, with what classification, passport extraction and the police date
-- search find in the text.
pub record Read : Type 0 where
  pub extraction : TextExtraction
  pub evidence : Scoring.Evidence
  pub passport : Passport
  pub dates : List LabelledDate

-- The part of the state that is set before the database is asked.
pub record Assessment : Type 0 where
  pub resolved_type : ResolvedType
  pub confidence : Confidence
  pub passport : Option Passport
  pub police_date : Option PoliceDate

-- The stages CLASSIFICATION and FIELD_EXTRACTION; `today` is the day of the extraction.
unfoldable pub assess : Text → Option DocumentType → Read → Assessment
assess today filename_classification read =
    let content = classify_document_content read.evidence in
    let resolved = resolve_document_type filename_classification (some content) in
    record {
      resolved_type = resolved;
      confidence = assess_document_confidence (some read.extraction) (some content) (some resolved);
      passport = if is_passport resolved.document_type then some read.passport else none;
      police_date =
          if is_police_slip resolved.document_type
          then some (extract_police_report_date today read.dates)
          else none;
    }

-- fieldConfidence[field].confidence
abbrev pub field_confidence : Assessment → PassportField → ℕ
field_confidence a field = elim a.passport [
  | none ↦ 0
  | some p ↦ get_passport_field_confidence (some (p.field field)) a.confidence.extraction_confidence
]

-- fieldConfidence[field].band, undefined for other documents
abbrev pub field_band : Assessment → PassportField → Option Band
field_band a field = elim a.passport [
  | none ↦ none
  | some p ↦ some (band_of (field_confidence a field))
]

-- The value that the passport lookup gets.
abbrev pub extracted_passport_id : Assessment → Option Text
extracted_passport_id a = elim a.passport [
  | none ↦ none
  | some p ↦ (p.field PassportField.passport_id).value
]

abbrev pub document_type_of : Assessment → DocumentType
document_type_of a = a.resolved_type.document_type

-- The stage IDENTITY.
unfoldable pub identify : Assessment → Option Lookup → Lookup → Identity
identify a passport_lookup whatsapp_lookup =
    decide_identity passport_lookup (some whatsapp_lookup) (is_passport (document_type_of a))
      (field_confidence a PassportField.passport_id)

-- LINKABLE_IDENTITIES
abbrev pub is_linkable : IdentityStatus → Bool
is_linkable IdentityStatus.verified_match = true
is_linkable IdentityStatus.passport_match_only = true
is_linkable IdentityStatus.whatsapp_match_only = true
is_linkable _ = false

-- clientIdentified
unfoldable pub is_client_identified : Identity → Bool
is_client_identified i = is_linkable i.status && not i.provisional && is_truthy i.passport_id

pub record Checksum : Type 0 where
  pub outcome : ChecksumOutcome
  pub existing_verified : Bool

abbrev is_new : ChecksumOutcome → Bool
is_new ChecksumOutcome.new = true
is_new _ = false

-- checksumAllowsWrites
abbrev pub checksum_allows_writes : Option Checksum → Bool
checksum_allows_writes none = true
checksum_allows_writes (some c) = is_new c.outcome

abbrev only_user : List User → Option User
only_user (u ∷ []) = some u
only_user _ = none

-- passportUser
abbrev pub passport_user : Option Lookup → Option User
passport_user none = none
passport_user (some lookup) = only_user lookup.users

abbrev passport_field : FieldName → PassportField
passport_field FieldName.date_of_birth = PassportField.date_of_birth
passport_field FieldName.place_of_birth = PassportField.place_of_birth
passport_field FieldName.passport_expiry_date = PassportField.passport_expiry_date
passport_field FieldName.given_names = PassportField.given_names
passport_field FieldName.surname = PassportField.surname

abbrev is_resolved_id : IdentityStatus → Bool
is_resolved_id IdentityStatus.passport_id_unresolved = false
is_resolved_id _ = true

-- The passport's values and confidences, as reconciliation reads them.
abbrev extracted : Assessment → Passport → Extracted
extracted a p = record {
  value = λ f. (p.field (passport_field f)).value;
  confidence = λ f. field_confidence a (passport_field f);
}

abbrev pub outcome_of : Option Checksum → Option ChecksumOutcome
outcome_of none = none
outcome_of (some c) = some c.outcome

abbrev verified_copy : Option Checksum → Bool
verified_copy none = false
verified_copy (some c) = c.existing_verified

module _ (day_of : Text → Option Text) (a : Assessment) where
  -- The stage RECONCILIATION, without its writes.
  unfoldable pub reconcile : Option Lookup → Identity → Option Reconciled
  reconcile passport_lookup i = elim a.passport [
    | none ↦ none
    | some p ↦ elim (passport_user passport_lookup) [
      | none ↦ none
      | some user ↦
          if is_resolved_id i.status
          then some (reconcile_passport_fields day_of user (extracted a p))
          else none
    ]
  ]

abbrev mrz_lines : Assessment → Option ℕ
mrz_lines a = elim a.passport [ none ↦ none | some p ↦ some p.mrz_lines_found ]

module _ (a : Assessment) (i : Identity) (reconciliation : Option Reconciled) where
  unfoldable pub acceptance : Option Acceptance
  acceptance =
      if is_passport (document_type_of a)
      then evaluate_passport_acceptance (record {
        resolved_type = some a.resolved_type;
        confidence = some a.confidence;
        mrz_lines_found = mrz_lines a;
        field_band = field_band a;
        identity = some i;
        reconciliation = reconciliation;
      })
      else none

  -- state.confidence from here on
  unfoldable pub stored_confidence : Confidence
  stored_confidence = apply_passport_acceptance a.confidence acceptance

  -- Whether hasVerifiedDocument is asked.
  abbrev pub asks_verified : Option Checksum → Bool
  asks_verified checksum =
      is_client_identified i
      && checksum_allows_writes checksum
      && is_client_band stored_confidence.band

  module _ (checksum : Option Checksum) (verified_of_type_exists : Bool) where
    abbrev pub findings : Findings
    findings = record {
      resolved_type = some a.resolved_type;
      confidence = some stored_confidence;
      identity = some i;
      reconciliation = reconciliation;
      police_date = a.police_date;
      checksum = outcome_of checksum;
      existing_verified = verified_copy checksum;
      verified_of_type_exists = verified_of_type_exists;
    }

    abbrev pub request : Request
    request = record {
      processing_status = determine_processing_status stored_confidence findings;
      band = stored_confidence.band;
      document_type = document_type_of a;
      client_identified = is_client_identified i;
      unique_id = i.unique_id;
      checksum_outcome = outcome_of checksum;
      review_blocked = has_review_blocker findings;
      verified_of_type_exists = verified_of_type_exists;
      duplicate_of_verified = verified_copy checksum;
    }

    -- The decision of the stage STORAGE.
    unfoldable pub plan : Decision
    plan = decide_placement request
