-- ===== src/Acceptance.antt =====
-- services/passportAcceptanceService.js: low-quality passports with independent proof.
pub mod Laws
use emlynk_wabot.Prelude.{
  ℕ, Bool, true, false, ◌&&◌, ◌||◌, not, Option, none, some, List, [], ◌∷◌, ◌++◌, any, keep, ◌==◌,
  is_some, if◌then◌else◌,
}
use emlynk_wabot.Classification.{DocumentType, Source, ResolvedType, is_passport, is_filename}
use emlynk_wabot.Confidence.{Band, BandInfo, Flag, Confidence, has_flag, band_info}
use emlynk_wabot.Identity.{Identity, IdentityStatus}
use emlynk_wabot.Reconciliation.{FieldName, Entry, Reconciled}

-- The fields whose confidence is assessed.
pub data PassportField : Type 0 where
  passport_id surname given_names date_of_birth place_of_birth passport_expiry_date : PassportField

-- The parts of the processing state that the rule reads; a part that is not set is `none`.
pub record Evidence : Type 0 where
  pub resolved_type : Option ResolvedType
  pub confidence : Option Confidence
  pub mrz_lines_found : Option ℕ
  pub field_band : PassportField → Option Band
  pub identity : Option Identity
  pub reconciliation : Option Reconciled

-- CONDITIONS, by name
pub data Condition : Type 0 where
  passport_document type_from_content no_wrong_document_suspicion two_mrz_lines : Condition
  passport_id_verified date_of_birth_verified expiry_date_verified : Condition
  identity_verified_match identity_not_provisional no_reconciliation_conflicts : Condition
  date_of_birth_matched expiry_date_matched : Condition

abbrev pub conditions : List Condition
conditions =
    Condition.passport_document ∷ Condition.type_from_content
    ∷ Condition.no_wrong_document_suspicion ∷ Condition.two_mrz_lines
    ∷ Condition.passport_id_verified ∷ Condition.date_of_birth_verified
    ∷ Condition.expiry_date_verified ∷ Condition.identity_verified_match
    ∷ Condition.identity_not_provisional ∷ Condition.no_reconciliation_conflicts
    ∷ Condition.date_of_birth_matched ∷ Condition.expiry_date_matched ∷ []

abbrev is_low : Band → Bool
is_low Band.undefined = true
is_low Band.unclear = true
is_low _ = false

-- LOW_BANDS.has(state?.confidence?.band)
abbrev pub is_low_band : Option Confidence → Bool
is_low_band none = false
is_low_band (some c) = is_low c.band

abbrev is_verified : Option Band → Bool
is_verified (some Band.verified) = true
is_verified _ = false

abbrev same_field : FieldName → FieldName → Bool
same_field FieldName.date_of_birth FieldName.date_of_birth = true
same_field FieldName.place_of_birth FieldName.place_of_birth = true
same_field FieldName.passport_expiry_date FieldName.passport_expiry_date = true
same_field FieldName.given_names FieldName.given_names = true
same_field FieldName.surname FieldName.surname = true
same_field _ _ = false

abbrev pub is_matched : Option Reconciled → FieldName → Bool
is_matched none field = false
is_matched (some r) field = any (λ (e : Entry). same_field e.field field) r.matched_fields

abbrev is_passport_type : Option ResolvedType → Bool
is_passport_type none = false
is_passport_type (some r) = is_passport r.document_type

abbrev is_content : Option ResolvedType → Bool
is_content none = false
is_content (some r) = not (is_filename r.source)

abbrev is_mismatch : Option ResolvedType → Bool
is_mismatch none = false
is_mismatch (some r) = r.filename_mismatch

abbrev flagged : Flag → Option Confidence → Bool
flagged flag none = false
flagged flag (some c) = has_flag flag c.flags

abbrev is_verified_match : IdentityStatus → Bool
is_verified_match IdentityStatus.verified_match = true
is_verified_match _ = false

abbrev identity_is_match : Option Identity → Bool
identity_is_match none = false
identity_is_match (some i) = is_verified_match i.status

-- identity?.provisional === false
abbrev identity_is_definite : Option Identity → Bool
identity_is_definite none = false
identity_is_definite (some i) = not i.provisional

abbrev is_empty : List Entry → Bool
is_empty [] = true
is_empty (e ∷ rest) = false

abbrev no_conflicts : Option Reconciled → Bool
no_conflicts none = false
no_conflicts (some r) = is_empty r.conflicts

abbrev is_two : Option ℕ → Bool
is_two none = false
is_two (some n) = n == 2

unfoldable pub holds : Evidence → Condition → Bool
holds s Condition.passport_document = is_passport_type s.resolved_type
holds s Condition.type_from_content =
    is_content s.resolved_type && not (flagged Flag.classified_from_filename_only s.confidence)
holds s Condition.no_wrong_document_suspicion =
    not (is_mismatch s.resolved_type) && not (flagged Flag.wrong_document_suspected s.confidence)
holds s Condition.two_mrz_lines = is_two s.mrz_lines_found
holds s Condition.passport_id_verified = is_verified (s.field_band PassportField.passport_id)
holds s Condition.date_of_birth_verified = is_verified (s.field_band PassportField.date_of_birth)
holds s Condition.expiry_date_verified =
    is_verified (s.field_band PassportField.passport_expiry_date)
holds s Condition.identity_verified_match = identity_is_match s.identity
holds s Condition.identity_not_provisional = identity_is_definite s.identity
holds s Condition.no_reconciliation_conflicts = no_conflicts s.reconciliation
holds s Condition.date_of_birth_matched = is_matched s.reconciliation FieldName.date_of_birth
holds s Condition.expiry_date_matched = is_matched s.reconciliation FieldName.passport_expiry_date

pub record Acceptance : Type 0 where
  pub accepted : Bool
  pub failed_conditions : List Condition

abbrev pub is_none : List Condition → Bool
is_none [] = true
is_none (c ∷ rest) = false

unfoldable pub evaluate_passport_acceptance : Evidence → Option Acceptance
evaluate_passport_acceptance s =
    if not (is_low_band s.confidence)
    then none
    else let failed = keep (λ c. not (holds s c)) conditions in
      some (record { accepted = is_none failed; failed_conditions = failed })

abbrev pub is_accepted : Option Acceptance → Bool
is_accepted none = false
is_accepted (some a) = a.accepted

-- applyPassportAcceptance; ACCEPTED_BAND is UNCLEAR
unfoldable pub apply_passport_acceptance : Confidence → Option Acceptance → Confidence
unfolding band_info
apply_passport_acceptance confidence acceptance =
    if not (is_accepted acceptance) then confidence else record confidence {
      measured_band = some confidence.band;
      band = (band_info Band.unclear).name;
      band_flag = (band_info Band.unclear).flag;
      review_required = true;
      flags = confidence.flags ++ Flag.passport_accepted_by_mrz_and_identity ∷ [];
    }
