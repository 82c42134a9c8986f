-- ===== src/Confidence/Fields.antt =====
-- services/confidenceService.js: the confidence of one extracted passport field.
use emlynk_wabot.Prelude.{
  ℕ, min, Bool, true, false, Option, none, some, is_truthy, Text, if◌then◌else◌,
}
use emlynk_wabot.Confidence.Types.{percent}

-- CROSS_CHECK
pub data CrossCheck : Type 0 where
  match mismatch not_available : CrossCheck

-- `source` of an extracted field; null is `none`
pub data FieldSource : Type 0 where
  mrz viz : FieldSource

-- One field of extractPassportFields.
pub record Field : Type 0 where
  pub value : Option Text
  pub source : Option FieldSource
  pub check_digit_valid : Option Bool
  pub cross_check : CrossCheck

abbrev is_mrz : Option FieldSource → Bool
is_mrz (some FieldSource.mrz) = true
is_mrz _ = false

abbrev pub is_match : CrossCheck → Bool
is_match CrossCheck.match = true
is_match _ = false

abbrev is_mismatch : CrossCheck → Bool
is_mismatch CrossCheck.mismatch = true
is_mismatch _ = false

-- The part for a value that was read from the MRZ.
abbrev mrz_confidence : Option Bool → CrossCheck → ℕ → ℕ
mrz_confidence (some true) check extraction = if is_match check then percent 100 else percent 97
mrz_confidence (some false) check extraction = percent 30
mrz_confidence none check extraction =
    if is_match check then percent 97 else min extraction (percent 90)

-- The part for a printed value.
abbrev printed_confidence : Option Bool → CrossCheck → ℕ → ℕ
printed_confidence (some false) CrossCheck.match extraction = percent 90
printed_confidence _ _ extraction = min extraction (percent 90)

abbrev field_confidence : Field → ℕ → ℕ
field_confidence field extraction =
    if is_mismatch field.cross_check
    then percent 30
    else if is_mrz field.source
    then mrz_confidence field.check_digit_valid field.cross_check extraction
    else printed_confidence field.check_digit_valid field.cross_check extraction

-- getPassportFieldConfidence
unfoldable pub get_passport_field_confidence : Option Field → ℕ → ℕ
get_passport_field_confidence none extraction = 0
get_passport_field_confidence (some field) extraction =
    if is_truthy field.value then field_confidence field extraction else 0
