-- ===== src/Confidence/Bands.antt =====
-- Bands of services/confidenceService.js.
use emlynk_wabot.Prelude.{ℕ, ◌≤◌, ◌≡◌, ◌≢◌, ◌⊎◌, true, none, some, arith}
use emlynk_wabot.Confidence.Types.{Band}
use emlynk_wabot.Confidence.{band_of}
use emlynk_wabot.Confidence.Fields.{CrossCheck, FieldSource, Field, get_passport_field_confidence}

abbrev pub rank : Band → ℕ
rank Band.undefined = 0
rank Band.unclear = 1
rank Band.slightly_unclear = 2
rank Band.high_confidence = 3
rank Band.verified = 4

-- A higher confidence never has a lower band.
pub band_of-monotone : (v w : ℕ) → v ≤ w → rank (band_of v) ≤ rank (band_of w)
unfolding band_of
band_of-monotone v w h = ground arith

-- What makes a field VERIFIED: it was read from the machine-readable zone, the printed value does not
-- differ, and its check digit is right, or it has none and the printed value is the same.
pub record IsProvenField (f : Field) : Type 0 where
  pub from_mrz : f.source ≡ some FieldSource.mrz
  pub not_contradicted : f.cross_check ≢ CrossCheck.mismatch
  pub checked :
      (f.check_digit_valid ≡ some true)
      ⊎ ((f.check_digit_valid ≡ none) × (f.cross_check ≡ CrossCheck.match))

-- A passport field reaches the band VERIFIED only with such proof, whatever the quality of the scan.
pub verified-IsProvenField :
    (f : Field) (extraction : ℕ)
    → band_of (get_passport_field_confidence (some f) extraction) ≡ Band.verified
    → IsProvenField f
unfolding band_of get_passport_field_confidence
verified-IsProvenField f extraction h = record {
  from_mrz = ground arith;
  not_contradicted = ground arith;
  checked = ground arith;
}
