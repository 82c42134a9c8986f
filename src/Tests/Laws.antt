-- ===== src/Tests/Laws.antt =====
-- The laws of bands, dates, lookups and outcomes on concrete inputs.
use emlynk_wabot.Prelude.{
  ◌≡◌, refl, true, false, Bool, none, some, List, [], ◌∷◌, codes, text_eq, Text,
}
use emlynk_wabot.Classification.{DocumentType}
use emlynk_wabot.Confidence.{Band, band_of, Confidence}
use emlynk_wabot.Confidence.Fields.{get_passport_field_confidence}
use emlynk_wabot.Confidence.Bands.{IsProvenField, verified-IsProvenField}
use emlynk_wabot.Police.{DateKind, LabelledDate}
use emlynk_wabot.Police.Dates.{
  extract_police_report_date, candidates_of, is_plausible_report_date, dates_of_kind,
}
use emlynk_wabot.Police.Dates.Laws.{IsAgreed, extract-IsAgreed}
use emlynk_wabot.Placement.{ProcessingStatus, ChecksumOutcome, Request}
use emlynk_wabot.Review.{Findings}
use emlynk_wabot.Tests.Data.{mrz_field}

verified-IsProvenField_example : IsProvenField (mrz_field (codes "N1234567"))
unfolding band_of get_passport_field_confidence
verified-IsProvenField_example = verified-IsProvenField (mrz_field (codes "N1234567")) 3000 refl

-- A slip with its submitted date, and the date of birth of the applicant.
abbrev slip_dates : List LabelledDate
slip_dates =
    record { date = codes "2025-03-04"; kind = some DateKind.submitted }
    ∷ record { date = codes "1990-01-01"; kind = none }
    ∷ []

extract-IsAgreed_example :
    (d : Text) × (k : DateKind) × ((extract_police_report_date (codes "2025-04-01") slip_dates).date
      ≡ some d)
    × ((extract_police_report_date (codes "2025-04-01") slip_dates).kind ≡ some k)
    × IsAgreed (codes "2025-04-01") slip_dates d k
unfolding extract_police_report_date candidates_of is_plausible_report_date dates_of_kind text_eq
extract-IsAgreed_example = extract-IsAgreed (codes "2025-04-01") slip_dates refl

abbrev good : Confidence
good = record {
  extraction_confidence = 10000;
  classification_confidence = 9000;
  document_confidence = 9000;
  band = Band.high_confidence;
  measured_band = none;
  band_flag = none;
  review_required = false;
  flags = [];
}

abbrev calm : Findings
calm = record {
  resolved_type = none;
  confidence = some good;
  identity = none;
  reconciliation = none;
  police_date = none;
  checksum = some ChecksumOutcome.new;
  existing_verified = false;
  verified_of_type_exists = false;
}

abbrev ask : Bool → Request
ask exists = record {
  processing_status = ProcessingStatus.high_confidence;
  band = Band.high_confidence;
  document_type = DocumentType.medical;
  client_identified = true;
  unique_id = some (codes "U1");
  checksum_outcome = some ChecksumOutcome.new;
  review_blocked = false;
  verified_of_type_exists = exists;
  duplicate_of_verified = false;
}
