-- ===== src/Tests/Data.antt =====
-- A passport submission of a known client, and workers on one waiting submission.
use emlynk_wabot.Prelude.{String, true, false, Option, none, some, [], ◌∷◌, Text, codes}
use emlynk_wabot.Classification.Scoring
use emlynk_wabot.Confidence.{Method, Reading}
use emlynk_wabot.Confidence.Fields.{CrossCheck, Field, FieldSource}
use emlynk_wabot.Users.{User}
use emlynk_wabot.Users.Lookup.{LookupStatus, Lookup}
use emlynk_wabot.Acceptance.{PassportField}
use emlynk_wabot.Pipeline.Plan.{Read}
use emlynk_wabot.Queue.Table.{Row, RowStatus}

abbrev pub client : User
client = record {
  passport_id = codes "N1234567";
  unique_id = codes "U1";
  whatsapp_number = some (codes "94771234567");
  first_name = some (codes "NIMAL");
  other_name = none;
  date_of_birth = none;
  place_of_birth = none;
  passport_expiry_date = some (codes "2030-01-01");
}

abbrev pub other_client : User
other_client = record client {
  passport_id = codes "N7654321";
  unique_id = codes "U2";
  whatsapp_number = some (codes "94777654321");
}

abbrev pub found : User → Lookup
found u = record { status = LookupStatus.found; users = u ∷ [] }

-- The text has the two lines of the machine-readable zone and no keyword.
abbrev pub passport_text : Scoring.Evidence
passport_text = record {
  normalized_length = 100;
  matches = λ (id : String). false;
  mrz_line1 = true;
  mrz_line2 = true;
}

abbrev pub mrz_field : Text → Field
mrz_field text = record {
  value = some text;
  source = some FieldSource.mrz;
  check_digit_valid = some true;
  cross_check = CrossCheck.match;
}

abbrev passport_field : PassportField → Field
passport_field PassportField.passport_id = mrz_field (codes "N1234567")
passport_field PassportField.given_names = mrz_field (codes "NIMAL")
passport_field PassportField.surname = mrz_field (codes "PERERA")
passport_field _ = mrz_field []

abbrev pub passport_read : Read
passport_read = record {
  extraction = record { success = true; method = Method.pdf_text; confidence = Reading.not_finite };
  evidence = passport_text;
  passport = record { field = passport_field; mrz_lines_found = 2 };
  dates = [];
}

abbrev pub no_day : Text → Option Text
no_day s = none

abbrev pub waiting : Row
waiting = record {
  temporary_id = codes "a1";
  whatsapp_number = codes "94771234567";
  temporary_storage_path = codes "temporary/a1.pdf";
  file_sha256 = some (codes "ff");
  status = RowStatus.received;
  attempts = 0;
  started_at = none;
  created_date = 5;
  placement_path = none;
  pending_storage_path = none;
  review_reason = none;
}
