-- ===== src/Tests/Passport.antt =====
-- The machine-readable zone of the specimen passport of ICAO 9303.
use emlynk_wabot.Prelude.{
  ◌%◌, ◌≡◌, ◌↔◌, true, none, some, [], ◌∷◌, ◌++◌, Text, codes, refl, text_eq,
}
use emlynk_wabot.Passport.Mrz.{
  char_value, check_total, compute_check_digit, find_passport_mrz, clean_mrz_line, is_line_1,
  is_line_2, to_iso_date,
}
use emlynk_wabot.Passport.Parse.{
  MrzKind, mrz_date_to_iso, mrz_name_to_text, split_fillers, join_fillers, no_fields, parse_line_1,
  parse_line_2, parse_passport_mrz,
}
use emlynk_wabot.Passport.Digits.{compute_check_digit_iff}
use emlynk_wabot.Passport.Line.{parse_passport_mrz-printed}
use emlynk_wabot.Passport.Printed.{LineFields, IsLaidOut, checked_fields, printed_line}

abbrev specimen : LineFields
specimen = record {
  number = codes "L898902C3";
  nationality = codes "UTO";
  birth = codes "740812";
  sex = codes "F";
  expiry = codes "120415";
  personal = codes "ZE184226B<<<<<1";
}

abbrev first_line : Text
first_line = codes "P<UTOERIKSSON<<ANNA<MARIA<<<<<<<<<<<<<<<<<<<"

abbrev second_line : Text
second_line = codes "L898902C36UTO7408122F1204159ZE184226B<<<<<10"

specimen_printed : printed_line specimen ≡ second_line
unfolding printed_line checked_fields compute_check_digit check_total
specimen_printed = refl

specimen_found :
    find_passport_mrz
      (codes "name" ∷ codes "P<UTOERIKSSON<<ANNA<MARIA <<<<<<<<<<<<<<<<<<<" ∷ second_line ∷ [])
    ≡ some (some first_line, some second_line)
unfolding find_passport_mrz clean_mrz_line is_line_1 is_line_2 text_eq
specimen_found = refl

specimen_names : parse_passport_mrz 2026 (some first_line) none ≡ record no_fields {
  surname = some (codes "ERIKSSON");
  given_names = some (codes "ANNA MARIA");
}
unfolding parse_passport_mrz parse_line_1 parse_line_2 mrz_name_to_text split_fillers join_fillers
specimen_names = refl

specimen_birth :
    mrz_date_to_iso 2026 (codes "740812") MrzKind.birth
    ≡ some (record { year = 1974; month = 8; day = 12 })
unfolding mrz_date_to_iso to_iso_date
specimen_birth = refl

no_thirtieth : mrz_date_to_iso 2026 (codes "740230") MrzKind.birth ≡ none
unfolding mrz_date_to_iso to_iso_date
no_thirtieth = refl

specimen-IsLaidOut : IsLaidOut specimen
specimen-IsLaidOut = record {
  number_length = refl;
  nationality_length = refl;
  birth_length = refl;
  sex_length = refl;
  expiry_length = refl;
  personal_length = refl;
  birth_digits = refl;
  expiry_digits = refl;
}

compute_check_digit_iff_example :
    (compute_check_digit (codes "L8" ++ (b'9' ∷ codes "8902C3"))
      ≡ compute_check_digit (codes "L8" ++ (b'0' ∷ codes "8902C3")))
    ↔ (char_value b'9' % 10 ≡ char_value b'0' % 10)
compute_check_digit_iff_example = compute_check_digit_iff (codes "L8") (codes "8902C3") b'9' b'0'

parse_passport_mrz-printed_example :
    parse_passport_mrz 2026 none (some (printed_line specimen)) ≡ record no_fields {
      passport_number = some (codes "L898902C3");
      passport_number_check_valid = some true;
      date_of_birth = mrz_date_to_iso 2026 (codes "740812") MrzKind.birth;
      date_of_birth_check_valid = some true;
      expiry_date = mrz_date_to_iso 2026 (codes "120415") MrzKind.expiry;
      expiry_date_check_valid = some true;
      composite_check_valid = some true;
    }
parse_passport_mrz-printed_example = parse_passport_mrz-printed specimen specimen-IsLaidOut 2026
