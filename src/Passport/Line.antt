-- ===== src/Passport/Line.antt =====
-- What parsePassportMrz of utils/mrz.js reads from a printed second line.
use emlynk_wabot.Prelude.{
  take, drop, drop-past, take-front, take-all, ℕ, ◌+◌, ◌≡◌, true, not, none, some, [], ◌∷◌, ◌++◌,
  Text, keep, length, length-append, ◌==◌, arith, refl, ◌∙◌, ap,
}
use emlynk_wabot.Passport.Mrz.{slice}
use emlynk_wabot.Passport.Parse.{
  MrzKind, mrz_date_to_iso, or_none, PassportMrz, no_fields, parse_line_1, composite_input,
  parse_fields, parse_line_2, parse_passport_mrz,
}
use emlynk_wabot.Passport.Printed.{
  LineFields, IsLaidOut, check_char, checked_fields, printed_line, digit-same, digits-same,
  check_char-digit, check_char-valid,
}

-- The pieces of a printed line.
abbrev behind_expiry : LineFields → Text
behind_expiry f = f.personal ++ (check_char (checked_fields f) ∷ [])

abbrev behind_birth : LineFields → Text
behind_birth f = f.sex ++ (f.expiry ++ (check_char f.expiry ∷ behind_expiry f))

abbrev behind_nationality : LineFields → Text
behind_nationality f = f.birth ++ (check_char f.birth ∷ behind_birth f)

abbrev behind_number : LineFields → Text
behind_number f = check_char f.number ∷ (f.nationality ++ behind_nationality f)

module _ (f : LineFields) (h : IsLaidOut f) where
  drop_number : (k : ℕ) → drop (9 + k) (printed_line f) ≡ drop k (behind_number f)
  unfolding printed_line
  drop_number k = drop-past f.number (behind_number f) 9 k h.number_length

  drop_nationality :
      (k : ℕ) → drop (3 + k) (f.nationality ++ behind_nationality f) ≡ drop k (behind_nationality f)
  drop_nationality k = drop-past f.nationality (behind_nationality f) 3 k h.nationality_length

  drop_birth :
      (k : ℕ) → drop (6 + k) (behind_nationality f) ≡ drop k (check_char f.birth ∷ behind_birth f)
  drop_birth k = drop-past f.birth (check_char f.birth ∷ behind_birth f) 6 k h.birth_length

  drop_sex :
      (k : ℕ)
      → drop (1 + k) (behind_birth f) ≡ drop k (f.expiry ++ (check_char f.expiry ∷ behind_expiry f))
  drop_sex k =
      drop-past f.sex (f.expiry ++ (check_char f.expiry ∷ behind_expiry f)) 1 k h.sex_length

  drop_expiry :
      (k : ℕ)
      → drop (6 + k) (f.expiry ++ (check_char f.expiry ∷ behind_expiry f))
        ≡ drop k (check_char f.expiry ∷ behind_expiry f)
  drop_expiry k = drop-past f.expiry (check_char f.expiry ∷ behind_expiry f) 6 k h.expiry_length

  drop_personal :
      (k : ℕ) → drop (15 + k) (behind_expiry f) ≡ drop k (check_char (checked_fields f) ∷ [])
  drop_personal k = drop-past f.personal (check_char (checked_fields f) ∷ []) 15 k h.personal_length

  slice-number : slice 0 9 (printed_line f) ≡ f.number
  unfolding printed_line
  slice-number = take-front f.number (behind_number f) 9 h.number_length

  slice-number_check : slice 9 10 (printed_line f) ≡ check_char f.number ∷ []
  slice-number_check = ap (λ l. take 1 l) (drop_number 0)

  slice-birth : slice 13 19 (printed_line f) ≡ f.birth
  slice-birth =
      ap (λ l. take 6 l) (drop_number 4 ∙ drop_nationality 0)
      ∙ take-front f.birth (check_char f.birth ∷ behind_birth f) 6 h.birth_length

  slice-birth_check : slice 19 20 (printed_line f) ≡ check_char f.birth ∷ []
  slice-birth_check = ap (λ l. take 1 l) (drop_number 10 ∙ (drop_nationality 6 ∙ drop_birth 0))

  slice-expiry : slice 21 27 (printed_line f) ≡ f.expiry
  slice-expiry =
      ap (λ l. take 6 l) (drop_number 12 ∙ (drop_nationality 8 ∙ (drop_birth 2 ∙ drop_sex 0)))
      ∙ take-front f.expiry (check_char f.expiry ∷ behind_expiry f) 6 h.expiry_length

  slice-expiry_check : slice 27 28 (printed_line f) ≡ check_char f.expiry ∷ []
  slice-expiry_check =
      ap (λ l. take 1 l)
        (drop_number 18 ∙ (drop_nationality 14 ∙ (drop_birth 8 ∙ (drop_sex 6 ∙ drop_expiry 0))))

  slice-personal : slice 28 43 (printed_line f) ≡ f.personal
  slice-personal =
      ap (λ l. take 15 l)
        (drop_number 19 ∙ (drop_nationality 15 ∙ (drop_birth 9 ∙ (drop_sex 7 ∙ drop_expiry 1))))
      ∙ take-front f.personal (check_char (checked_fields f) ∷ []) 15 h.personal_length

  slice-last_check : slice 43 44 (printed_line f) ≡ check_char (checked_fields f) ∷ []
  slice-last_check =
      ap (λ l. take 1 l)
        (drop_number 34
          ∙ (drop_nationality 30
              ∙ (drop_birth 24 ∙ (drop_sex 22 ∙ (drop_expiry 16 ∙ drop_personal 0)))))

  printed-length : length (printed_line f) ≡ 44
  unfolding printed_line
  printed-length = omega (
    arith,
    h.number_length,
    h.nationality_length,
    h.birth_length,
    h.sex_length,
    h.expiry_length,
    h.personal_length,
    length-append f.number (behind_number f),
    length-append f.nationality (behind_nationality f),
    length-append f.birth (check_char f.birth ∷ behind_birth f),
    length-append f.sex (f.expiry ++ (check_char f.expiry ∷ behind_expiry f)),
    length-append f.expiry (check_char f.expiry ∷ behind_expiry f),
    length-append f.personal (check_char (checked_fields f) ∷ []),
  )

  composite_input-printed : composite_input (printed_line f) ≡ checked_fields f
  unfolding composite_input checked_fields
  composite_input-printed = rw slice-number (
      rw slice-number_check (
        rw slice-birth (
          rw slice-birth_check (
            rw slice-expiry (
              rw slice-expiry_check (
                rw slice-personal (
                  rw (digit-same (check_char f.number) (check_char-digit f.number)) (
                    rw (digit-same (check_char f.birth) (check_char-digit f.birth)) (
                      rw (digit-same (check_char f.expiry) (check_char-digit f.expiry)) (
                        rw (digits-same f.birth h.birth_digits)
                          (rw (digits-same f.expiry h.expiry_digits) refl)))))))))))

  read_fields : ℕ → PassportMrz
  read_fields this_year = record no_fields {
    passport_number = or_none (keep (λ c. not (c == b'<')) f.number);
    passport_number_check_valid = some true;
    date_of_birth = mrz_date_to_iso this_year f.birth MrzKind.birth;
    date_of_birth_check_valid = some true;
    expiry_date = mrz_date_to_iso this_year f.expiry MrzKind.expiry;
    expiry_date_check_valid = some true;
    composite_check_valid = some true;
  }

  parse_fields-printed :
      (this_year : ℕ) → parse_fields this_year (printed_line f) no_fields ≡ read_fields this_year
  unfolding parse_fields read_fields
  parse_fields-printed this_year = rw slice-number (
      rw slice-number_check (
        rw slice-birth (
          rw slice-birth_check (
            rw slice-expiry (
              rw slice-expiry_check (
                rw slice-last_check (
                  rw printed-length (
                    rw composite_input-printed (
                      rw (digits-same f.birth h.birth_digits) (
                        rw (digits-same f.expiry h.expiry_digits) (
                          rw (check_char-valid f.number) (
                            rw (check_char-valid f.birth) (
                              rw (check_char-valid f.expiry)
                                (rw (check_char-valid (checked_fields f)) refl))))))))))))))

  -- A second line that is printed with its fields and their check digits, with digits for the two dates,
  -- is read back: parsePassportMrz returns the passport number without its fillers, the two dates as
  -- they read in the line, and true for all four check digits.
  pub parse_passport_mrz-printed :
      (this_year : ℕ)
      → parse_passport_mrz this_year none (some (printed_line f)) ≡ record no_fields {
        passport_number = or_none (keep (λ c. not (c == b'<')) f.number);
        passport_number_check_valid = some true;
        date_of_birth = mrz_date_to_iso this_year f.birth MrzKind.birth;
        date_of_birth_check_valid = some true;
        expiry_date = mrz_date_to_iso this_year f.expiry MrzKind.expiry;
        expiry_date_check_valid = some true;
        composite_check_valid = some true;
      }
  unfolding parse_passport_mrz parse_line_1 parse_line_2 read_fields
  parse_passport_mrz-printed this_year =
      rw printed-length
        (rw (take-all (printed_line f) 44 printed-length) (parse_fields-printed this_year))
