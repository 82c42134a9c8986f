-- ===== src/Passport/Printed.antt =====
-- A second line with its check digits, as the standard lays it out (ICAO 9303), and what
-- parsePassportMrz of utils/mrz.js reads from it.
use emlynk_wabot.Prelude.{
  ℕ, ◌+◌, ◌-◌, ◌<◌, ◌≡◌, true, false, some, [], ◌∷◌, ◌++◌, Text, all, length, ◌==◌, arith, refl, ap,
}
use emlynk_wabot.Users.PassportId.{is_digit}
use emlynk_wabot.Passport.Mrz.{
  to_digit, to_digits, check_digit_of, is_check_digit_valid, compute_check_digit,
}

pub record LineFields : Type 0 where
  pub number : Text
  pub nationality : Text
  pub birth : Text
  pub sex : Text
  pub expiry : Text
  pub personal : Text

-- Texts of the lengths that the standard gives them, with digits for the two dates. The personal
-- number has its own check digit.
pub record IsLaidOut (f : LineFields) : Type 0 where
  pub number_length : length f.number ≡ 9
  pub nationality_length : length f.nationality ≡ 3
  pub birth_length : length f.birth ≡ 6
  pub sex_length : length f.sex ≡ 1
  pub expiry_length : length f.expiry ≡ 6
  pub personal_length : length f.personal ≡ 15
  pub birth_digits : all is_digit f.birth ≡ true
  pub expiry_digits : all is_digit f.expiry ≡ true

abbrev pub check_char : Text → ℕ
check_char s = 48 + compute_check_digit s

-- What the last check digit of the line is about.
unfoldable pub checked_fields : LineFields → Text
checked_fields f =
    f.number
    ++ (check_char f.number
        ∷ (f.birth ++ (check_char f.birth ∷ (f.expiry ++ (check_char f.expiry ∷ f.personal)))))

unfoldable pub printed_line : LineFields → Text
printed_line f =
    f.number
    ++ (check_char f.number
        ∷ (f.nationality
            ++ (f.birth
                ++ (check_char f.birth
                    ∷ (f.sex
                        ++ (f.expiry
                            ++ (check_char f.expiry
                                ∷ (f.personal ++ (check_char (checked_fields f) ∷ [])))))))))

pub digit-same : (c : ℕ) → is_digit c ≡ true → to_digit c ≡ c
digit-same c h = ground arith

pub digits-same : (s : Text) → all is_digit s ≡ true → to_digits s ≡ s
digits-same [] h = refl
digits-same (c ∷ s) h =
    let c_digit : is_digit c ≡ true = ground (arith, h) in
    let s_digits : all is_digit s ≡ true = ground (arith, h) in
    rw (digit-same c c_digit) (ap (λ l. c ∷ l) (digits-same s s_digits))

small : (s : Text) → compute_check_digit s < 10
unfolding compute_check_digit
small s = omega arith

pub check_char-digit : (s : Text) → is_digit (check_char s) ≡ true
check_char-digit s = ground (arith, small s)

digit-value : (d : ℕ) → d < 10 → check_digit_of ((48 + d) ∷ []) ≡ some d
unfolding check_digit_of
digit-value d h =
    let c_digit : is_digit (48 + d) ≡ true = ground (arith, h) in
    let not_filler : ((48 + d) == 60) ≡ false = ground (arith, h) in
    let rest : 48 + d - 48 ≡ d = omega arith in
    rw not_filler (rw (digit-same (48 + d) c_digit) (rw c_digit (rw rest refl)))

valid-when :
    (value check : Text) {d : ℕ}
    → check_digit_of check ≡ some d
    → compute_check_digit value ≡ d
    → is_check_digit_valid value check ≡ true
unfolding is_check_digit_valid
valid-when value check {d} h h' = ground (arith, h, h')

pub check_char-valid : (s : Text) → is_check_digit_valid s (check_char s ∷ []) ≡ true
check_char-valid s =
    valid-when s (check_char s ∷ []) (digit-value (compute_check_digit s) (small s)) refl
