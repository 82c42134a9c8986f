-- ===== src/Passport/Mrz.antt =====
-- utils/mrz.js: the two lines of the machine-readable zone, and their fields. A line is its code units;
-- the lines of the text are given. A date is its three numbers.
use emlynk_wabot.Prelude.{
  take, drop, ℕ, zero, suc, ◌+◌, ◌-◌, ◌*◌, ◌%◌, Bool, true, false, ◌&&◌, ◌||◌, not, Option, none,
  some, List, [], ◌∷◌, ◌++◌, Text, text_eq, codes, any, all, find, keep, map, length, leb, ltb,
  ◌==◌, if◌then◌else◌,
}
use emlynk_wabot.Users.PassportId.{to_upper, is_digit, is_upper, is_space}

-- `s.slice(from, to)`
abbrev pub slice : ℕ → ℕ → Text → Text
slice from to s = take (to - from) (drop from s)

abbrev pub replicate {ℓ} : {A : Type ℓ} → ℕ → A → List A
replicate zero x = []
replicate (suc n) x = x ∷ replicate n x

-- [OQDILZSGB]
abbrev pub is_lookalike : ℕ → Bool
is_lookalike c = any (λ d. d == c) (codes "OQDILZSGB")

-- D
abbrev pub is_read_digit : ℕ → Bool
is_read_digit c = is_digit c || is_lookalike c

abbrev pub is_check_char : ℕ → Bool
is_check_char c = is_read_digit c || c == b'<'

-- [A-Z<]
abbrev pub is_letter : ℕ → Bool
is_letter c = is_upper c || c == b'<'

-- [A-Z0-9<]
abbrev pub is_mrz_char : ℕ → Bool
is_mrz_char c = is_letter c || is_digit c

abbrev pub starts : List (ℕ → Bool) → Text → Bool
starts [] s = true
starts (q ∷ qs) [] = false
starts (q ∷ qs) (c ∷ s) = q c && starts qs s

abbrev pub has_separator : Text → Bool
has_separator [] = false
has_separator (c ∷ s) = starts ((λ d. d == b'<') ∷ (λ d. d == b'<') ∷ []) (c ∷ s) || has_separator s

-- MRZ_LINE_1
unfoldable pub is_line_1 : Text → Bool
is_line_1 s =
    starts ((λ c. c == b'P') ∷ []) s && all is_letter (drop 1 s) && has_separator (drop 5 s)

abbrev pub line_2_classes : List (ℕ → Bool)
line_2_classes =
    replicate 9 is_mrz_char
    ++ (is_check_char ∷ replicate 3 is_letter)
    ++ (replicate 6 is_read_digit ++ (is_check_char ∷ is_mrz_char ∷ replicate 6 is_read_digit))
    ++ (is_check_char ∷ [])

-- MRZ_LINE_2
unfoldable pub is_line_2 : Text → Bool
is_line_2 s = starts line_2_classes s

-- cleanMrzLine; the signs « and ‹ are read as <
unfoldable pub clean_mrz_line : Text → Text
clean_mrz_line s =
    keep (λ c. not (is_space c))
      (map (λ c. if c == 0xAB || c == 0x2039 then b'<' else c) (map to_upper s))

-- findPassportMrz, over the lines of the text
unfoldable pub find_passport_mrz : List Text → Option (Option Text × Option Text)
find_passport_mrz text_lines =
    let lines =
      keep (λ s. leb 30 (length s) && leb (length s) 50) (map clean_mrz_line text_lines) in
    elim (find is_line_1 lines) [
      | none ↦ elim (find is_line_2 lines) [ none ↦ none | some second ↦ some (none, some second) ]
      | some first ↦ some (some first, find (λ s. not (text_eq s first) && is_line_2 s) lines)
    ]

abbrev pub char_value : ℕ → ℕ
char_value c = if is_digit c then c - 48 else if is_upper c then c - 55 else 0

-- [7, 3, 1][i % 3]
abbrev pub weight : ℕ → ℕ
weight i = if i % 3 == 0 then 7 else if i % 3 == 1 then 3 else 1

-- The loop of computeCheckDigit from index i.
unfoldable pub check_total : ℕ → ℕ → Text → ℕ
check_total i total [] = total
check_total i total (c ∷ s) = check_total (suc i) (total + char_value c * weight i) s

unfoldable pub compute_check_digit : Text → ℕ
compute_check_digit s = check_total 0 0 s % 10

-- DIGIT_LOOKALIKES
abbrev pub to_digit : ℕ → ℕ
to_digit c =
    if c == b'O' || c == b'Q' || c == b'D'
    then b'0'
    else if c == b'I' || c == b'L'
    then b'1'
    else if c == b'Z'
    then b'2'
    else if c == b'S'
    then b'5'
    else if c == b'G'
    then b'6'
    else if c == b'B'
    then b'8'
    else c

abbrev pub to_digits : Text → Text
to_digits s = map to_digit s

-- The digit that a check character stands for.
unfoldable pub check_digit_of : Text → Option ℕ
check_digit_of [] = none
check_digit_of (c ∷ d ∷ s) = none
check_digit_of (c ∷ []) =
    if c == b'<' then some 0 else if is_digit (to_digit c) then some (to_digit c - 48) else none

unfoldable pub is_check_digit_valid : Text → Text → Bool
is_check_digit_valid value check = elim (check_digit_of check) [
  | none ↦ false
  | some d ↦ compute_check_digit value == d
]

pub record IsoDate : Type 0 where
  pub year : ℕ
  pub month : ℕ
  pub day : ℕ

abbrev pub is_leap : ℕ → Bool
is_leap year = (year % 4 == 0 && not (year % 100 == 0)) || year % 400 == 0

abbrev pub days_in_month : ℕ → ℕ → ℕ
days_in_month year month =
    if month == 2
    then if is_leap year then 29 else 28
    else if month == 4 || month == 6 || month == 9 || month == 11
    then 30
    else 31

-- toIsoDate of utils/dateParsing.js
unfoldable pub to_iso_date : ℕ → ℕ → ℕ → Option IsoDate
to_iso_date year month day =
    if ltb year 1900 || ltb 2100 year
    then none
    else if leb 1 month && leb month 12 && leb 1 day && leb day (days_in_month year month)
    then some (record { year = year; month = month; day = day })
    else none
