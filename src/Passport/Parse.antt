-- ===== src/Passport/Parse.antt =====
-- utils/mrz.js: parsePassportMrz.
use emlynk_wabot.Prelude.{
  take, drop, ℕ, ◌+◌, ◌-◌, ◌*◌, Bool, true, false, ◌&&◌, ◌||◌, not, Option, none, some, List, [],
  ◌∷◌, ◌++◌, Text, all, keep, length, ltb, ◌==◌, if◌then◌else◌,
}
use emlynk_wabot.Users.PassportId.{is_digit, is_space}
use emlynk_wabot.Passport.Mrz.{slice, to_digits, is_check_digit_valid, IsoDate, to_iso_date}

pub data MrzKind : Type 0 where
  birth expiry : MrzKind

-- Number(s) of digits
abbrev pub number_from : ℕ → Text → ℕ
number_from n [] = n
number_from n (c ∷ s) = number_from (n * 10 + (c - 48)) s

abbrev pub mrz_year : ℕ → MrzKind → ℕ → ℕ
mrz_year this_year MrzKind.birth yy = if ltb this_year (2000 + yy) then 1900 + yy else 2000 + yy
mrz_year this_year MrzKind.expiry yy = 2000 + yy

-- mrzDateToIso
unfoldable pub mrz_date_to_iso : ℕ → Text → MrzKind → Option IsoDate
mrz_date_to_iso this_year yymmdd kind =
    if length yymmdd == 6 && all is_digit yymmdd
    then to_iso_date (mrz_year this_year kind (number_from 0 (slice 0 2 yymmdd)))
        (number_from 0 (slice 2 4 yymmdd)) (number_from 0 (slice 4 6 yymmdd))
    else none

abbrev pub prepend : Text → List Text → List Text
prepend s [] = s ∷ []
prepend s (t ∷ rest) = (s ++ t) ∷ rest

-- `split("<<")`; `held` tells whether a < was read that is not yet part of a piece.
unfoldable pub split_fillers : Bool → Text → List Text
split_fillers held [] = (if held then b'<' ∷ [] else []) ∷ []
split_fillers true (c ∷ s) =
    let rest = split_fillers false s in
    if c == b'<' then [] ∷ rest else prepend (b'<' ∷ c ∷ []) rest
split_fillers false (c ∷ s) = elim (c == b'<') [
  | true ↦ split_fillers true s
  | false ↦ prepend (c ∷ []) (split_fillers false s)
]

-- `join("<")`
unfoldable pub join_fillers : List Text → Text
join_fillers [] = []
join_fillers (s ∷ []) = s
join_fillers (s ∷ t ∷ rest) = s ++ (b'<' ∷ join_fillers (t ∷ rest))

-- Where a name is read: before its first word, in a word, or between two words.
pub data Place : Type 0 where
  start word gap : Place

abbrev pub after_blank : Place → Place
after_blank Place.start = Place.start
after_blank Place.word = Place.gap
after_blank Place.gap = Place.gap

abbrev pub before_word : Place → Text → Text
before_word Place.start s = s
before_word Place.word s = s
before_word Place.gap s = 32 ∷ s

abbrev pub squeeze : Place → Text → Text
squeeze p [] = []
squeeze p (c ∷ s) = elim (is_space c || c == b'<') [
  | true ↦ squeeze (after_blank p) s
  | false ↦ before_word p (c ∷ squeeze Place.word s)
]

abbrev pub or_none : Text → Option Text
or_none [] = none
or_none (c ∷ s) = some (c ∷ s)

-- mrzNameToText
unfoldable pub mrz_name_to_text : Text → Option Text
mrz_name_to_text s = or_none (squeeze Place.start s)

pub record PassportMrz : Type 0 where
  pub surname : Option Text
  pub given_names : Option Text
  pub passport_number : Option Text
  pub passport_number_check_valid : Option Bool
  pub date_of_birth : Option IsoDate
  pub date_of_birth_check_valid : Option Bool
  pub expiry_date : Option IsoDate
  pub expiry_date_check_valid : Option Bool
  pub composite_check_valid : Option Bool

abbrev pub no_fields : PassportMrz
no_fields = record {
  surname = none;
  given_names = none;
  passport_number = none;
  passport_number_check_valid = none;
  date_of_birth = none;
  date_of_birth_check_valid = none;
  expiry_date = none;
  expiry_date_check_valid = none;
  composite_check_valid = none;
}

abbrev pub named : List Text → PassportMrz → PassportMrz
named [] r = r
named (surname ∷ given_names) r = record r {
  surname = mrz_name_to_text surname;
  given_names = mrz_name_to_text (join_fillers given_names);
}

-- The fields of the first line.
unfoldable pub parse_line_1 : Option Text → PassportMrz → PassportMrz
parse_line_1 none r = r
parse_line_1 (some s) r = if length s == 0 then r else named (split_fillers false (drop 5 s)) r

unfoldable pub composite_input : Text → Text
composite_input line =
    slice 0 9 line
    ++ (to_digits (slice 9 10 line)
        ++ (to_digits (slice 13 19 line)
            ++ (to_digits (slice 19 20 line)
                ++ (to_digits (slice 21 27 line)
                    ++ (to_digits (slice 27 28 line) ++ slice 28 43 line)))))

-- The fields of the second line, of at most 44 characters.
unfoldable pub parse_fields : ℕ → Text → PassportMrz → PassportMrz
parse_fields this_year line r =
    let number = slice 0 9 line in
    let birth_field = to_digits (slice 13 19 line) in
    let expiry_field = to_digits (slice 21 27 line) in
    record r {
      passport_number = or_none (keep (λ c. not (c == b'<')) number);
      passport_number_check_valid = some (is_check_digit_valid number (slice 9 10 line));
      date_of_birth = mrz_date_to_iso this_year birth_field MrzKind.birth;
      date_of_birth_check_valid = some (is_check_digit_valid birth_field (slice 19 20 line));
      expiry_date = mrz_date_to_iso this_year expiry_field MrzKind.expiry;
      expiry_date_check_valid = some (is_check_digit_valid expiry_field (slice 27 28 line));
      composite_check_valid =
          if length line == 44
          then some (is_check_digit_valid (composite_input line) (slice 43 44 line))
          else none;
    }

unfoldable pub parse_line_2 : ℕ → Option Text → PassportMrz → PassportMrz
parse_line_2 this_year none r = r
parse_line_2 this_year (some s) r =
    if ltb (length s) 28 then r else parse_fields this_year (take 44 s) r

-- parsePassportMrz
unfoldable pub parse_passport_mrz : ℕ → Option Text → Option Text → PassportMrz
parse_passport_mrz this_year line1 line2 =
    parse_line_2 this_year line2 (parse_line_1 line1 no_fields)
