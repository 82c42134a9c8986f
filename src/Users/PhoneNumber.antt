-- ===== src/Users/PhoneNumber.antt =====
-- utils/phoneNumber.js: normalizePhoneNumber over code units.
use emlynk_wabot.Prelude.{
  ◌≡◌, true, ◌&&◌, Option, none, some, [], ◌∷◌, ◌++◌, arith, Text, all, length, keep, leb, ◌==◌,
  if◌then◌else◌, refl,
}
use emlynk_wabot.Users.PassportId.{is_digit}

abbrev pub default_country_code : Text
default_country_code = b'9' ∷ b'4' ∷ []

-- digits.startsWith("00") and digits.slice(2)
unfoldable pub drop_dial_prefix : Text → Text
drop_dial_prefix (a ∷ b ∷ rest) = if a == b'0' && b == b'0' then rest else a ∷ b ∷ rest
drop_dial_prefix s = s

-- /^07\d{8}$/ and /^7\d{8}$/; every unit is a digit here
unfoldable pub add_country_code : Text → Text
add_country_code [] = []
add_country_code (a ∷ []) = a ∷ []
add_country_code (a ∷ b ∷ rest) =
    if a == b'0' && b == b'7' && length rest == 8
    then default_country_code ++ (b ∷ rest)
    else if a == b'7' && length rest == 7
    then default_country_code ++ (a ∷ b ∷ rest)
    else a ∷ b ∷ rest

unfoldable pub normalize_phone_number : Option Text → Option Text
unfolding drop_dial_prefix add_country_code
normalize_phone_number none = none
normalize_phone_number (some s) =
    let digits = add_country_code (drop_dial_prefix (keep is_digit s)) in
    if leb 8 (length digits) && leb (length digits) 15 then some digits else none

keep-digits : (s : Text) → all is_digit s ≡ true → keep is_digit s ≡ s
keep-digits [] h = refl
keep-digits (c ∷ s) h = ground (arith, keep-digits s)

abbrev pub AllEqual : Option Text → Option Text → Option Text → Option Text → Option Text → Type 0
AllEqual r a b c d = (a ≡ r) × (b ≡ r) × (c ≡ r) × (d ≡ r)

-- The four ways to write a Sri Lankan mobile number with the same eight last digits agree: with
-- the country code, with `+` before it, with a leading zero, and without it.
pub normalize_phone_number-formats :
    (rest : Text)
    → all is_digit rest ≡ true
    → length rest ≡ 8
    → AllEqual
        (some (b'9' ∷ b'4' ∷ b'7' ∷ rest))
        (normalize_phone_number (some (b'9' ∷ b'4' ∷ b'7' ∷ rest)))
        (normalize_phone_number (some (b'+' ∷ b'9' ∷ b'4' ∷ b'7' ∷ rest)))
        (normalize_phone_number (some (b'0' ∷ b'7' ∷ rest)))
        (normalize_phone_number (some (b'7' ∷ rest)))
unfolding normalize_phone_number
normalize_phone_number-formats [] d n = absurd (omega arith)
normalize_phone_number-formats (c ∷ rest) d n = ground (arith, keep-digits (c ∷ rest) d)
