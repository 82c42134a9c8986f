-- ===== src/Users/PassportId.antt =====
-- utils/passportId.js: normalizePassportId over code units. `toUpperCase` is modelled on the ASCII
-- letters; the few other characters whose capital is an ASCII letter (such as ı and ſ) are kept.
use emlynk_wabot.Prelude.{
  ℕ, ◌-◌, ◌≤◌, ◌≡◌, Bool, true, false, ◌&&◌, ◌||◌, not, Option, none, some, [], ◌∷◌, arith, Text,
  any, all, length, keep, map, leb, ◌==◌, if◌then◌else◌, refl,
}

-- `toUpperCase` on ASCII
abbrev pub to_upper : ℕ → ℕ
to_upper c = if leb b'a' c && leb c b'z' then c - 32 else c

abbrev pub is_digit : ℕ → Bool
is_digit c = leb b'0' c && leb c b'9'

abbrev pub is_upper : ℕ → Bool
is_upper c = leb b'A' c && leb c b'Z'

-- `\s`: the white space of ASCII, and the Unicode spaces of ECMAScript
abbrev pub is_space : ℕ → Bool
is_space c =
    (leb 9 c && leb c 13)
    || c == 32
    || c == 160
    || c == 0x1680
    || (leb 0x2000 c && leb c 0x200A)
    || c == 0x2028
    || c == 0x2029
    || c == 0x202F
    || c == 0x205F
    || c == 0x3000
    || c == 0xFEFF

-- [\s<-]
abbrev pub is_filler : ℕ → Bool
is_filler c = is_space c || c == b'<' || c == b'-'

abbrev pub is_id_char : ℕ → Bool
is_id_char c = is_upper c || is_digit c

-- /^[A-Z0-9]{6,9}$/ and /\d/
unfoldable pub looks_valid : Text → Bool
looks_valid s = all is_id_char s && leb 6 (length s) && leb (length s) 9 && any is_digit s

-- The canonical form, before the test.
unfoldable pub strip_filler : Text → Text
strip_filler s = keep (λ c. not (is_filler c)) (map to_upper s)

-- `null`, a missing value and the empty string are all falsy.
unfoldable pub normalize_passport_id : Option Text → Option Text
unfolding looks_valid strip_filler
normalize_passport_id none = none
normalize_passport_id (some []) = none
normalize_passport_id (some (c ∷ s)) =
    let normalized = strip_filler (c ∷ s) in
    if looks_valid normalized then some normalized else none

to_upper_id_char : (c : ℕ) → is_id_char c ≡ true → (to_upper c ≡ c) × (is_filler c ≡ false)
to_upper_id_char c h = ground arith

strip-valid : (s : Text) → all is_id_char s ≡ true → strip_filler s ≡ s
unfolding strip_filler
strip-valid [] h = refl
strip-valid (c ∷ s) h = ground (arith, strip-valid s, to_upper_id_char c)

looks_valid-strip : (s : Text) → looks_valid s ≡ true → strip_filler s ≡ s
unfolding looks_valid
looks_valid-strip s h = strip-valid s (ground arith)

parts :
    (n : Text)
    → looks_valid n ≡ true
    → (all is_id_char n ≡ true) × (6 ≤ length n) × (length n ≤ 9) × (any is_digit n ≡ true)
unfolding looks_valid
parts n h = ground arith

normalize-looks_valid :
    (v : Option Text) (n : Text) → normalize_passport_id v ≡ some n → looks_valid n ≡ true
unfolding normalize_passport_id
normalize-looks_valid none n h = cc
normalize-looks_valid (some []) n h = cc
normalize-looks_valid (some (c ∷ s)) n h = ground arith

looks_valid-normalize : (n : Text) → looks_valid n ≡ true → normalize_passport_id (some n) ≡ some n
looks_valid-normalize [] h = unfold looks_valid in cc
looks_valid-normalize (c ∷ s) h =
    unfold normalize_passport_id in rw (looks_valid-strip (c ∷ s) h, h)

-- A normalized number is six to nine capital letters and digits with at least one digit, and
-- normalizing it again changes nothing.
pub normalize_passport_id-valid :
    (v : Option Text) (n : Text)
    → normalize_passport_id v ≡ some n
    → (all is_id_char n ≡ true)
      × (6 ≤ length n)
      × (length n ≤ 9)
      × (any is_digit n ≡ true)
      × (normalize_passport_id (some n) ≡ some n)
normalize_passport_id-valid v n h =
    let valid = normalize-looks_valid v n h in
    let (a, b, c, d) = parts n valid in (a, b, c, d, looks_valid-normalize n valid)
