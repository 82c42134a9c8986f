-- ===== src/Users/Lookup.antt =====
-- services/userLookupService.js: the two lookups. The table is the list of its rows, and a query
-- filters it by its `where` clause.
pub mod Laws
use emlynk_wabot.Prelude.{
  ℕ, zero, suc, ◌-◌, Bool, true, false, ◌&&◌, Option, none, some, List, [], ◌∷◌, Text, text_eq,
  length, keep, map, if◌then◌else◌,
}
use emlynk_wabot.Users.Row.{User}
use emlynk_wabot.Users.PassportId.{to_upper, normalize_passport_id}
use emlynk_wabot.Users.PhoneNumber.{normalize_phone_number}

-- LOOKUP_STATUS
pub data LookupStatus : Type 0 where
  found not_found multiple invalid_input : LookupStatus

pub record Lookup : Type 0 where
  pub status : LookupStatus
  pub users : List User

-- toResult
unfoldable pub to_result : List User → Lookup
to_result [] = record { status = LookupStatus.not_found; users = [] }
to_result (u ∷ []) = record { status = LookupStatus.found; users = u ∷ [] }
to_result (u ∷ v ∷ rest) = record { status = LookupStatus.multiple; users = u ∷ v ∷ rest }

abbrev invalid : Lookup
invalid = record { status = LookupStatus.invalid_input; users = [] }

-- `{ equals: normalized, mode: "insensitive" }`
abbrev pub equals_insensitive : Text → Text → Bool
equals_insensitive s t = text_eq (map to_upper s) (map to_upper t)

-- `take: 2`
abbrev pub take_two : List User → List User
take_two [] = []
take_two (u ∷ []) = u ∷ []
take_two (u ∷ v ∷ rest) = u ∷ v ∷ []

unfoldable pub find_users_by_passport_id : List User → Option Text → Lookup
unfolding to_result
find_users_by_passport_id table passport_id = elim (normalize_passport_id passport_id) [
  | none ↦ invalid
  | some normalized ↦
      to_result (take_two (keep (λ u. equals_insensitive u.passport_id normalized) table))
]

-- normalized.slice(-4)
abbrev drop_units : ℕ → Text → Text
drop_units zero s = s
drop_units (suc n) [] = []
drop_units (suc n) (c ∷ s) = drop_units n s

abbrev pub last_four : Text → Text
last_four s = drop_units (length s - 4) s

-- `{ endsWith: … }`; a missing number ends with nothing
unfoldable pub ends_with : Text → Option Text → Bool
ends_with suffix none = false
ends_with suffix (some s) = text_eq (drop_units (length s - length suffix) s) suffix

-- normalizePhoneNumber(user.whatsappNumber) === normalized
abbrev pub phone_is : Text → Option Text → Bool
phone_is normalized number = elim (normalize_phone_number number) [
  | none ↦ false
  | some digits ↦ text_eq digits normalized
]

unfoldable pub find_users_by_whatsapp_number : List User → Option Text → Lookup
unfolding to_result ends_with
find_users_by_whatsapp_number table number = elim (normalize_phone_number number) [
  | none ↦ invalid
  | some normalized ↦
      let candidates = keep (λ u. ends_with (last_four normalized) u.whatsapp_number) table in
      to_result (keep (λ u. phone_is normalized u.whatsapp_number) candidates)
]
