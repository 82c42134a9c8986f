-- ===== src/Users/Lookup/Laws.antt =====
-- What a lookup of services/userLookupService.js says of the users table.
use emlynk_wabot.Prelude.{
  ◌≡◌, ◌⊎◌, inl, inr, Option, none, some, List, [], ◌∷◌, Text, keep, refl, Option-cases,
}
use emlynk_wabot.Users.Row.{User}
use emlynk_wabot.Users.PassportId.{normalize_passport_id}
use emlynk_wabot.Users.PhoneNumber.{normalize_phone_number}
use emlynk_wabot.Users.Lookup.{
  LookupStatus, Lookup, to_result, take_two, equals_insensitive, phone_is, ends_with, last_four,
  find_users_by_passport_id, find_users_by_whatsapp_number,
}

-- The rows with a passport number, as the database compares it.
abbrev pub with_passport : Text → List User → List User
with_passport n table = keep (λ u. equals_insensitive u.passport_id n) table

-- The rows with a number, with the condition on the last four digits that the database tests.
abbrev pub with_number : Text → List User → List User
with_number n table =
    keep (λ u. phone_is n u.whatsapp_number)
      (keep (λ u. ends_with (last_four n) u.whatsapp_number) table)

-- What the status of a lookup says of the rows that match.
pub data IsAnswer (rows : List User) : Lookup → Type 0 where
  missing : rows ≡ [] → IsAnswer rows (record { status = LookupStatus.not_found; users = [] })
  unique :
      (u : User)
      → rows ≡ u ∷ []
      → IsAnswer rows (record { status = LookupStatus.found; users = u ∷ [] })
  several :
      (u v : User) (rest users : List User)
      → rows ≡ u ∷ v ∷ rest
      → IsAnswer rows (record { status = LookupStatus.multiple; users = u ∷ v ∷ users })

answers-two : (rows : List User) → IsAnswer rows (to_result (take_two rows))
unfolding to_result
answers-two [] = IsAnswer.missing refl
answers-two (u ∷ []) = IsAnswer.unique u refl
answers-two (u ∷ v ∷ rest) = IsAnswer.several u v rest [] refl

answers-all : (rows : List User) → IsAnswer rows (to_result rows)
unfolding to_result
answers-all [] = IsAnswer.missing refl
answers-all (u ∷ []) = IsAnswer.unique u refl
answers-all (u ∷ v ∷ rest) = IsAnswer.several u v rest rest refl

-- Both lookups refuse exactly what has no normal form; otherwise their status tells whether no row,
-- one row or several rows match, although the passport lookup fetches two rows at most.
pub lookups-IsAnswer :
    (table : List User) (passport_id number : Option Text)
    → (((normalize_passport_id passport_id ≡ none)
          × ((find_users_by_passport_id table passport_id).status ≡ LookupStatus.invalid_input))
        ⊎ ((n : Text) × (normalize_passport_id passport_id ≡ some n)
            × IsAnswer (with_passport n table) (find_users_by_passport_id table passport_id)))
      × (((normalize_phone_number number ≡ none)
            × ((find_users_by_whatsapp_number table number).status ≡ LookupStatus.invalid_input))
          ⊎ ((n : Text) × (normalize_phone_number number ≡ some n)
              × IsAnswer (with_number n table) (find_users_by_whatsapp_number table number)))
unfolding find_users_by_passport_id find_users_by_whatsapp_number
lookups-IsAnswer table passport_id number = (
  elim (Option-cases (normalize_passport_id passport_id)) [
    | inl bad ↦ inl (bad, rw (find_users_by_passport_id, bad) refl)
    | inr (n, good) ↦
        inr (n, good, rw (find_users_by_passport_id, good) (answers-two (with_passport n table)))
  ],
  elim (Option-cases (normalize_phone_number number)) [
    | inl bad ↦ inl (bad, rw (find_users_by_whatsapp_number, bad) refl)
    | inr (n, good) ↦
        inr (n, good, rw (find_users_by_whatsapp_number, good) (answers-all (with_number n table)))
  ],
)
