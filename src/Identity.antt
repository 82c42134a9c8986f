-- ===== src/Identity.antt =====
-- services/identityVerificationService.js: decideIdentity.
pub mod Laws
use emlynk_wabot.Prelude.{
  ℕ, Bool, true, false, ◌||◌, ◌&&◌, not, Option, none, some, List, [], ◌∷◌, Text, text_eq, map, ltb,
  is_some, is_truthy, if◌then◌else◌,
}
use emlynk_wabot.Confidence.{slightly_unclear_from}
use emlynk_wabot.Users.{User}
use emlynk_wabot.Users.Lookup.{LookupStatus, Lookup}

-- IDENTITY_STATUS
pub data IdentityStatus : Type 0 where
  verified_match passport_match_only whatsapp_match_only identity_conflict : IdentityStatus
  no_match passport_id_unresolved ambiguous_match : IdentityStatus

-- IDENTITY_NOTES
pub data Note : Type 0 where
  whatsapp_not_on_record whatsapp_differs passport_not_in_database : Note
  passport_id_low_confidence : Note

-- idsOf keeps the two identifiers of each candidate.
abbrev pub Ids : Type 0
Ids = Text × Text

pub record Identity : Type 0 where
  pub status : IdentityStatus
  pub passport_id : Option Text
  pub unique_id : Option Text
  pub review_required : Bool
  pub provisional : Bool
  pub notes : List Note
  pub by_passport : List Ids
  pub by_whatsapp : List Ids

abbrev ids_of : Option Lookup → List Ids
ids_of none = []
ids_of (some lookup) = map (λ (u : User). (u.passport_id, u.unique_id)) lookup.users

abbrev passport_of : Option User → Option Text
passport_of none = none
passport_of (some u) = some u.passport_id

abbrev unique_of : Option User → Option Text
unique_of none = none
unique_of (some u) = some u.unique_id

-- MIN_PASSPORT_ID_CONFIDENCE
abbrev pub min_passport_id_confidence : ℕ
min_passport_id_confidence = slightly_unclear_from

abbrev is_found : LookupStatus → Bool
is_found LookupStatus.found = true
is_found _ = false

abbrev is_multiple : LookupStatus → Bool
is_multiple LookupStatus.multiple = true
is_multiple _ = false

abbrev is_invalid : LookupStatus → Bool
is_invalid LookupStatus.invalid_input = true
is_invalid _ = false

-- whatsappLookup?.status ?? NOT_FOUND
abbrev pub status_of : Option Lookup → LookupStatus
status_of none = LookupStatus.not_found
status_of (some lookup) = lookup.status

abbrev first : List User → Option User
first [] = none
first (u ∷ rest) = some u

-- status === FOUND ? lookup.users[0] : null
abbrev pub found_user : Option Lookup → Option User
found_user none = none
found_user (some lookup) = if is_found lookup.status then first lookup.users else none

module _ (passport_lookup whatsapp_lookup : Option Lookup) where
  unfoldable pub decision : IdentityStatus → Option User → Bool → Bool → List Note → Identity
  decision status user review_required provisional notes = record {
    status = status;
    passport_id = passport_of user;
    unique_id = unique_of user;
    review_required = review_required;
    provisional = provisional;
    notes = notes;
    by_passport = ids_of passport_lookup;
    by_whatsapp = ids_of whatsapp_lookup;
  }

  -- Police and medical documents: the WhatsApp number is the only signal.
  abbrev decide_by_whatsapp : Option User → Identity
  decide_by_whatsapp whatsapp_user =
      if is_multiple (status_of whatsapp_lookup)
      then decision IdentityStatus.ambiguous_match none true false []
      else elim whatsapp_user [
        | some u ↦ decision IdentityStatus.whatsapp_match_only (some u) false false []
        | none ↦ decision IdentityStatus.no_match none true false []
      ]

  -- A, B, C, E, D and F: the passport number is readable and nothing is ambiguous.
  abbrev decide_by_passport : Option User → Option User → Identity
  decide_by_passport (some p) (some w) =
      if text_eq p.passport_id w.passport_id
      then decision IdentityStatus.verified_match (some p) false false []
      else decision IdentityStatus.identity_conflict none true false []
  decide_by_passport (some p) none =
      decision IdentityStatus.passport_match_only (some p) true false (
        (if is_truthy p.whatsapp_number then Note.whatsapp_differs else Note.whatsapp_not_on_record)
        ∷ [])
  decide_by_passport none (some w) =
      decision IdentityStatus.whatsapp_match_only (some w) true true
        (Note.passport_not_in_database ∷ [])
  decide_by_passport none none =
      decision IdentityStatus.no_match none true false (Note.passport_not_in_database ∷ [])

  abbrev low_confidence_notes : List Note
  low_confidence_notes = elim passport_lookup [
    | none ↦ []
    | some lookup ↦ if is_invalid lookup.status then [] else Note.passport_id_low_confidence ∷ []
  ]

  -- G
  abbrev unresolved : Option User → Identity
  unresolved whatsapp_user =
      decision IdentityStatus.passport_id_unresolved whatsapp_user true (is_some whatsapp_user)
        low_confidence_notes

  abbrev passport_unreadable : ℕ → Bool
  passport_unreadable passport_id_confidence =
      not (is_some passport_lookup)
      || is_invalid (status_of passport_lookup)
      || ltb passport_id_confidence min_passport_id_confidence

  unfoldable pub decide_identity : Bool → ℕ → Identity
  unfolding decision
  decide_identity is_passport_document passport_id_confidence =
      let whatsapp_user = found_user whatsapp_lookup in
      if not is_passport_document
      then decide_by_whatsapp whatsapp_user
      else if passport_unreadable passport_id_confidence
      then unresolved whatsapp_user
      else if is_multiple (status_of passport_lookup) || is_multiple (status_of whatsapp_lookup)
      then decision IdentityStatus.ambiguous_match none true false []
      else decide_by_passport (found_user passport_lookup) whatsapp_user
