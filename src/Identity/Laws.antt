-- ===== src/Identity/Laws.antt =====
-- services/identityVerificationService.js: decisions without review, and conflicts.
use emlynk_wabot.Prelude.{
  ℕ, ◌≤◌, ◌≡◌, ◌≢◌, inl, inr, sym, ap, ◌∙◌, Bool, true, false, Option, none, some, arith, text_eq,
  text_eq_iff, Option-cases,
}
use mathlib.Core.Bool.{true≢false}
use emlynk_wabot.Users.{User}
use emlynk_wabot.Users.Lookup.{Lookup}
use emlynk_wabot.Identity.{
  Identity, IdentityStatus, decide_identity, found_user, min_passport_id_confidence,
}

-- The sender `u` is the one client with the WhatsApp number, and for a passport also the one client
-- with the passport number, which was read with at least the confidence that identifies anyone.
pub record IsProven (passport_lookup whatsapp_lookup : Option Lookup) (is_passport : Bool)
    (confidence : ℕ) (u : User) : Type 0 where
  pub by_whatsapp : found_user whatsapp_lookup ≡ some u
  pub by_passport :
      is_passport ≡ true
      → (p : User) × (found_user passport_lookup ≡ some p)
        × (p.passport_id ≡ u.passport_id)
        × (min_passport_id_confidence ≤ confidence)

-- Which clients the result of decideIdentity names, given whom the two lookups found.
module _ (pl wl : Option Lookup) (conf : ℕ) where
  no_passport_user : found_user pl ≡ none → (decide_identity pl wl true conf).review_required ≡ true
  unfolding decide_identity
  no_passport_user e = ground (arith, e)

  no_whatsapp_user :
      (is_passport : Bool)
      → found_user wl ≡ none
      → (decide_identity pl wl is_passport conf).review_required ≡ true
  unfolding decide_identity
  no_whatsapp_user is_passport e = ground (arith, e)

  both_users :
      (p u : User)
      → found_user pl ≡ some p
      → found_user wl ≡ some u
      → (decide_identity pl wl true conf).review_required ≡ false
      → (text_eq p.passport_id u.passport_id ≡ true)
        × (min_passport_id_confidence ≤ conf)
        × ((decide_identity pl wl true conf).passport_id ≡ some p.passport_id)
        × ((decide_identity pl wl true conf).status ≡ IdentityStatus.verified_match)
        × ((decide_identity pl wl true conf).provisional ≡ false)
  unfolding decide_identity
  both_users p u ep eu h = ground (arith, ep, eu)

  other_document :
      (u : User)
      → found_user wl ≡ some u
      → (decide_identity pl wl false conf).review_required ≡ false
      → ((decide_identity pl wl false conf).passport_id ≡ some u.passport_id)
        × ((decide_identity pl wl false conf).status ≡ IdentityStatus.whatsapp_match_only)
        × ((decide_identity pl wl false conf).provisional ≡ false)
  unfolding decide_identity
  other_document u eu h = ground (arith, eu)

abbrev pub trusted_status : Bool → IdentityStatus
trusted_status true = IdentityStatus.verified_match
trusted_status false = IdentityStatus.whatsapp_match_only

-- What a decision that needs no review says: which client was proven to be the sender.
pub record IsTrusted (pl wl : Option Lookup) (is_passport : Bool) (conf : ℕ) (i : Identity)
    : Type 0 where
  pub client : User
  pub proven : IsProven pl wl is_passport conf client
  pub linked : i.passport_id ≡ some client.passport_id
  pub definite : i.provisional ≡ false
  pub status : i.status ≡ trusted_status is_passport

module _ (pl wl : Option Lookup) (conf : ℕ) where
  IsTrusted-passport :
      (p u : User)
      → found_user pl ≡ some p
      → found_user wl ≡ some u
      → (decide_identity pl wl true conf).review_required ≡ false
      → IsTrusted pl wl true conf (decide_identity pl wl true conf)
  IsTrusted-passport p u ep eu h =
      let (same, enough, linked, status, definite) = both_users pl wl conf p u ep eu h in
      let equal = (text_eq_iff p.passport_id u.passport_id).0 same in
      record {
        client = u;
        proven = record { by_whatsapp = eu; by_passport = λ _. (p, ep, equal, enough) };
        linked = linked ∙ ap some equal;
        definite = definite;
        status = status;
      }

  IsTrusted-other :
      (u : User)
      → found_user wl ≡ some u
      → (decide_identity pl wl false conf).review_required ≡ false
      → IsTrusted pl wl false conf (decide_identity pl wl false conf)
  IsTrusted-other u eu h =
      let (linked, status, definite) = other_document pl wl conf u eu h in
      record {
        client = u;
        proven = record { by_whatsapp = eu; by_passport = λ n. cc n };
        linked = linked;
        definite = definite;
        status = status;
      }

-- A decision that needs no review is definite and links the client that was proven to be the
-- sender: the only client with the WhatsApp number, and for a passport the client whose passport
-- number was read with at least 60 percent confidence and found exactly once.
pub decide_identity-IsTrusted :
    (passport_lookup whatsapp_lookup : Option Lookup) (is_passport : Bool) (conf : ℕ)
    → (decide_identity passport_lookup whatsapp_lookup is_passport conf).review_required ≡ false
    → IsTrusted passport_lookup whatsapp_lookup is_passport conf
        (decide_identity passport_lookup whatsapp_lookup is_passport conf)
decide_identity-IsTrusted pl wl true conf h = elim (Option-cases (found_user wl)) [
  | inl no_u ↦ absurd (true≢false (sym (no_whatsapp_user pl wl conf true no_u) ∙ h))
  | inr (u, eu) ↦ elim (Option-cases (found_user pl)) [
    | inl no_p ↦ absurd (true≢false (sym (no_passport_user pl wl conf no_p) ∙ h))
    | inr (p, ep) ↦ IsTrusted-passport pl wl conf p u ep eu h
  ]
]
decide_identity-IsTrusted pl wl false conf h = elim (Option-cases (found_user wl)) [
  | inl no_u ↦ absurd (true≢false (sym (no_whatsapp_user pl wl conf false no_u) ∙ h))
  | inr (u, eu) ↦ IsTrusted-other pl wl conf u eu h
]

-- A readable passport of one client that comes from the number of another client links neither: it
-- is a conflict for review.
pub decide_identity-conflict :
    (passport_lookup whatsapp_lookup : Option Lookup) (conf : ℕ) (p u : User)
    → found_user passport_lookup ≡ some p
    → found_user whatsapp_lookup ≡ some u
    → p.passport_id ≢ u.passport_id
    → min_passport_id_confidence ≤ conf
    → ((decide_identity passport_lookup whatsapp_lookup true conf).status
        ≡ IdentityStatus.identity_conflict)
      × ((decide_identity passport_lookup whatsapp_lookup true conf).passport_id ≡ none)
      × ((decide_identity passport_lookup whatsapp_lookup true conf).unique_id ≡ none)
      × ((decide_identity passport_lookup whatsapp_lookup true conf).review_required ≡ true)
unfolding decide_identity
decide_identity-conflict (some pl) (some wl) conf p u ep eu ne enough =
    ground (arith, text_eq_iff p.passport_id u.passport_id)
decide_identity-conflict none wl conf p u ep eu ne enough = cc ep
decide_identity-conflict (some pl) none conf p u ep eu ne enough = cc eu
