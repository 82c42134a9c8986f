-- ===== src/Accounts/Pending.antt =====
-- The operations of the account services one after another, and how many invitations are pending
-- (services/adminInvitationService.js, passwordResetService.js).
use emlynk_wabot.Prelude.{
  ℕ, ◌+◌, ◌*◌, ◌≡◌, ◌≤◌, inl, inr, Bool, true, false, ◌&&◌, not, Option, none, List, [], ◌∷◌, Text,
  text_eq, text_eq_iff, find, map, keep, length, arith, refl, subst, or_else, Bool-cases,
}
use emlynk_wabot.Accounts.Tables.{
  Account, Reset, Invitation, InvitationStatus, Accounts, AccountError, done, must, present,
  update_row,
}
use emlynk_wabot.Accounts.Invitations.{
  permitted, invitation_expiration_hours, is_pending_for, revoke_pending, NewInvitation,
  create_invitation, account_of, is_active_account, accept, revoke, has_invitation_id,
  delete_invitation,
}
use emlynk_wabot.Accounts.Resets.{used, with_password, write_reset, request_password_reset}
use emlynk_wabot.Accounts.Withdrawn.{revoke_invitation-done}
use emlynk_wabot.Accounts.System.{
  Step, creates, sets_up, revokes, deletes, requests_reset, resets, Reach, here, next,
}
use emlynk_wabot.Accounts.Rows.{bind-done, one, update_row-done}
use emlynk_wabot.Accounts.Once.{reset_password-done}
use emlynk_wabot.Accounts.Accepted.{setup-done, write_setup-done}

abbrev pub pending_count : Text → List Invitation → ℕ
pending_count email invitations = length (keep (is_pending_for email) invitations)

-- No address has two pending invitations.
abbrev pub IsOnePending : Accounts → Type 0
IsOnePending db = (email : Text) → pending_count email db.invitations ≤ 1

map-pending :
    (email : Text) (f : Invitation → Invitation)
    → ((i : Invitation) → is_pending_for email (f i) ≡ true → is_pending_for email i ≡ true)
    → (invitations : List Invitation)
    → pending_count email (map f invitations) ≤ pending_count email invitations
map-pending email f less [] = omega arith
map-pending email f less (i ∷ rest) =
    let later = map-pending email f less rest in
    elim (Bool-cases (is_pending_for email (f i))) [
      | inl hit ↦ rw hit (rw (less i hit) (omega (arith, later)))
      | inr miss ↦ rw miss (ground (arith, later))
    ]

keep-pending :
    (email : Text) (q : Invitation → Bool) (invitations : List Invitation)
    → pending_count email (keep q invitations) ≤ pending_count email invitations
keep-pending email q [] = omega arith
keep-pending email q (i ∷ rest) = ground (arith, keep-pending email q rest)

one-pending :
    (email id : Text) (change : Invitation → Invitation)
    → ((i : Invitation) → is_pending_for email (change i) ≡ false)
    → (i : Invitation)
    → is_pending_for email (one (λ (j : Invitation). j.invitation_id) id change i) ≡ true
    → is_pending_for email i ≡ true
one-pending email id change never i h = elim (Bool-cases (text_eq i.invitation_id id)) [
  | inl hit ↦ absurd (cc (never i, rw hit at h))
  | inr miss ↦ rw miss at h
]

update-pending :
    (email id : Text) (change : Invitation → Invitation)
    → ((i : Invitation) → is_pending_for email (change i) ≡ false)
    → (invitations : List Invitation) {out : List Invitation}
    → update_row (λ (i : Invitation). i.invitation_id) id change invitations ≡ done out
    → pending_count email out ≤ pending_count email invitations
update-pending email id change never invitations h =
    rw (update_row-done (λ (i : Invitation). i.invitation_id) id change invitations h) (
      map-pending email (one (λ (i : Invitation). i.invitation_id) id change)
        (λ i. one-pending email id change never i) invitations)

revoke_pending-none :
    (now : ℕ) (email : Text) (invitations : List Invitation)
    → pending_count email (revoke_pending now email invitations) ≡ 0
unfolding revoke_pending
revoke_pending-none now email [] = refl
revoke_pending-none now email (i ∷ rest) =
    let later = revoke_pending-none now email rest in ground (arith, later)

revoke_pending-fewer :
    (now : ℕ) (email other : Text) (invitations : List Invitation)
    → pending_count other (revoke_pending now email invitations) ≤ pending_count other invitations
unfolding revoke_pending
revoke_pending-fewer now email other [] = omega arith
revoke_pending-fewer now email other (i ∷ rest) =
    let later = revoke_pending-fewer now email other rest in ground (arith, later)

never-pending : (b : Bool) → (b && false) ≡ false
never-pending b = ground arith

done-invitations : (a b : Accounts) → done a ≡ done b → b.invitations ≡ a.invitations
done-invitations a b h = ground arith

create_invitation-done :
    (hash_token : Text → Text) (now : ℕ) (token id : Text) (caller : Option Account)
    (new : NewInvitation) (db : Accounts) {out : Accounts}
    → create_invitation hash_token now token id caller new db ≡ done out
    → (i : Invitation) × (out.invitations ≡ i ∷ revoke_pending now i.email db.invitations)
unfolding create_invitation
create_invitation-done hash_token now token id caller new db {out} h =
    let (by, _, h1) = bind-done (permitted caller) _ h in
    let (name, _, h2) = bind-done (present new.name AccountError.invalid_name) _ h1 in
    let (email, _, h3) = bind-done (present new.email AccountError.invalid_email) _ h2 in
    let (role, _, h4) = bind-done (present new.role AccountError.invalid_role) _ h3 in
    let (_, _, h5) =
      bind-done
        (must (not (is_active_account (account_of email db.accounts)))
          AccountError.duplicate_active_admin)
        _ h4 in
    let i : Invitation = record {
      invitation_id = id;
      email = email;
      name = name;
      role = role;
      token_hash = hash_token token;
      invited_by = by.admin_id;
      status = InvitationStatus.pending;
      expires_at = now + invitation_expiration_hours * 60 * 60 * 1000;
      accepted_at = none;
      revoked_at = none;
    } in
    (i, done-invitations _ out h5)

one-more :
    (now : ℕ) (i : Invitation) (email : Text) (invitations : List Invitation)
    → pending_count email invitations ≤ 1
    → pending_count email (i ∷ revoke_pending now i.email invitations) ≤ 1
one-more now i email invitations h =
    let old = revoke_pending-none now i.email invitations in
    let fewer = revoke_pending-fewer now i.email email invitations in
    elim (Bool-cases (text_eq i.email email)) [
      | inl same ↦
          let e = (text_eq_iff i.email email).0 same in
          let none_left : pending_count email (revoke_pending now i.email invitations) ≡ 0 =
            subst (λ k. pending_count k (revoke_pending now i.email invitations) ≡ 0) e old in
          ground (arith, none_left, same)
      | inr different ↦ rw different (omega (arith, fewer, h))
    ]

write_reset-invitations :
    (now : ℕ) (hash : Text) (row : Reset) (account : Account) (db : Accounts) {out : Accounts}
    → write_reset now hash row account db ≡ done out
    → out.invitations ≡ db.invitations
unfolding write_reset
write_reset-invitations now hash row account db {out} h =
    let (_, _, h1) =
      bind-done (update_row (λ (r : Reset). r.reset_id) row.reset_id (used now) db.resets) _ h in
    let (_, _, h2) =
      bind-done
        (update_row (λ (a : Account). a.admin_id) account.admin_id (with_password hash) db.accounts)
        _ h1 in
    done-invitations _ out h2

request-invitations :
    (hash_token : Text → Text) (now : ℕ) (token id address : Text) (db : Accounts)
    → (request_password_reset hash_token now token id address db).invitations ≡ db.invitations
unfolding request_password_reset
request-invitations hash_token now token id address db = ground arith

module _ (hash_token hash_password : Text → Text) where
  Step-IsOnePending :
      {db out : Accounts}
      → Step hash_token hash_password db out
      → IsOnePending db
      → IsOnePending out
  unfolding delete_invitation
  Step-IsOnePending {db} (creates now token id caller new h) single email =
      let (i, made) = create_invitation-done hash_token now token id caller new db h in
      rw made (one-more now i email db.invitations (single email))
  Step-IsOnePending {db} (sets_up now new_id token password reads h) single email =
      let (i, _, _, written) =
        setup-done hash_token hash_password now new_id token password reads db h in
      let (_, rows, _) =
        write_setup-done now new_id (hash_password (or_else password [])) i
          (account_of i.email reads.accounts) db written in
      omega (
        arith,
        single email,
        update-pending email i.invitation_id (accept now)
            (λ j. never-pending (text_eq j.email email)) db.invitations rows,
      )
  Step-IsOnePending {db} (revokes now caller id h) single email =
      let (rows, _) = revoke_invitation-done now caller id db h in
      omega (
        arith,
        single email,
        update-pending email id (revoke now) (λ j. never-pending (text_eq j.email email))
            db.invitations rows,
      )
  Step-IsOnePending {db} {out} (deletes caller id h) single email =
      let (by, _, h1) = bind-done (permitted caller) _ h in
      let (i, _, h2) =
        bind-done (present (find (has_invitation_id id) db.invitations) AccountError.not_found) _
          h1 in
      let fewer =
        keep-pending email (λ (j : Invitation). not (has_invitation_id id j)) db.invitations in
      rw (done-invitations _ out h2) (omega (arith, single email, fewer))
  Step-IsOnePending {db} (requests_reset now token id address) single email =
      rw (request-invitations hash_token now token id address db) (single email)
  Step-IsOnePending {db} (resets now token password reads h) single email =
      let (row, account, _, _, written, _) =
        reset_password-done hash_token hash_password now token password reads db h in
      rw (write_reset-invitations now (hash_password (or_else password [])) row account db written)
        (single email)

  -- However invitations are created, accepted, revoked and deleted and passwords reset, in any order,
  -- and whatever the set-ups and resets had read before their transactions: if no address has two
  -- pending invitations at first, none ever has.
  pub Reach-IsOnePending :
      (first db : Accounts)
      → Reach hash_token hash_password first db
      → IsOnePending first
      → IsOnePending db
  Reach-IsOnePending first db here single = single
  Reach-IsOnePending first db (next {db = before} reach step) single =
      Step-IsOnePending step (Reach-IsOnePending first before reach single)
