-- ===== src/Accounts/Accepted.antt =====
-- What the acceptance of an invitation leaves (services/adminInvitationService.js).
use emlynk_wabot.Prelude.{
  ℕ, ◌≡◌, ◌≤◌, true, false, not, Option, none, some, List, [], ◌∷◌, Text, text_eq_refl, find,
  is_truthy, or_else, arith, refl, subst, ap, ◌∙◌,
}
use emlynk_wabot.Accounts.Tables.{
  Account, AccountStatus, Invitation, InvitationStatus, Accounts, AccountError, failed, done, ◌>>=◌,
  must, present, is_password, update_row,
}
use emlynk_wabot.Accounts.Invitations.{
  has_token, accept, set_up, new_account, account_of, is_active_account, check_invitation,
  get_invitation_by_token, write_account, write_setup, setup_password_from_invitation,
}
use emlynk_wabot.Accounts.Rows.{must-holds, must-not, present-some, bind-done, find-updated}

check_invitation-open :
    (now : ℕ) (i : Invitation) {u : Unit {0}}
    → check_invitation now i ≡ done u
    → (i.status ≡ InvitationStatus.pending) × (now ≤ i.expires_at)
unfolding check_invitation
check_invitation-open now i h = ground arith

module _ (hash_token : Text → Text) where
  pub get-open :
      (now : ℕ) (token : Option Text) (invitations : List Invitation) {i : Invitation}
      → get_invitation_by_token hash_token now token invitations ≡ done i
      → (is_truthy token ≡ true)
        × (find (has_token (hash_token (or_else token []))) invitations ≡ some i)
        × (i.status ≡ InvitationStatus.pending)
        × (now ≤ i.expires_at)
  unfolding get_invitation_by_token
  get-open now token invitations {i} h =
      let (_, truthy, h1) = bind-done (must (is_truthy token) AccountError.invalid_token) _ h in
      let (j, found, h2) =
        bind-done
          (present (find (has_token (hash_token (or_else token []))) invitations)
            AccountError.invalid_token)
          _ h1 in
      let (u, checked, h3) = bind-done (check_invitation now j) _ h2 in
      let same : j ≡ i = cc h3 in
      let (waiting, fresh) =
        check_invitation-open now i (subst (λ k. check_invitation now k ≡ done u) same checked) in
      (must-holds _ _ truthy, present-some _ _ found ∙ ap some same, waiting, fresh)

  get-accepted :
      (now : ℕ) (token : Option Text) (invitations : List Invitation) {i : Invitation}
      → is_truthy token ≡ true
      → find (has_token (hash_token (or_else token []))) invitations ≡ some i
      → i.status ≡ InvitationStatus.accepted
      → get_invitation_by_token hash_token now token invitations ≡ failed AccountError.already_used
  unfolding get_invitation_by_token check_invitation ◌>>=◌
  get-accepted now token invitations truthy found gone = rw truthy (rw found (rw gone refl))

-- The account of an invitation that is accepted.
abbrev pub IsSetUp : Text → Invitation → List Account → Type 0
IsSetUp hash i accounts =
    (a : Account) × (account_of i.email accounts ≡ some a)
    × (a.status ≡ AccountStatus.active)
    × (a.role ≡ i.role)
    × (a.name ≡ i.name)
    × (a.password_hash ≡ some hash)

set-found :
    (hash : Text) (i : Invitation) (accounts : List Account) {a : Account} {out : List Account}
    → account_of i.email accounts ≡ some a
    → update_row (λ (b : Account). b.admin_id) a.admin_id (set_up hash i) accounts ≡ done out
    → account_of i.email out ≡ some (set_up hash i a)
set-found hash i accounts {a} h h' =
    find-updated (λ (b : Account). b.admin_id) a.admin_id (set_up hash i) (λ (b : Account). b.email)
      (λ b. refl) i.email accounts h refl h'

accept-found :
    (hash : Text) (now : ℕ) (invitations : List Invitation) {i : Invitation} {out : List Invitation}
    → find (has_token hash) invitations ≡ some i
    → update_row (λ (j : Invitation). j.invitation_id) i.invitation_id (accept now) invitations
      ≡ done out
    → find (has_token hash) out ≡ some (accept now i)
accept-found hash now invitations {i} h h' =
    find-updated (λ (j : Invitation). j.invitation_id) i.invitation_id (accept now)
      (λ (j : Invitation). j.token_hash) (λ j. refl) hash invitations h refl h'

pub write_account-IsSetUp :
    (new_id hash : Text) (i : Invitation) (existing : Option Account) (accounts : List Account)
    {key : Text} {out : List Account}
    → account_of i.email accounts ≡ existing
    → write_account new_id hash i existing accounts ≡ done (key, out)
    → IsSetUp hash i out
unfolding write_account ◌>>=◌
write_account-IsSetUp new_id hash i none accounts {key} {out} found h =
    let e : new_account new_id hash i ∷ accounts ≡ out = ground arith in
    let hit : account_of i.email (new_account new_id hash i ∷ accounts)
        ≡ some (new_account new_id hash i) =
      rw (text_eq_refl i.email) refl in
    (
      new_account new_id hash i,
      subst (λ l. account_of i.email l ≡ some (new_account new_id hash i)) e hit,
      refl,
      refl,
      refl,
      refl,
    )
write_account-IsSetUp new_id hash i (some a) accounts {key} {out} found h =
    let (written, set, h1) =
      bind-done (update_row (λ (b : Account). b.admin_id) a.admin_id (set_up hash i) accounts) _
        h in
    let same : written ≡ out = ground (arith, h1) in
    (
      set_up hash i a,
      subst (λ l. account_of i.email l ≡ some (set_up hash i a)) same
          (set-found hash i accounts found set),
      refl,
      refl,
      refl,
      refl,
    )

pub write_setup-done :
    (now : ℕ) (new_id hash : Text) (i : Invitation) (existing : Option Account) (db : Accounts)
    {out : Accounts}
    → write_setup now new_id hash i existing db ≡ done out
    → (key : Text) × (update_row
          (λ (j : Invitation). j.invitation_id)
          i.invitation_id
          (accept now)
          db.invitations
        ≡ done out.invitations)
      × (write_account new_id hash i existing db.accounts ≡ done (key, out.accounts))
unfolding write_setup
write_setup-done now new_id hash i existing db h =
    let (invitations, accepted_now, h1) =
      bind-done
        (update_row (λ (j : Invitation). j.invitation_id) i.invitation_id (accept now)
          db.invitations)
        _ h in
    let ((key, accounts), written, h2) =
      bind-done (write_account new_id hash i existing db.accounts) _ h1 in
    (key, ground (arith, h2, accepted_now), ground (arith, h2, written))

module _ (hash_token hash_password : Text → Text) where
  -- What a set-up that succeeds has read and has written.
  pub setup-done :
      (now : ℕ) (new_id : Text) (token password : Option Text) (reads db : Accounts)
      {out : Accounts}
      → setup_password_from_invitation hash_token hash_password now new_id token password reads db
        ≡ done out
      → (i : Invitation) × (get_invitation_by_token hash_token now token reads.invitations ≡ done i)
        × (is_active_account (account_of i.email reads.accounts) ≡ false)
        × (write_setup now new_id
              (hash_password (or_else password []))
              i
              (account_of i.email reads.accounts)
              db
            ≡ done out)
  unfolding setup_password_from_invitation
  setup-done now new_id token password reads db h =
      let (_, _, h1) = bind-done (must (is_truthy token) AccountError.invalid_token) _ h in
      let (_, _, h2) = bind-done (must (is_password password) AccountError.invalid_password) _ h1 in
      let (i, read, h3) =
        bind-done (get_invitation_by_token hash_token now token reads.invitations) _ h2 in
      let (_, free, h4) =
        bind-done
          (must (not (is_active_account (account_of i.email reads.accounts)))
            AccountError.duplicate_active_admin)
          _ h3 in
      (i, read, must-not _ _ free, h4)

  accepted-refused :
      (now : ℕ) (new_id : Text) (token password : Option Text) (reads db : Accounts)
      → is_truthy token ≡ true
      → is_password password ≡ true
      → get_invitation_by_token hash_token now token reads.invitations
        ≡ failed AccountError.already_used
      → setup_password_from_invitation hash_token hash_password now new_id token password reads db
        ≡ failed AccountError.already_used
  unfolding setup_password_from_invitation ◌>>=◌
  accepted-refused now new_id token password reads db truthy fits gone =
      rw truthy (rw fits (rw gone refl))

  -- A set-up that succeeds has the token of a pending invitation that has not expired, for an address
  -- with no active account; it leaves an active account of that address, with the name and the role of
  -- the invitation and the new password; and from then on the token is refused as used, by the setup
  -- page and by a set-up with any password that fits.
  pub setup-once :
      (now : ℕ) (new_id : Text) (token password : Option Text) (db out : Accounts)
      → setup_password_from_invitation hash_token hash_password now new_id token password db db
        ≡ done out
      → (later : ℕ) (other_id : Text) (other : Option Text) (state : Accounts)
      → is_password other ≡ true
      → ((i : Invitation) × (find (has_token (hash_token (or_else token []))) db.invitations
            ≡ some i)
          × (i.status ≡ InvitationStatus.pending)
          × (now ≤ i.expires_at)
          × (is_active_account (account_of i.email db.accounts) ≡ false)
          × IsSetUp (hash_password (or_else password [])) i out.accounts)
        × (get_invitation_by_token hash_token later token out.invitations
            ≡ failed AccountError.already_used)
        × (setup_password_from_invitation hash_token hash_password later other_id token other out
              state
            ≡ failed AccountError.already_used)
  setup-once now new_id token password db out h later other_id other state fits =
      let (i, read, free, written) = setup-done now new_id token password db db h in
      let (truthy, found, waiting, fresh) = get-open hash_token now token db.invitations read in
      let hash = hash_password (or_else password []) in
      let (key, accepted_now, account) =
        write_setup-done now new_id hash i (account_of i.email db.accounts) db written in
      let gone =
        get-accepted hash_token later token out.invitations {i = accept now i} truthy
          (accept-found (hash_token (or_else token [])) now db.invitations found accepted_now)
          refl in
      (
        (
          i,
          found,
          waiting,
          fresh,
          free,
          write_account-IsSetUp new_id hash i (account_of i.email db.accounts) db.accounts refl
              account,
        ),
        gone,
        accepted-refused later other_id token other out state truthy fits gone,
      )
