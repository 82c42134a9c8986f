-- ===== src/Accounts/Withdrawn.antt =====
-- An invitation that is revoked while it is accepted (services/adminInvitationService.js).
use emlynk_wabot.Prelude.{
  ℕ, ◌≡◌, Option, some, List, [], ◌∷◌, Text, find, or_else, arith, refl, ◌∙◌,
}
use emlynk_wabot.Accounts.Tables.{
  Account, Invitation, Accounts, AccountAction, AccountError, done, ◌>>=◌, present, update_row,
}
use emlynk_wabot.Accounts.Invitations.{
  has_token, accept, account_of, get_invitation_by_token, write_account, write_setup,
  setup_password_from_invitation, permitted, has_invitation_id, check_revocable, revoke,
  revoke_invitation,
}
use emlynk_wabot.Accounts.Rows.{bind-done, update_row-again}
use emlynk_wabot.Accounts.Accepted.{
  IsSetUp, get-open, setup-done, write_setup-done, write_account-IsSetUp,
}

write_setup-allowed :
    (now : ℕ) (new_id hash : Text) (i : Invitation) (existing : Option Account) (db : Accounts)
    {invitations : List Invitation} {key : Text} {accounts : List Account}
    → update_row (λ (j : Invitation). j.invitation_id) i.invitation_id (accept now) db.invitations
      ≡ done invitations
    → write_account new_id hash i existing db.accounts ≡ done (key, accounts)
    → (out : Accounts) × (write_setup now new_id hash i existing db ≡ done out)
      × (out.accounts ≡ accounts)
unfolding write_setup ◌>>=◌
write_setup-allowed now new_id hash i existing db {invitations} {key} {accounts} h h' = (
  record db {
    invitations = invitations;
    accounts = accounts;
    audit =
        record { admin_id = key; action = AccountAction.complete_invitation; new_value = i.email }
        ∷ db.audit;
  },
  rw h (rw h' refl),
  refl,
)

pub revoke_invitation-done :
    (now : ℕ) (caller : Option Account) (id : Text) (db : Accounts) {out : Accounts}
    → revoke_invitation now caller id db ≡ done out
    → (update_row (λ (j : Invitation). j.invitation_id) id (revoke now) db.invitations
        ≡ done out.invitations)
      × (out.accounts ≡ db.accounts)
unfolding revoke_invitation
revoke_invitation-done now caller id db h =
    let (by, allowed, h1) = bind-done (permitted caller) _ h in
    let (i, found, h2) =
      bind-done (present (find (has_invitation_id id) db.invitations) AccountError.not_found) _
        h1 in
    let (_, open_still, h3) = bind-done (check_revocable i.status) _ h2 in
    let (invitations, written, h4) =
      bind-done (update_row (λ (j : Invitation). j.invitation_id) id (revoke now) db.invitations) _
        h3 in
    (ground (arith, h4, written), ground (arith, h4))

module _ (hash_token hash_password : Text → Text) where
  setup-allowed :
      (now : ℕ) (new_id : Text) (token password : Option Text) (reads db state : Accounts)
      {alone : Accounts} {i : Invitation}
      → setup_password_from_invitation hash_token hash_password now new_id token password reads db
        ≡ done alone
      → get_invitation_by_token hash_token now token reads.invitations ≡ done i
      → setup_password_from_invitation hash_token hash_password now new_id token password reads
          state
        ≡ write_setup now new_id
            (hash_password (or_else password []))
            i
            (account_of i.email reads.accounts)
            state
  unfolding setup_password_from_invitation ◌>>=◌
  setup-allowed now new_id token password reads db state h read = ground (arith, h, read)

  -- An invitation that an admin revokes after a set-up has read it and before the set-up writes is
  -- accepted all the same: the account is active, with the role of the revoked invitation.
  pub revoked-accepted :
      (now : ℕ) (new_id : Text) (token password : Option Text) (db alone : Accounts)
      → setup_password_from_invitation hash_token hash_password now new_id token password db db
        ≡ done alone
      → (at : ℕ) (caller : Option Account) (id : Text) (withdrawn : Accounts)
      → revoke_invitation at caller id db ≡ done withdrawn
      → (i : Invitation) × (out : Accounts) × (find
            (has_token (hash_token (or_else token [])))
            db.invitations
          ≡ some i)
        × (setup_password_from_invitation hash_token hash_password now new_id token password db
              withdrawn
            ≡ done out)
        × IsSetUp (hash_password (or_else password [])) i out.accounts
  revoked-accepted now new_id token password db alone h at caller id withdrawn h' =
      let (i, read, free, written) =
        setup-done hash_token hash_password now new_id token password db db h in
      let (truthy, found, waiting, fresh) = get-open hash_token now token db.invitations read in
      let hash = hash_password (or_else password []) in
      let existing = account_of i.email db.accounts in
      let (key, accepted_now, account) = write_setup-done now new_id hash i existing db written in
      let (rows, same) = revoke_invitation-done at caller id db h' in
      let (_, again) =
        update_row-again (λ (j : Invitation). j.invitation_id) i.invitation_id (accept now)
          db.invitations id (revoke at) (λ j. refl) rows accepted_now in
      let (out, done_again, e) =
        write_setup-allowed now new_id hash i existing withdrawn {key = key}
          {accounts = alone.accounts} again (rw same account) in
      (
        i,
        out,
        found,
        setup-allowed now new_id token password db db withdrawn h read ∙ done_again,
        rw e (write_account-IsSetUp new_id hash i existing db.accounts refl account),
      )
