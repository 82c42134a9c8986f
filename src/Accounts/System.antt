-- ===== src/Accounts/System.antt =====
-- The operations of the account services as steps, in any order (services/adminInvitationService.js,
-- passwordResetService.js).
use emlynk_wabot.Prelude.{ℕ, ◌≡◌, Option, Text}
use emlynk_wabot.Accounts.Tables.{Account, Accounts, done}
use emlynk_wabot.Accounts.Invitations.{
  NewInvitation, create_invitation, setup_password_from_invitation, revoke_invitation,
  delete_invitation,
}
use emlynk_wabot.Accounts.Resets.{request_password_reset, reset_password}

module _ (hash_token hash_password : Text → Text) where
  -- One operation of the services: what a set-up or a reset has read before its transaction is any
  -- state; an invitation is created at one state.
  pub data Step : Accounts → Accounts → Type 0 where
    creates :
        {db out : Accounts} (now : ℕ) (token id : Text) (caller : Option Account)
        (new : NewInvitation)
        → create_invitation hash_token now token id caller new db ≡ done out
        → Step db out
    sets_up :
        {db out : Accounts} (now : ℕ) (new_id : Text) (token password : Option Text)
        (reads : Accounts)
        → setup_password_from_invitation hash_token hash_password now new_id token password reads db
          ≡ done out
        → Step db out
    revokes :
        {db out : Accounts} (now : ℕ) (caller : Option Account) (id : Text)
        → revoke_invitation now caller id db ≡ done out
        → Step db out
    deletes :
        {db out : Accounts} (caller : Option Account) (id : Text)
        → delete_invitation caller id db ≡ done out
        → Step db out
    requests_reset :
        {db : Accounts} (now : ℕ) (token id email : Text)
        → Step db (request_password_reset hash_token now token id email db)
    resets :
        {db out : Accounts} (now : ℕ) (token password : Option Text) (reads : Accounts)
        → reset_password hash_token hash_password now token password reads db ≡ done out
        → Step db out

  -- The states that operations reach from a first one.
  pub data Reach (first : Accounts) : Accounts → Type 0 where
    here : Reach first first
    next : {db out : Accounts} → Reach first db → Step db out → Reach first out
