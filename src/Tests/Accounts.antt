-- ===== src/Tests/Accounts.antt =====
-- Password resets and invitations on small tables, with the tokens and passwords as their own hashes.
use emlynk_wabot.Prelude.{
  ◌≤◌, find, or_else, ◌≡◌, refl, ◌≤◌, false, none, some, Option, [], ◌∷◌, Text, codes, text_eq,
  find, arith,
}
use emlynk_wabot.Accounts.Tables.{
  Role, Account, AccountStatus, Reset, Invitation, InvitationStatus, Accounts, AccountError, failed,
  done, ◌>>=◌, update_row, changed,
}
use emlynk_wabot.Accounts.Resets.{
  usable_reset, validate_reset_token, with_password, write_reset, reset_password,
}
use emlynk_wabot.Accounts.Invitations.{
  permitted, revoke_pending, NewInvitation, create_invitation, check_invitation, has_token,
  get_invitation_by_token, account_of, is_active_account, write_account, write_setup,
  setup_password_from_invitation, computed_status, list_invitations, revoke_invitation,
  delete_invitation,
}
use emlynk_wabot.Accounts.Once.{reset-once, reset-raced}
use emlynk_wabot.Accounts.Accepted.{IsSetUp, setup-once}
use emlynk_wabot.Accounts.Withdrawn.{revoked-accepted}
use emlynk_wabot.Accounts.System.{creates, here, next}
use emlynk_wabot.Accounts.Pending.{IsOnePending, Reach-IsOnePending}

abbrev plain : Text → Text
plain t = t

abbrev chief : Account
chief = record {
  admin_id = 1 ∷ [];
  name = 65 ∷ [];
  email = 97 ∷ [];
  password_hash = some (1 ∷ []);
  role = Role.admin;
  status = AccountStatus.active;
}

abbrev token : Text
token = 7 ∷ []

abbrev waiting_reset : Reset
waiting_reset = record {
  reset_id = 3 ∷ [];
  admin_id = 1 ∷ [];
  token_hash = token;
  expires_at = 100;
  used_at = none;
}

abbrev waiting_invitation : Invitation
waiting_invitation = record {
  invitation_id = 4 ∷ [];
  email = 98 ∷ [];
  name = 66 ∷ [];
  role = Role.reviewer;
  token_hash = token;
  invited_by = 1 ∷ [];
  status = InvitationStatus.pending;
  expires_at = 100;
  accepted_at = none;
  revoked_at = none;
}

abbrev tables : Accounts
tables = record {
  accounts = chief ∷ [];
  resets = waiting_reset ∷ [];
  invitations = waiting_invitation ∷ [];
  audit = [];
}

abbrev first_password : Option Text
first_password = some (codes "password")

abbrev second_password : Option Text
second_password = some (codes "drowssap")

first_reset :
    (out : Accounts) × (reset_password plain plain 50 (some token) first_password tables tables
      ≡ done out)
unfolding reset_password usable_reset write_reset update_row changed ◌>>=◌ text_eq
first_reset = (_, refl)

second_reset :
    (out : Accounts) × (reset_password plain plain 60 (some token) second_password tables tables
      ≡ done out)
unfolding reset_password usable_reset write_reset update_row changed ◌>>=◌ text_eq
second_reset = (_, refl)

reset-once_example :
    ((row : Reset) × (find
          (λ (r : Reset). text_eq r.token_hash (plain (or_else (some token) [])))
          tables.resets
        ≡ some row)
      × (row.used_at ≡ none)
      × (50 ≤ row.expires_at)
      × (first_reset.0.accounts
          ≡ changed
              (λ (a : Account). a.admin_id)
              row.admin_id
              (with_password (codes "password"))
              tables.accounts))
    × (validate_reset_token plain 60 (some token) first_reset.0 ≡ failed AccountError.already_used)
    × (reset_password plain plain 60 (some token) second_password first_reset.0 first_reset.0
        ≡ failed AccountError.already_used)
reset-once_example =
    reset-once plain plain 50 (some token) first_password tables first_reset.0 first_reset.1 60
      second_password first_reset.0 refl

reset-raced_example :
    (both : Accounts) × (reset_password plain plain 60
        (some token)
        second_password
        tables
        first_reset.0
      ≡ done both)
    × (both.accounts ≡ second_reset.0.accounts)
reset-raced_example =
    reset-raced plain plain 50 60 (some token) first_password second_password tables first_reset.0
      second_reset.0 first_reset.1 second_reset.1

first_setup :
    (out : Accounts) × (setup_password_from_invitation plain plain 50
        (2 ∷ [])
        (some token)
        first_password
        tables
        tables
      ≡ done out)
unfolding setup_password_from_invitation get_invitation_by_token check_invitation write_setup
    write_account update_row changed ◌>>=◌ text_eq
first_setup = (_, refl)

setup-once_example :
    ((i : Invitation) × (find (has_token token) tables.invitations ≡ some i)
      × (i.status ≡ InvitationStatus.pending)
      × (50 ≤ i.expires_at)
      × (is_active_account (account_of i.email tables.accounts) ≡ false)
      × IsSetUp (codes "password") i first_setup.0.accounts)
    × (get_invitation_by_token plain 60 (some token) first_setup.0.invitations
        ≡ failed AccountError.already_used)
    × (setup_password_from_invitation plain plain 60
          (5 ∷ [])
          (some token)
          second_password
          first_setup.0
          first_setup.0
        ≡ failed AccountError.already_used)
setup-once_example =
    setup-once plain plain 50 (2 ∷ []) (some token) first_password tables first_setup.0
      first_setup.1 60 (5 ∷ []) second_password first_setup.0 refl

withdrawal : (out : Accounts) × (revoke_invitation 49 (some chief) (4 ∷ []) tables ≡ done out)
unfolding revoke_invitation permitted update_row changed ◌>>=◌ text_eq
withdrawal = (_, refl)

revoked-accepted_example :
    (i : Invitation) × (out : Accounts) × (find (has_token token) tables.invitations ≡ some i)
    × (setup_password_from_invitation plain plain 50
          (2 ∷ [])
          (some token)
          first_password
          tables
          withdrawal.0
        ≡ done out)
    × IsSetUp (codes "password") i out.accounts
revoked-accepted_example =
    revoked-accepted plain plain 50 (2 ∷ []) (some token) first_password tables first_setup.0
      first_setup.1 49 (some chief) (4 ∷ []) withdrawal.0 withdrawal.1

abbrev no_rows : Accounts
no_rows = record { accounts = chief ∷ []; resets = []; invitations = []; audit = [] }

abbrev invite : NewInvitation
invite = record { name = some (66 ∷ []); email = some (98 ∷ []); role = some Role.viewer }

invited_once :
    (out : Accounts) × (create_invitation plain 50 token (4 ∷ []) (some chief) invite no_rows
      ≡ done out)
unfolding create_invitation permitted revoke_pending ◌>>=◌ text_eq
invited_once = (_, refl)

invited_twice :
    (out : Accounts) × (create_invitation plain 51
        (8 ∷ [])
        (5 ∷ [])
        (some chief)
        invite
        invited_once.0
      ≡ done out)
unfolding create_invitation permitted revoke_pending ◌>>=◌ text_eq invited_once
invited_twice = (_, refl)

no_rows-IsOnePending : IsOnePending no_rows
no_rows-IsOnePending email = omega arith

Reach-IsOnePending_example : IsOnePending invited_twice.0
Reach-IsOnePending_example =
    Reach-IsOnePending plain plain no_rows invited_twice.0
      (next (next here (creates 50 token (4 ∷ []) (some chief) invite invited_once.1))
        (creates 51 (8 ∷ []) (5 ∷ []) (some chief) invite invited_twice.1))
      no_rows-IsOnePending

-- Expired, revoked and absent tokens, and a caller who may not invite.
expired_token :
    reset_password plain plain 101 (some token) first_password tables tables
    ≡ failed AccountError.expired
unfolding reset_password usable_reset ◌>>=◌ text_eq
expired_token = refl

withdrawn_token :
    get_invitation_by_token plain 50 (some token) withdrawal.0.invitations
    ≡ failed AccountError.revoked
unfolding get_invitation_by_token check_invitation ◌>>=◌ text_eq withdrawal
withdrawn_token = refl

reviewer_invites :
    create_invitation plain 50 token
      (4 ∷ [])
      (some (record chief { role = Role.reviewer }))
      invite
      no_rows
    ≡ failed AccountError.forbidden
unfolding create_invitation permitted ◌>>=◌
reviewer_invites = refl

deleted_gone : delete_invitation (some chief) (9 ∷ []) tables ≡ failed AccountError.not_found
unfolding delete_invitation permitted ◌>>=◌ text_eq
deleted_gone = refl

listed_expired :
    list_invitations 101 (some chief) tables
    ≡ done ((waiting_invitation, InvitationStatus.expired) ∷ [])
unfolding list_invitations permitted computed_status ◌>>=◌
listed_expired = refl
