-- ===== src/Accounts/Invitations.antt =====
-- services/adminInvitationService.js. The hashes, the random tokens and keys (which are new) and the
-- clock are arguments, and the mail is not modelled. A name, an address or a role that is refused
-- arrives as none, and otherwise as createInvitation cleans it.
use emlynk_wabot.Prelude.{
  ℕ, ◌+◌, ◌*◌, Bool, true, false, ◌&&◌, not, Option, none, some, List, [], ◌∷◌, Text, text_eq, any,
  find, map, keep, is_truthy, or_else, ltb, if◌then◌else◌,
}
use emlynk_wabot.Accounts.Tables.{
  Role, Account, AccountStatus, Invitation, InvitationStatus, Accounts, AccountAction, AccountEntry,
  AccountError, Answer, failed, done, ◌>>=◌, ◌>>◌, must, present, is_active, is_password,
  update_row,
}

-- INVITATION_EXPIRATION_HOURS
abbrev pub invitation_expiration_hours : ℕ
invitation_expiration_hours = 24

abbrev pub is_admin_role : Role → Bool
is_admin_role Role.admin = true
is_admin_role Role.reviewer = false
is_admin_role Role.viewer = false

abbrev pub is_pending : InvitationStatus → Bool
is_pending InvitationStatus.pending = true
is_pending InvitationStatus.accepted = false
is_pending InvitationStatus.revoked = false
is_pending InvitationStatus.expired = false

-- The first two checks of the operations of an admin.
unfoldable pub permitted : Option Account → Answer Account
permitted caller = do
  a ← present caller AccountError.unauthorized
  must (is_active a.status) AccountError.unauthorized
  must (is_admin_role a.role) AccountError.forbidden
  done a

abbrev pub account_of : Text → List Account → Option Account
account_of email accounts = find (λ (a : Account). text_eq a.email email) accounts

abbrev pub is_active_account : Option Account → Bool
is_active_account none = false
is_active_account (some a) = is_active a.status

abbrev pub revoke : ℕ → Invitation → Invitation
revoke now i = record i { status = InvitationStatus.revoked; revoked_at = some now }

abbrev pub is_pending_for : Text → Invitation → Bool
is_pending_for email i = text_eq i.email email && is_pending i.status

-- updateMany: the pending invitations of an address
unfoldable pub revoke_pending : ℕ → Text → List Invitation → List Invitation
revoke_pending now email invitations =
    map (λ (i : Invitation). if is_pending_for email i then revoke now i else i) invitations

pub record NewInvitation : Type 0 where
  pub name : Option Text
  pub email : Option Text
  pub role : Option Role

-- createInvitation
unfoldable pub create_invitation :
    (Text → Text) → ℕ → Text → Text → Option Account → NewInvitation → Accounts → Answer Accounts
create_invitation hash_token now token invitation_id caller new db = do
  by ← permitted caller
  name ← present new.name AccountError.invalid_name
  email ← present new.email AccountError.invalid_email
  role ← present new.role AccountError.invalid_role
  must (not (is_active_account (account_of email db.accounts))) AccountError.duplicate_active_admin
  let invitation : Invitation = record {
    invitation_id = invitation_id;
    email = email;
    name = name;
    role = role;
    token_hash = hash_token token;
    invited_by = by.admin_id;
    status = InvitationStatus.pending;
    expires_at = now + invitation_expiration_hours * 60 * 60 * 1000;
    accepted_at = none;
    revoked_at = none;
  }
  let entry : AccountEntry = record {
    admin_id = by.admin_id;
    action = AccountAction.invite_admin;
    new_value = email;
  }
  done (record db {
    invitations = invitation ∷ revoke_pending now email db.invitations;
    audit = entry ∷ db.audit;
  })

-- The checks of the status of an invitation.
unfoldable pub check_invitation : ℕ → Invitation → Answer (Unit {0})
check_invitation now i = elim i.status [
  | InvitationStatus.accepted ↦ failed AccountError.already_used
  | InvitationStatus.revoked ↦ failed AccountError.revoked
  | InvitationStatus.expired ↦ failed AccountError.expired
  | InvitationStatus.pending ↦ must (not (ltb i.expires_at now)) AccountError.expired
]

abbrev pub has_token : Text → Invitation → Bool
has_token hash i = text_eq i.token_hash hash

-- getInvitationByToken
unfoldable pub get_invitation_by_token :
    (Text → Text) → ℕ → Option Text → List Invitation → Answer Invitation
get_invitation_by_token hash_token now token invitations = do
  must (is_truthy token) AccountError.invalid_token
  i ←
      present (find (has_token (hash_token (or_else token []))) invitations)
        AccountError.invalid_token
  check_invitation now i
  done i

abbrev pub accept : ℕ → Invitation → Invitation
accept now i = record i { status = InvitationStatus.accepted; accepted_at = some now }

abbrev pub set_up : Text → Invitation → Account → Account
set_up hash i a = record a {
  name = i.name;
  role = i.role;
  password_hash = some hash;
  status = AccountStatus.active;
}

abbrev pub new_account : Text → Text → Invitation → Account
new_account admin_id hash i = record {
  admin_id = admin_id;
  name = i.name;
  email = i.email;
  password_hash = some hash;
  role = i.role;
  status = AccountStatus.active;
}

-- The account of an accepted invitation, with its key: the one that was read is updated, or a new one
-- is created, which throws if an account has the address.
unfoldable pub write_account :
    Text → Text → Invitation → Option Account → List Account → Answer (Text × List Account)
write_account new_id hash i (some a) accounts = do
  written ← update_row (λ (a : Account). a.admin_id) a.admin_id (set_up hash i) accounts
  done (a.admin_id, written)
write_account new_id hash i none accounts = do
  must (not (any (λ (a : Account). text_eq a.email i.email) accounts)) AccountError.internal
  done (new_id, new_account new_id hash i ∷ accounts)

-- executeUpdate of setupPasswordFromInvitation
unfoldable pub write_setup :
    ℕ → Text → Text → Invitation → Option Account → Accounts → Answer Accounts
write_setup now new_id hash i existing db = do
  invitations ←
      update_row (λ (i : Invitation). i.invitation_id) i.invitation_id (accept now) db.invitations
  written ← write_account new_id hash i existing db.accounts
  let entry : AccountEntry = record {
    admin_id = written.0;
    action = AccountAction.complete_invitation;
    new_value = i.email;
  }
  done (record db { invitations = invitations; accounts = written.1; audit = entry ∷ db.audit })

-- setupPasswordFromInvitation; `reads` is the state it sees before its transaction.
unfoldable pub setup_password_from_invitation :
    (Text → Text)
    → (Text → Text)
    → ℕ
    → Text
    → Option Text
    → Option Text
    → Accounts
    → Accounts
    → Answer Accounts
setup_password_from_invitation hash_token hash_password now new_id token password reads db = do
  must (is_truthy token) AccountError.invalid_token
  must (is_password password) AccountError.invalid_password
  i ← get_invitation_by_token hash_token now token reads.invitations
  let existing = account_of i.email reads.accounts
  must (not (is_active_account existing)) AccountError.duplicate_active_admin
  write_setup now new_id (hash_password (or_else password [])) i existing db

-- The status that listInvitations shows.
unfoldable pub computed_status : ℕ → Invitation → InvitationStatus
computed_status now i =
    if is_pending i.status && ltb i.expires_at now then InvitationStatus.expired else i.status

-- listInvitations; the order by the time of creation is that of the list, the newest first.
unfoldable pub list_invitations :
    ℕ → Option Account → Accounts → Answer (List (Invitation × InvitationStatus))
list_invitations now caller db = do
  _ ← permitted caller
  done (map (λ (i : Invitation). (i, computed_status now i)) db.invitations)

abbrev pub has_invitation_id : Text → Invitation → Bool
has_invitation_id id i = text_eq i.invitation_id id

abbrev pub check_revocable : InvitationStatus → Answer (Unit {0})
check_revocable InvitationStatus.accepted = failed AccountError.cannot_revoke_accepted
check_revocable InvitationStatus.revoked = failed AccountError.already_revoked
check_revocable InvitationStatus.pending = done tt
check_revocable InvitationStatus.expired = done tt

-- revokeInvitation
unfoldable pub revoke_invitation : ℕ → Option Account → Text → Accounts → Answer Accounts
revoke_invitation now caller id db = do
  by ← permitted caller
  i ← present (find (has_invitation_id id) db.invitations) AccountError.not_found
  check_revocable i.status
  invitations ← update_row (λ (i : Invitation). i.invitation_id) id (revoke now) db.invitations
  let entry : AccountEntry = record {
    admin_id = by.admin_id;
    action = AccountAction.revoke_invitation;
    new_value = i.email;
  }
  done (record db { invitations = invitations; audit = entry ∷ db.audit })

-- deleteInvitation
unfoldable pub delete_invitation : Option Account → Text → Accounts → Answer Accounts
delete_invitation caller id db = do
  by ← permitted caller
  i ← present (find (has_invitation_id id) db.invitations) AccountError.not_found
  let entry : AccountEntry = record {
    admin_id = by.admin_id;
    action = AccountAction.delete_invitation;
    new_value = i.email;
  }
  done (record db {
    invitations = keep (λ (j : Invitation). not (has_invitation_id id j)) db.invitations;
    audit = entry ∷ db.audit;
  })
