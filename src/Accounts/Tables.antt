-- ===== src/Accounts/Tables.antt =====
-- The tables of the accounts (prisma/schema.prisma: admins, admin_password_resets, admin_invitations and
-- the audit entries about accounts), and what the services check of a request.
use emlynk_wabot.Prelude.{
  ℕ, Bool, true, false, ◌&&◌, not, Option, none, some, List, [], Text, text_eq, any, map, length,
  ltb, is_truthy, or_else, if◌then◌else◌,
}

-- ADMIN_ROLES
pub data Role : Type 0 where
  admin reviewer viewer : Role

-- `active` is ACTIVE_ADMIN_STATUS.
pub data AccountStatus : Type 0 where
  active : AccountStatus
  other : Text → AccountStatus

pub record Account : Type 0 where
  pub admin_id : Text
  pub name : Text
  pub email : Text
  pub password_hash : Option Text
  pub role : Role
  pub status : AccountStatus

pub record Reset : Type 0 where
  pub reset_id : Text
  pub admin_id : Text
  pub token_hash : Text
  pub expires_at : ℕ
  pub used_at : Option ℕ

-- INVITATION_STATUS
pub data InvitationStatus : Type 0 where
  pending accepted revoked expired : InvitationStatus

pub record Invitation : Type 0 where
  pub invitation_id : Text
  pub email : Text
  pub name : Text
  pub role : Role
  pub token_hash : Text
  pub invited_by : Text
  pub status : InvitationStatus
  pub expires_at : ℕ
  pub accepted_at : Option ℕ
  pub revoked_at : Option ℕ

pub data AccountAction : Type 0 where
  reset_password invite_admin complete_invitation revoke_invitation delete_invitation :
      AccountAction

-- An audit entry: who, what, and the e-mail address it is about.
pub record AccountEntry : Type 0 where
  pub admin_id : Text
  pub action : AccountAction
  pub new_value : Text

pub record Accounts : Type 0 where
  pub accounts : List Account
  pub resets : List Reset
  pub invitations : List Invitation
  pub audit : List AccountEntry

-- The codes of PasswordResetError and InvitationError; `internal` is an error of the database.
pub data AccountError : Type 0 where
  invalid_email invalid_token already_used expired invalid_password admin_not_found : AccountError
  unauthorized forbidden invalid_name invalid_role duplicate_active_admin revoked : AccountError
  invalid_status not_found cannot_revoke_accepted already_revoked internal : AccountError

pub data Answer {ℓ} (A : Type ℓ) : Type ℓ where
  failed : AccountError → Answer A
  done : A → Answer A

infixl 5 ◌>>=◌ ◌>>◌
unfoldable pub ◌>>=◌ {ℓ κ} : {A : Type ℓ} {R : Type κ} → Answer A → (A → Answer R) → Answer R
step >>= next = elim step [ failed e ↦ failed e | done a ↦ next a ]

abbrev pub ◌>>◌ {κ} : {R : Type κ} → Answer (Unit {0}) → Answer R → Answer R
check >> rest = check >>= λ _. rest

abbrev pub must : Bool → AccountError → Answer (Unit {0})
must holds e = elim holds [ false ↦ failed e | true ↦ done tt ]

abbrev pub present {ℓ} : {A : Type ℓ} → Option A → AccountError → Answer A
present none e = failed e
present (some a) e = done a

abbrev pub is_active : AccountStatus → Bool
is_active AccountStatus.active = true
is_active (AccountStatus.other s) = false

-- MIN_PASSWORD_LENGTH and MAX_PASSWORD_LENGTH
abbrev pub min_password_length : ℕ
min_password_length = 8

abbrev pub max_password_length : ℕ
max_password_length = 128

abbrev pub is_password : Option Text → Bool
is_password password =
    is_truthy password
    && not (ltb (length (or_else password [])) min_password_length)
    && not (ltb max_password_length (length (or_else password [])))

-- The rows, with a change to those that have the key.
unfoldable pub changed {ℓ} : {A : Type ℓ} → (A → Text) → Text → (A → A) → List A → List A
changed key id change rows = map (λ r. if text_eq (key r) id then change r else r) rows

-- An update by a unique key, which throws if no row has it.
unfoldable pub update_row {ℓ} :
    {A : Type ℓ} → (A → Text) → Text → (A → A) → List A → Answer (List A)
update_row key id change rows =
    if any (λ r. text_eq (key r) id) rows
    then done (changed key id change rows)
    else failed AccountError.internal
