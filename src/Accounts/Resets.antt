-- ===== src/Accounts/Resets.antt =====
-- services/passwordResetService.js. The hashes of tokens and passwords, the random token and the clock
-- are arguments; the mail is not modelled. `reads` is the state that resetPassword sees before its
-- transaction.
use emlynk_wabot.Prelude.{
  ℕ, ◌+◌, ◌*◌, ◌&&◌, not, Option, none, some, List, [], ◌∷◌, Text, text_eq, find, map, is_some,
  is_truthy, or_else, ltb, if◌then◌else◌,
}
use emlynk_wabot.Accounts.Tables.{
  Account, Reset, Accounts, AccountAction, AccountEntry, AccountError, Answer, done, ◌>>=◌, ◌>>◌,
  must, present, is_active, is_password, update_row,
}

-- RESET_TOKEN_EXPIRATION_MS
abbrev pub reset_token_expiration_ms : ℕ
reset_token_expiration_ms = 60 * 60 * 1000

abbrev pub used : ℕ → Reset → Reset
used now r = record r { used_at = some now }

-- updateMany: the unused resets of the account
unfoldable pub invalidate : ℕ → Text → List Reset → List Reset
invalidate now admin_id resets =
    map
      (λ (r : Reset).
        if text_eq r.admin_id admin_id && not (is_some r.used_at) then used now r else r)
      resets

-- requestPasswordReset, for an address whose form is valid, in lower case. `token` is the new token
-- and `reset_id` the random key; the answer is the same for every address.
unfoldable pub request_password_reset : (Text → Text) → ℕ → Text → Text → Text → Accounts → Accounts
request_password_reset hash_token now token reset_id email db =
    elim (find (λ (a : Account). text_eq a.email email && is_active a.status) db.accounts) [
      | none ↦ db
      | some a ↦ record db {
        resets =
            record {
              reset_id = reset_id;
              admin_id = a.admin_id;
              token_hash = hash_token token;
              expires_at = now + reset_token_expiration_ms;
              used_at = none;
            }
            ∷ invalidate now a.admin_id db.resets;
      }
    ]

-- The checks of a token: the row, unless it is used or expired.
unfoldable pub usable_reset : (Text → Text) → ℕ → Option Text → List Reset → Answer Reset
usable_reset hash_token now token resets = do
  must (is_truthy token) AccountError.invalid_token
  row ←
      present (find (λ (r : Reset). text_eq r.token_hash (hash_token (or_else token []))) resets)
        AccountError.invalid_token
  must (not (is_some row.used_at)) AccountError.already_used
  must (not (ltb row.expires_at now)) AccountError.expired
  done row

-- validateResetToken
unfoldable pub validate_reset_token : (Text → Text) → ℕ → Option Text → Accounts → Answer (Unit {0})
validate_reset_token hash_token now token db = do
  _ ← usable_reset hash_token now token db.resets
  done tt

abbrev pub with_password : Text → Account → Account
with_password hash a = record a { password_hash = some hash }

-- executeUpdate of resetPassword
unfoldable pub write_reset : ℕ → Text → Reset → Account → Accounts → Answer Accounts
write_reset now hash row account db = do
  resets ← update_row (λ (r : Reset). r.reset_id) row.reset_id (used now) db.resets
  accounts ←
      update_row (λ (a : Account). a.admin_id) account.admin_id (with_password hash) db.accounts
  let entry : AccountEntry = record {
    admin_id = account.admin_id;
    action = AccountAction.reset_password;
    new_value = account.email;
  }
  done (record db { resets = resets; accounts = accounts; audit = entry ∷ db.audit })

-- resetPassword
unfoldable pub reset_password :
    (Text → Text)
    → (Text → Text)
    → ℕ
    → Option Text
    → Option Text
    → Accounts
    → Accounts
    → Answer Accounts
reset_password hash_token hash_password now token password reads db = do
  must (is_truthy token) AccountError.invalid_token
  must (is_password password) AccountError.invalid_password
  row ← usable_reset hash_token now token reads.resets
  account ←
      present (find (λ (a : Account). text_eq a.admin_id row.admin_id) reads.accounts)
        AccountError.admin_not_found
  write_reset now (hash_password (or_else password [])) row account db
