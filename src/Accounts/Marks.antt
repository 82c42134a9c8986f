-- ===== src/Accounts/Marks.antt =====
-- The writes of resetPassword (services/passwordResetService.js), and the rows they leave.
use emlynk_wabot.Prelude.{
  ℕ, ◌≡◌, Bool, some, List, ◌∷◌, Text, text_eq, text_eq_iff, find, find_sound, arith, refl, sym, ap,
  ◌∙◌,
}
use emlynk_wabot.Accounts.Tables.{Account, Reset, Accounts, AccountAction, done, ◌>>=◌, update_row}
use emlynk_wabot.Accounts.Resets.{used, with_password, write_reset}
use emlynk_wabot.Accounts.Rows.{bind-done, find-updated, update_row-over}

abbrev pub has_hash : Text → Reset → Bool
has_hash hash r = text_eq r.token_hash hash

pub write_reset-done :
    (now : ℕ) (hash : Text) (row : Reset) (account : Account) (db : Accounts) {out : Accounts}
    → write_reset now hash row account db ≡ done out
    → (update_row (λ (r : Reset). r.reset_id) row.reset_id (used now) db.resets ≡ done out.resets)
      × (update_row (λ (a : Account). a.admin_id) account.admin_id (with_password hash) db.accounts
          ≡ done out.accounts)
unfolding write_reset
write_reset-done now hash row account db h =
    let (resets, marked, h1) =
      bind-done (update_row (λ (r : Reset). r.reset_id) row.reset_id (used now) db.resets) _ h in
    let (accounts, set, h2) =
      bind-done
        (update_row (λ (a : Account). a.admin_id) account.admin_id (with_password hash) db.accounts)
        _ h1 in
    (ground (arith, h2, marked), ground (arith, h2, set))

pub write_reset-allowed :
    (now : ℕ) (hash : Text) (row : Reset) (account : Account) (db : Accounts) {resets : List Reset}
    {accounts : List Account}
    → update_row (λ (r : Reset). r.reset_id) row.reset_id (used now) db.resets ≡ done resets
    → update_row (λ (a : Account). a.admin_id) account.admin_id (with_password hash) db.accounts
      ≡ done accounts
    → (out : Accounts) × (write_reset now hash row account db ≡ done out)
      × (out.accounts ≡ accounts)
unfolding write_reset ◌>>=◌
write_reset-allowed now hash row account db {resets} {accounts} h h' = (
  record db {
    resets = resets;
    accounts = accounts;
    audit =
        record {
          admin_id = account.admin_id;
          action = AccountAction.reset_password;
          new_value = account.email;
        }
        ∷ db.audit;
  },
  rw h (rw h' refl),
  refl,
)

-- The row of a token after it is marked.
pub found-used :
    (hash : Text) (now : ℕ) (resets : List Reset) {row : Reset} {out : List Reset}
    → find (has_hash hash) resets ≡ some row
    → update_row (λ (r : Reset). r.reset_id) row.reset_id (used now) resets ≡ done out
    → find (has_hash hash) out ≡ some (used now row)
found-used hash now resets {row} h h' =
    find-updated (λ (r : Reset). r.reset_id) row.reset_id (used now) (λ (r : Reset). r.token_hash)
      (λ r. refl) hash resets h refl h'

-- Two passwords for one account: the second is left.
pub password-over :
    (hash next id id' : Text) (accounts : List Account) {out later both : List Account}
    → id ≡ id'
    → update_row (λ (a : Account). a.admin_id) id (with_password hash) accounts ≡ done out
    → update_row (λ (a : Account). a.admin_id) id' (with_password next) accounts ≡ done later
    → update_row (λ (a : Account). a.admin_id) id' (with_password next) out ≡ done both
    → both ≡ later
password-over hash next id id' accounts e h h' h'' =
    update_row-over (λ (a : Account). a.admin_id) id' (with_password next) accounts
      (with_password hash) (λ a. refl) (λ a. refl) (rw e at h) h' h''

pub found-id :
    (id : Text) (accounts : List Account) {account : Account}
    → find (λ (a : Account). text_eq a.admin_id id) accounts ≡ some account
    → account.admin_id ≡ id
found-id id accounts {account} h =
    (text_eq_iff account.admin_id id).0
      (find_sound (λ (a : Account). text_eq a.admin_id id) accounts h)

-- Two searches for one token find the same row, and so the same account.
pub same-account :
    (hash : Text) (resets : List Reset) (accounts : List Account) {row row' : Reset}
    {a a' : Account}
    → find (has_hash hash) resets ≡ some row
    → find (has_hash hash) resets ≡ some row'
    → find (λ (b : Account). text_eq b.admin_id row.admin_id) accounts ≡ some a
    → find (λ (b : Account). text_eq b.admin_id row'.admin_id) accounts ≡ some a'
    → a.admin_id ≡ a'.admin_id
same-account hash resets accounts {row} {row'} h h' f f' =
    let e : row ≡ row' = cc (h, h') in
    found-id row.admin_id accounts f
    ∙ (ap (λ (r : Reset). r.admin_id) e ∙ sym (found-id row'.admin_id accounts f'))
