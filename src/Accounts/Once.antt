-- ===== src/Accounts/Once.antt =====
-- A token of services/passwordResetService.js is used once, by requests one after another and by
-- requests at the same time.
use emlynk_wabot.Prelude.{
  ℕ, ◌≡◌, ◌≤◌, true, none, Option, some, List, [], Text, text_eq, find, map, is_truthy, or_else,
  arith, refl, subst, ◌∙◌,
}
use emlynk_wabot.Accounts.Tables.{
  Account, Reset, Accounts, AccountError, failed, done, ◌>>=◌, must, present, is_password, changed,
}
use emlynk_wabot.Accounts.Resets.{
  used, usable_reset, validate_reset_token, with_password, write_reset, reset_password,
}
use emlynk_wabot.Accounts.Marks.{
  has_hash, write_reset-done, write_reset-allowed, found-used, password-over, found-id,
  same-account,
}
use emlynk_wabot.Accounts.Rows.{
  bind-done, must-holds, present-some, one, update_row-done, update_row-again,
}

module _ (hash_token : Text → Text) where
  usable_reset-found :
      (now : ℕ) (token : Option Text) (resets : List Reset) {row : Reset}
      → usable_reset hash_token now token resets ≡ done row
      → find (has_hash (hash_token (or_else token []))) resets ≡ some row
  unfolding usable_reset ◌>>=◌
  usable_reset-found now token resets h = ground arith

  usable_reset-truthy :
      (now : ℕ) (token : Option Text) (resets : List Reset) {row : Reset}
      → usable_reset hash_token now token resets ≡ done row
      → is_truthy token ≡ true
  unfolding usable_reset ◌>>=◌
  usable_reset-truthy now token resets h = ground arith

  usable_reset-used :
      (now at : ℕ) (token : Option Text) (resets : List Reset) {row : Reset}
      → is_truthy token ≡ true
      → find (has_hash (hash_token (or_else token []))) resets ≡ some row
      → row.used_at ≡ some at
      → usable_reset hash_token now token resets ≡ failed AccountError.already_used
  unfolding usable_reset ◌>>=◌
  usable_reset-used now at token resets truthy found gone = ground arith

  -- The row of a usable token is unused and has not expired.
  usable_reset-fresh :
      (now : ℕ) (token : Option Text) (resets : List Reset) {row : Reset}
      → usable_reset hash_token now token resets ≡ done row
      → (row.used_at ≡ none) × (now ≤ row.expires_at)
  unfolding usable_reset ◌>>=◌
  usable_reset-fresh now token resets h = (ground arith, ground arith)

  module _ (hash_password : Text → Text) where
    -- What a reset that succeeds has read and has written.
    pub reset_password-done :
        (now : ℕ) (token password : Option Text) (reads db : Accounts) {out : Accounts}
        → reset_password hash_token hash_password now token password reads db ≡ done out
        → (row : Reset) × (account : Account) × (usable_reset hash_token now token reads.resets
            ≡ done row)
          × (find (λ (a : Account). text_eq a.admin_id row.admin_id) reads.accounts ≡ some account)
          × (write_reset now (hash_password (or_else password [])) row account db ≡ done out)
          × (is_password password ≡ true)
    unfolding reset_password
    reset_password-done now token password reads db h =
        let (_, _, h1) = bind-done (must (is_truthy token) AccountError.invalid_token) _ h in
        let (_, fits, h2) =
          bind-done (must (is_password password) AccountError.invalid_password) _ h1 in
        let (row, usable, h3) = bind-done (usable_reset hash_token now token reads.resets) _ h2 in
        let (account, found, written) =
          bind-done
            (present (find (λ (a : Account). text_eq a.admin_id row.admin_id) reads.accounts)
              AccountError.admin_not_found)
            _ h3 in
        (row, account, usable, present-some _ _ found, written, must-holds _ _ fits)

    -- The same request for another read of the tables, which allows it.
    reset_password-allowed :
        (now : ℕ) (token password : Option Text) (reads db : Accounts) {row : Reset}
        {account : Account}
        → is_password password ≡ true
        → usable_reset hash_token now token reads.resets ≡ done row
        → find (λ (a : Account). text_eq a.admin_id row.admin_id) reads.accounts ≡ some account
        → reset_password hash_token hash_password now token password reads db
          ≡ write_reset now (hash_password (or_else password [])) row account db
    unfolding reset_password ◌>>=◌
    reset_password-allowed now token password reads db fits usable found =
        let truthy = usable_reset-truthy now token reads.resets usable in
        rw truthy (rw fits (rw usable (rw found refl)))

    used-refused :
        (now : ℕ) (token password : Option Text) (reads db : Accounts)
        → is_truthy token ≡ true
        → is_password password ≡ true
        → usable_reset hash_token now token reads.resets ≡ failed AccountError.already_used
        → (validate_reset_token hash_token now token reads ≡ failed AccountError.already_used)
          × (reset_password hash_token hash_password now token password reads db
              ≡ failed AccountError.already_used)
    unfolding validate_reset_token reset_password ◌>>=◌
    used-refused now token password reads db truthy fits gone =
        (rw gone refl, rw truthy (rw fits (rw gone refl)))

    -- A reset that succeeds has found the row of its token, which has no time of use and an expiry that
    -- is not past; it sets the password of that row's account, and leaves every other field and account
    -- as it is; and from then on the token is refused as used, by the check and by a reset with any
    -- password that fits.
    pub reset-once :
        (now : ℕ) (token password : Option Text) (db out : Accounts)
        → reset_password hash_token hash_password now token password db db ≡ done out
        → (later : ℕ) (other : Option Text) (state : Accounts) → is_password other ≡ true
        → ((row : Reset) × (find
                (λ (r : Reset). text_eq r.token_hash (hash_token (or_else token [])))
                db.resets
              ≡ some row)
            × (row.used_at ≡ none)
            × (now ≤ row.expires_at)
            × (out.accounts
                ≡ changed
                    (λ (a : Account). a.admin_id)
                    row.admin_id
                    (with_password (hash_password (or_else password [])))
                    db.accounts))
          × (validate_reset_token hash_token later token out ≡ failed AccountError.already_used)
          × (reset_password hash_token hash_password later token other out state
              ≡ failed AccountError.already_used)
    unfolding changed
    reset-once now token password db out h later other state fits =
        let hash = hash_password (or_else password []) in
        let (row, account, usable, found, written, _) =
          reset_password-done now token password db db h in
        let (resets, accounts) = write_reset-done now hash row account db written in
        let same_id = found-id row.admin_id db.accounts found in
        let marked =
          found-used (hash_token (or_else token [])) now db.resets
            (usable_reset-found now token db.resets usable) resets in
        let gone =
          usable_reset-used later now token out.resets {row = used now row}
            (usable_reset-truthy now token db.resets usable) marked refl in
        let refused =
          used-refused later token other out state (usable_reset-truthy now token db.resets usable)
            fits gone in
        (
          (
            row,
            usable_reset-found now token db.resets usable,
            (usable_reset-fresh now token db.resets usable).0,
            (usable_reset-fresh now token db.resets usable).1,
            subst
                (λ i.
                  out.accounts
                  ≡ map (one (λ (a : Account). a.admin_id) i (with_password hash)) db.accounts)
                same_id
                (update_row-done (λ (a : Account). a.admin_id) account.admin_id (with_password hash)
                  db.accounts accounts),
          ),
          refused.0,
          refused.1,
        )

    -- Two resets at the same time, each of which would succeed alone: both read the tables before
    -- either writes. Both succeed, although a token is for one use; and the account is left with the
    -- second password.
    pub reset-raced :
        (now later : ℕ) (token password other : Option Text) (db first alone : Accounts)
        → reset_password hash_token hash_password now token password db db ≡ done first
        → reset_password hash_token hash_password later token other db db ≡ done alone
        → (both : Accounts) × (reset_password hash_token hash_password later token other db first
            ≡ done both)
          × (both.accounts ≡ alone.accounts)
    reset-raced now later token password other db first alone h h' =
        let hash = hash_password (or_else password []) in
        let next = hash_password (or_else other []) in
        let (row, account, usable, found, written, _) =
          reset_password-done now token password db db h in
        let (row', account', usable', found', written', fits) =
          reset_password-done later token other db db h' in
        let (resets, accounts) = write_reset-done now hash row account db written in
        let (resets', accounts') = write_reset-done later next row' account' db written' in
        let id : Reset → Text = λ r. r.reset_id in
        let admin_id : Account → Text = λ a. a.admin_id in
        let (_, used_again) =
          update_row-again id row'.reset_id (used later) db.resets row.reset_id (used now)
            (λ r. refl) resets resets' in
        let (_, set_again) =
          update_row-again admin_id account'.admin_id (with_password next) db.accounts
            account.admin_id (with_password hash) (λ a. refl) accounts accounts' in
        let (both, second, e) =
          write_reset-allowed later next row' account' first used_again set_again in
        (
          both,
          reset_password-allowed later token other db first fits usable' found' ∙ second,
          e
              ∙ password-over hash next account.admin_id account'.admin_id db.accounts
                  (same-account (hash_token (or_else token [])) db.resets db.accounts
                    (usable_reset-found now token db.resets usable)
                    (usable_reset-found later token db.resets usable') found found')
                  accounts accounts' set_again,
        )
