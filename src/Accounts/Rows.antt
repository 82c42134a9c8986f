-- ===== src/Accounts/Rows.antt =====
-- Rows that are found by one column and changed by another (the updates of the account services).
use emlynk_wabot.Prelude.{
  ◌≡◌, inl, inr, Bool, true, false, not, Option, none, some, List, [], ◌∷◌, Text, text_eq,
  text_eq_refl, any, find, map, arith, refl, ap, ◌∙◌, if◌then◌else◌, Bool-cases,
}
use emlynk_wabot.Accounts.Tables.{
  AccountError, Answer, failed, done, ◌>>=◌, must, present, changed, update_row,
}

-- A chain that succeeds has succeeded in its first part.
pub bind-done {ℓ κ} :
    {A : Type ℓ} {R : Type κ} (r : Answer A) (rest : A → Answer R) {b : R}
    → (r >>= rest) ≡ done b
    → (a : A) × (r ≡ done a) × (rest a ≡ done b)
unfolding ◌>>=◌
bind-done (done a) rest h = (a, refl, h)
bind-done (failed e) rest h = absurd (cc h)

pub must-holds : (b : Bool) (e : AccountError) {u : Unit {0}} → must b e ≡ done u → b ≡ true
must-holds b e h = ground arith

pub must-not : (b : Bool) (e : AccountError) {u : Unit {0}} → must (not b) e ≡ done u → b ≡ false
must-not b e h = ground arith

pub present-some {ℓ} :
    {A : Type ℓ} (o : Option A) (e : AccountError) {a : A} → present o e ≡ done a → o ≡ some a
present-some none e h = absurd (cc h)
present-some (some a) e h = cc h

module _ {ℓ} {A : Type ℓ} where
  -- A change that keeps what is looked for keeps the place of the row that is found.
  pub find-map :
      (q : A → Bool) (f : A → A)
      → ((a : A) → q (f a) ≡ q a)
      → (rows : List A) {a : A} → find q rows ≡ some a
      → find q (map f rows) ≡ some (f a)
  find-map q f same [] h = absurd (cc h)
  find-map q f same (b ∷ rest) {a} h = elim (Bool-cases (q b)) [
    | inl hit ↦ rw (same b) (ground (arith, hit))
    | inr miss ↦
        let later = find-map q f same rest {a = a} (rw miss at h) in rw (same b) (rw miss later)
  ]

  pub any-map :
      (q : A → Bool) (f : A → A)
      → ((a : A) → q (f a) ≡ q a)
      → (rows : List A) → any q (map f rows) ≡ any q rows
  any-map q f same [] = refl
  any-map q f same (b ∷ rest) = rw (same b) (rw (any-map q f same rest) refl)

module _ {ℓ} {A : Type ℓ} (key : A → Text) (id : Text) (change : A → A) where
  -- What a change does to one row.
  abbrev pub one : A → A
  one r = if text_eq (key r) id then change r else r

  pub one-hit : (a : A) → key a ≡ id → one a ≡ change a
  one-hit a e = rw e (rw (text_eq_refl id) refl)

  -- A column that the change keeps.
  pub one-keeps {κ} :
      {C : Type κ} (g : A → C) → ((a : A) → g (change a) ≡ g a) → (a : A) → g (one a) ≡ g a
  one-keeps g same a = elim (Bool-cases (text_eq (key a) id)) [
    | inl hit ↦ rw hit (same a)
    | inr miss ↦ rw miss refl
  ]

  pub update_row-done :
      (rows : List A) {out : List A} → update_row key id change rows ≡ done out → out ≡ map one rows
  unfolding update_row changed
  update_row-done rows h = ground arith

  -- A row that is found by a column that the change keeps is still found, changed.
  pub find-updated :
      (look : A → Text)
      → ((a : A) → look (change a) ≡ look a)
      → (value : Text) (rows : List A) {a : A} {out : List A}
      → find (λ r. text_eq (look r) value) rows ≡ some a
      → key a ≡ id
      → update_row key id change rows ≡ done out
      → find (λ r. text_eq (look r) value) out ≡ some (change a)
  find-updated look same value rows {a} h e h' =
      let still =
        find-map (λ r. text_eq (look r) value) one
          (λ r. ap (λ k. text_eq k value) (one-keeps look same r)) rows h in
      cc (update_row-done rows h', still, one-hit a e)

  -- The rows after an update have the same keys.
  pub update_row-keys :
      (rows : List A) {out : List A}
      → ((a : A) → key (change a) ≡ key a)
      → update_row key id change rows ≡ done out
      → (other : Text)
      → any (λ r. text_eq (key r) other) out ≡ any (λ r. text_eq (key r) other) rows
  update_row-keys rows {out} same h other = rw (update_row-done rows h) (
      any-map (λ r. text_eq (key r) other) one
        (λ a. ap (λ k. text_eq k other) (one-keeps key same a)) rows)

module _ {ℓ} {A : Type ℓ} (key : A → Text) (id : Text) (change : A → A) where
  update_row-found :
      (rows : List A) {out : List A}
      → update_row key id change rows ≡ done out
      → any (λ r. text_eq (key r) id) rows ≡ true
  unfolding update_row
  update_row-found rows h = ground arith

  update_row-some :
      (rows : List A)
      → any (λ r. text_eq (key r) id) rows ≡ true
      → (out : List A) × (update_row key id change rows ≡ done out)
  unfolding update_row
  update_row-some rows h = (changed key id change rows, rw h refl)

  -- An update that the rows allow is also allowed after another one.
  pub update_row-again :
      (rows : List A) {out later : List A} (other : Text) (first : A → A)
      → ((a : A) → key (first a) ≡ key a)
      → update_row key other first rows ≡ done out
      → update_row key id change rows ≡ done later
      → (o : List A) × (update_row key id change out ≡ done o)
  update_row-again rows {out} other first same h h' =
      update_row-some out
        (update_row-keys key other first rows same h id ∙ update_row-found rows h')

  module _ (first : A → A) (same : (a : A) → key (first a) ≡ key a)
      (over : (a : A) → change (first a) ≡ change a) where
    one-over : (a : A) → one key id change (one key id first a) ≡ one key id change a
    one-over a = elim (Bool-cases (text_eq (key a) id)) [
      | inl hit ↦ rw hit (rw (same a) (rw hit (over a)))
      | inr miss ↦ rw miss (rw miss refl)
    ]

    map-over :
        (rows : List A)
        → map (one key id change) (map (one key id first) rows) ≡ map (one key id change) rows
    map-over [] = refl
    map-over (a ∷ rest) = rw (one-over a) (rw (map-over rest) refl)

  -- A change that overwrites what another one did to the same rows.
  pub update_row-over :
      (rows : List A) {out later both : List A} (first : A → A)
      → ((a : A) → key (first a) ≡ key a)
      → ((a : A) → change (first a) ≡ change a)
      → update_row key id first rows ≡ done out
      → update_row key id change rows ≡ done later
      → update_row key id change out ≡ done both
      → both ≡ later
  update_row-over rows {out} {later} {both} first same over h h' h'' =
      let e = map-over first same over rows in
      cc (
        update_row-done key id first rows h,
        update_row-done key id change rows h',
        update_row-done key id change out h'',
        e,
      )
