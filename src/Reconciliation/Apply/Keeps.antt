-- ===== src/Reconciliation/Apply/Keeps.antt =====
-- services/fieldReconciliationService.js: the automatic writes, row by row.
use emlynk_wabot.Prelude.{
  ◌≡◌, ◌≢◌, Bool, true, false, none, some, List, [], ◌∷◌, Text, text_eq, text_eq_iff, arith, refl,
  Bool-cases, sym, ◌∙◌, inl, inr, ltb, if◌then◌else◌,
}
use emlynk_wabot.Users.{User}
use emlynk_wabot.Identity.{Identity}
use emlynk_wabot.Reconciliation.Fields.{Column, column_value, set_column, is_fillable}
use emlynk_wabot.Reconciliation.Apply.{
  is_target, update_many, apply_updates, may_write, id_or_empty, apply_reconciliation_updates,
}

-- `b` is `a` with some empty columns of the client `id` filled: its keys and its first name are the
-- same, no value on record changes, and the row of another client is the same row.
pub record IsFilled (id : Text) (a b : User) : Type 0 where
  pub passport_id : b.passport_id ≡ a.passport_id
  pub unique_id : b.unique_id ≡ a.unique_id
  pub whatsapp_number : b.whatsapp_number ≡ a.whatsapp_number
  pub first_name : b.first_name ≡ a.first_name
  pub kept : (c : Column) (v : Text) → column_value a c ≡ some v → column_value b c ≡ some v
  pub others : a.passport_id ≢ id → b ≡ a

-- Row by row.
abbrev pub AllFilled : Text → List User → List User → Type 0
AllFilled id [] [] = Unit
AllFilled id (a ∷ s) (b ∷ t) = IsFilled id a b × AllFilled id s t
AllFilled id _ _ = ⊥

IsFilled-refl : (id : Text) (a : User) → IsFilled id a a
IsFilled-refl id a = record {
  passport_id = refl;
  unique_id = refl;
  whatsapp_number = refl;
  first_name = refl;
  kept = λ c v e. e;
  others = λ n. refl;
}

IsFilled-trans : (id : Text) (a b c : User) → IsFilled id a b → IsFilled id b c → IsFilled id a c
IsFilled-trans id a b c p q = record {
  passport_id = q.passport_id ∙ p.passport_id;
  unique_id = q.unique_id ∙ p.unique_id;
  whatsapp_number = q.whatsapp_number ∙ p.whatsapp_number;
  first_name = q.first_name ∙ p.first_name;
  kept = λ k v e. q.kept k v (p.kept k v e);
  others = λ n. q.others (λ e. n (sym p.passport_id ∙ e)) ∙ p.others n;
}

AllFilled-refl : (id : Text) (s : List User) → AllFilled id s s
AllFilled-refl id [] = tt
AllFilled-refl id (a ∷ s) = (IsFilled-refl id a, AllFilled-refl id s)

AllFilled-trans :
    (id : Text) (s t u : List User) → AllFilled id s t → AllFilled id t u → AllFilled id s u
AllFilled-trans id [] [] [] p q = tt
AllFilled-trans id (a ∷ s) (b ∷ t) (c ∷ u) p q =
    (IsFilled-trans id a b c p.0 q.0, AllFilled-trans id s t u p.1 q.1)
AllFilled-trans id [] [] (c ∷ u) p q = absurd q
AllFilled-trans id [] (b ∷ t) u p q = absurd p
AllFilled-trans id (a ∷ s) [] u p q = absurd p
AllFilled-trans id (a ∷ s) (b ∷ t) [] p q = absurd q

-- Setting an empty column keeps every column that has a value.
kept-set :
    (k : Column) (value : Text) (u : User)
    → column_value u k ≡ none
    → (c : Column) (v : Text) → column_value u c ≡ some v
    → column_value (set_column k value u) c ≡ some v
kept-set k value u e c v h = ground arith

keys-set :
    (k : Column) (value : Text) (u : User)
    → ((set_column k value u).passport_id ≡ u.passport_id)
      × ((set_column k value u).unique_id ≡ u.unique_id)
      × ((set_column k value u).whatsapp_number ≡ u.whatsapp_number)
      × (is_fillable k ≡ true → (set_column k value u).first_name ≡ u.first_name)
keys-set k value u = ground arith

set-IsFilled :
    (id : Text) (k : Column) (value : Text) (u : User)
    → is_target id k u ≡ true
    → is_fillable k ≡ true
    → IsFilled id u (set_column k value u)
set-IsFilled id k value u h f =
    let (passport_id, unique_id, number, first) = keys-set k value u in
    let mine : text_eq u.passport_id id ≡ true = ground arith in
    let empty : column_value u k ≡ none = ground arith in
    record {
      passport_id = passport_id;
      unique_id = unique_id;
      whatsapp_number = number;
      first_name = first f;
      kept = kept-set k value u empty;
      others = λ n. absurd (n ((text_eq_iff u.passport_id id).0 mine));
    }

one-IsFilled :
    (id : Text) (k : Column) (value : Text) (u : User)
    → is_fillable k ≡ true
    → IsFilled id u (if is_target id k u then set_column k value u else u)
one-IsFilled id k value u f = elim (Bool-cases (is_target id k u)) [
  | inl hit ↦ rw hit (set-IsFilled id k value u hit f)
  | inr miss ↦ rw miss (IsFilled-refl id u)
]

update_many-cons :
    (id : Text) (k : Column) (value : Text) (u : User) (rest : List User)
    → (update_many id k value (u ∷ rest)).0
      ≡ (if is_target id k u then set_column k value u else u) ∷ (update_many id k value rest).0
unfolding update_many
update_many-cons id k value u rest = ground arith

update_many-AllFilled :
    (id : Text) (k : Column) (value : Text) (table : List User)
    → is_fillable k ≡ true
    → AllFilled id table (update_many id k value table).0
update_many-AllFilled id k value [] f = unfold update_many in tt
update_many-AllFilled id k value (u ∷ rest) f =
    rw update_many-cons (one-IsFilled id k value u f, update_many-AllFilled id k value rest f)

-- The table of `if 0 < count then (later.0, …) else later` is that of `later`.
same_table :
    (b : Bool) (later : List User × List Column) (k : Column)
    → (if b then (later.0, k ∷ later.1) else later).0 ≡ later.0
same_table true later k = refl
same_table false later k = refl

apply_updates-AllFilled :
    (id : Text) (updates : List (Column × Text)) (table : List User)
    → AllFilled id table (apply_updates id updates table).0
unfolding apply_updates
apply_updates-AllFilled id [] table = AllFilled-refl id table
apply_updates-AllFilled id ((k, value) ∷ rest) table = elim (Bool-cases (is_fillable k)) [
  | inr fixed ↦ rw fixed (apply_updates-AllFilled id rest table)
  | inl fillable ↦
      let t' = (update_many id k value table).0 in
      let n = (update_many id k value table).1 in
      rw (fillable, same_table (ltb 0 n) (apply_updates id rest t') k)
        (AllFilled-trans id table t' (apply_updates id rest t').0
          (update_many-AllFilled id k value table fillable) (apply_updates-AllFilled id rest t'))
]

-- The automatic writes to the users table, whatever is proposed: only empty columns of the client
-- whose identity was verified are filled, the first name, the keys and the number of every client
-- stay, and without a verified identity the table stays as it is.
pub apply_reconciliation_updates-AllFilled :
    (identity : Identity) (updates : List (Column × Text)) (table : List User)
    → AllFilled
        (id_or_empty identity.passport_id)
        table
        (apply_reconciliation_updates identity updates table).0
      × (may_write identity ≡ false
          → (apply_reconciliation_updates identity updates table).0 ≡ table)
unfolding apply_reconciliation_updates
apply_reconciliation_updates-AllFilled identity updates table =
    elim (Bool-cases (may_write identity)) [
      | inl may ↦
          rw may
            (apply_updates-AllFilled (id_or_empty identity.passport_id) updates table, λ n. cc n)
      | inr may_not ↦
          rw may_not (AllFilled-refl (id_or_empty identity.passport_id) table, λ _. refl)
    ]
