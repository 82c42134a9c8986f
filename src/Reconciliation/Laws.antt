-- ===== src/Reconciliation/Laws.antt =====
-- services/fieldReconciliationService.js: the writes that reconciliation proposes.
use emlynk_wabot.Prelude.{
  ◌≤◌, ◌≡◌, ◌≢◌, true, Option, none, some, List, [], ◌∷◌, Text, All, arith, refl, Option-cases, inl,
  inr, or_else, sym, ◌∙◌,
}
use emlynk_wabot.Users.{User}
use emlynk_wabot.Reconciliation.{
  FieldKind, Column, MapEntry, Outcome, Extracted, Reconciled, field_map, column_value, is_fillable,
  min_fill_confidence, normalize_for_compare, outcome_of, reconcile_entries,
  reconcile_passport_fields, record_outcome,
}

module _ (day_of : Text → Option Text) (user : User) (extracted : Extracted) where
  -- A proposed write `(c, v)`: the value of a passport field that belongs to the column, read with at
  -- least 90 percent confidence, where the record has nothing to compare, and never for the first name.
  pub record IsJustified (u : Column × Text) : Type 0 where
    pub source : MapEntry
    pub column : source.column ≡ u.0
    pub value : extracted.value source.field ≡ some u.1
    pub confident : min_fill_confidence ≤ extracted.confidence source.field
    pub missing : normalize_for_compare day_of (column_value user u.0) source.kind ≡ none
    pub fillable : is_fillable u.0 ≡ true

  -- The entries of FIELD_MAP mark as fillable the columns of FILLABLE_COLUMNS.
  abbrev IsMarked : MapEntry → Type 0
  IsMarked m = m.fillable ≡ is_fillable m.column

  fill-parts :
      (m : MapEntry) (v : Text)
      → outcome_of day_of user extracted m ≡ Outcome.fill
      → extracted.value m.field ≡ some v
      → (min_fill_confidence ≤ extracted.confidence m.field)
        × (normalize_for_compare day_of (column_value user m.column) m.kind ≡ none)
        × (m.fillable ≡ true)
  unfolding outcome_of
  fill-parts m v h e = ground arith

  normalize-none : (k : FieldKind) → normalize_for_compare day_of none k ≡ none
  unfolding normalize_for_compare
  normalize-none k = refl

  fill-value :
      (m : MapEntry)
      → outcome_of day_of user extracted m ≡ Outcome.fill
      → extracted.value m.field ≢ none
  unfolding outcome_of
  fill-value m h e = ground (arith, normalize-none m.kind, e)

  fill-IsJustified :
      (m : MapEntry)
      → IsMarked m
      → outcome_of day_of user extracted m ≡ Outcome.fill
      → IsJustified (m.column, or_else (extracted.value m.field) [])
  fill-IsJustified m marked h = elim (Option-cases (extracted.value m.field)) [
    | inl missing ↦ absurd (fill-value m h missing)
    | inr (v, e) ↦
        let (confident, missing, fillable) = fill-parts m v h e in
        record {
          source = m;
          column = refl;
          value = rw e;
          confident = confident;
          missing = missing;
          fillable = sym marked ∙ fillable;
        }
  ]

  recorded :
      (m : MapEntry) (o : Outcome) (r : Reconciled)
      → (o ≡ Outcome.fill → IsJustified (m.column, or_else (extracted.value m.field) []))
      → All IsJustified r.updates
      → All IsJustified (record_outcome day_of user extracted m o r).updates
  recorded m Outcome.fill r one h = (one refl, h)
  recorded m Outcome.match r one h = h
  recorded m Outcome.conflict r one h = h
  recorded m Outcome.low_confidence r one h = h
  recorded m Outcome.not_extracted r one h = h
  recorded m Outcome.record_missing r one h = h

  entries-IsJustified :
      (ms : List MapEntry)
      → All IsMarked ms
      → All IsJustified (reconcile_entries day_of user extracted ms).updates
  unfolding reconcile_entries
  entries-IsJustified [] h = tt
  entries-IsJustified (m ∷ ms) (marked, h) =
      recorded m (outcome_of day_of user extracted m) (reconcile_entries day_of user extracted ms)
        (fill-IsJustified m marked) (entries-IsJustified ms h)

-- Every write that reconciliation proposes takes the value of the passport field that belongs to the
-- column, was read with at least 90 percent confidence, goes to a column whose value on record has
-- nothing to compare (it is missing, or normalizeForCompare leaves nothing of it, as of a name without
-- a Latin letter), and never to the first name.
pub reconcile_passport_fields-IsJustified :
    (day_of : Text → Option Text) (user : User) (extracted : Extracted)
    → All
        (IsJustified day_of user extracted)
        (reconcile_passport_fields day_of user extracted).updates
unfolding reconcile_passport_fields
reconcile_passport_fields-IsJustified day_of user extracted =
    entries-IsJustified day_of user extracted field_map (refl, (refl, (refl, (refl, (refl, tt)))))
