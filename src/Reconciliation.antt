-- ===== src/Reconciliation.antt =====
-- services/fieldReconciliationService.js: which values of a passport are matched, filled in or
-- reported as conflicts, and the conditional writes to the users table.
pub mod Fields
pub mod Apply
pub mod Laws
pub use Fields.*
use emlynk_wabot.Prelude.{
  ℕ, ◌≡◌, Bool, true, false, ◌&&◌, not, Option, none, some, List, [], ◌∷◌, Text, text_eq, ltb, map,
  keep, if◌then◌else◌, is_some, is_truthy, or_else, leb,
}
use emlynk_wabot.Confidence.{high_confidence_from}
use emlynk_wabot.Users.{User}
use emlynk_wabot.Users.PassportId.{to_upper, is_upper}
use Fields.{FieldName, Column, FieldKind, MapEntry, field_map, column_value, Entry, Outcome}

-- MIN_FILL_CONFIDENCE
abbrev pub min_fill_confidence : ℕ
min_fill_confidence = high_confidence_from

abbrev non_empty : Text → Option Text
non_empty [] = none
non_empty (c ∷ s) = some (c ∷ s)

-- What extractPassportFields and assessPassportFieldConfidence say of each field.
pub record Extracted : Type 0 where
  pub value : FieldName → Option Text
  pub confidence : FieldName → ℕ

-- The result of reconcilePassportFields, one list for each of its arrays.
pub record Reconciled : Type 0 where
  pub matched_fields : List Entry
  pub missing_fields_filled : List Entry
  pub conflicts : List Entry
  pub skipped : List Entry
  pub updates : List (Column × Text)

abbrev pub nothing : Reconciled
nothing = record {
  matched_fields = [];
  missing_fields_filled = [];
  conflicts = [];
  skipped = [];
  updates = [];
}

-- `day_of` is `new Date(value)` read as a calendar day, `none` for an invalid date.
module _ (day_of : Text → Option Text) where
  -- normalizeForCompare
  unfoldable pub normalize_for_compare : Option Text → FieldKind → Option Text
  normalize_for_compare none kind = none
  normalize_for_compare (some []) kind = none
  normalize_for_compare (some (c ∷ s)) FieldKind.date = day_of (c ∷ s)
  normalize_for_compare (some (c ∷ s)) FieldKind.text =
      non_empty (keep is_upper (map to_upper (c ∷ s)))
  normalize_for_compare (some (c ∷ s)) FieldKind.name =
      non_empty (keep is_upper (map to_upper (c ∷ s)))

  -- onRecord === fromPassport, where the passport's value is not null
  abbrev pub same_value : Option Text → Text → Bool
  same_value none t = false
  same_value (some s) t = text_eq s t

  module _ (user : User) (extracted : Extracted) where
    abbrev pub entry : MapEntry → Outcome → Entry
    entry m outcome = record {
      field = m.field;
      confidence = extracted.confidence m.field;
      outcome = outcome;
    }

    -- The chain of tests in the loop's body: the outcome for one field.
    unfoldable pub outcome_of : MapEntry → Outcome
    outcome_of m =
        let on_record = normalize_for_compare (column_value user m.column) m.kind in
        elim (normalize_for_compare (extracted.value m.field) m.kind) [
          | none ↦ Outcome.not_extracted
          | some from_passport ↦
              if same_value on_record from_passport
              then Outcome.match
              else if ltb (extracted.confidence m.field) min_fill_confidence
              then Outcome.low_confidence
              else if is_some on_record
              then Outcome.conflict
              else if not m.fillable
              then Outcome.record_missing
              else Outcome.fill
        ]

    -- Where an outcome is recorded; `result.updates[column] = …` with the extracted value.
    abbrev pub record_outcome : MapEntry → Outcome → Reconciled → Reconciled
    record_outcome m Outcome.not_extracted r = record r {
      skipped = entry m Outcome.not_extracted ∷ r.skipped;
    }
    record_outcome m Outcome.match r = record r {
      matched_fields = entry m Outcome.match ∷ r.matched_fields;
    }
    record_outcome m Outcome.low_confidence r = record r {
      skipped = entry m Outcome.low_confidence ∷ r.skipped;
    }
    record_outcome m Outcome.conflict r = record r {
      conflicts = entry m Outcome.conflict ∷ r.conflicts;
    }
    record_outcome m Outcome.record_missing r = record r {
      skipped = entry m Outcome.record_missing ∷ r.skipped;
    }
    record_outcome m Outcome.fill r = record r {
      missing_fields_filled = entry m Outcome.fill ∷ r.missing_fields_filled;
      updates = (m.column, or_else (extracted.value m.field) []) ∷ r.updates;
    }

    -- The loop over FIELD_MAP. Each list grows at its front from the last entry back, which leaves
    -- it in the order in which the source pushes.
    unfoldable pub reconcile_entries : List MapEntry → Reconciled
    reconcile_entries [] = nothing
    reconcile_entries (m ∷ rest) = record_outcome m (outcome_of m) (reconcile_entries rest)

    unfoldable pub reconcile_passport_fields : Reconciled
    unfolding reconcile_entries
    reconcile_passport_fields = reconcile_entries field_map
