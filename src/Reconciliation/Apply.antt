-- ===== src/Reconciliation/Apply.antt =====
-- services/fieldReconciliationService.js: applyReconciliationUpdates over the users table.
pub mod Keeps
use emlynk_wabot.Prelude.{
  ℕ, zero, suc, ◌+◌, Bool, true, false, ◌&&◌, ◌||◌, not, Option, none, some, List, [], ◌∷◌, Text,
  text_eq, ltb, is_some, is_truthy, if◌then◌else◌,
}
use emlynk_wabot.Users.{User}
use emlynk_wabot.Identity.{Identity, IdentityStatus}
use emlynk_wabot.Reconciliation.Fields.{Column, column_value, set_column, is_fillable}

-- `where: { passportId, [column]: null }`
abbrev pub is_target : Text → Column → User → Bool
is_target id column u = text_eq u.passport_id id && not (is_some (column_value u column))

-- client.user.updateMany: the table after it, and the number of rows that it changed
unfoldable pub update_many : Text → Column → Text → List User → List User × ℕ
update_many id column value [] = ([], 0)
update_many id column value (u ∷ rest) =
    let (table, count) = update_many id column value rest in
    if is_target id column u
    then (set_column column value u ∷ table, suc count)
    else (u ∷ table, count)

-- The loop over the updates; `applied` is the list of the columns that changed a row.
unfoldable pub apply_updates : Text → List (Column × Text) → List User → List User × List Column
apply_updates id [] table = (table, [])
apply_updates id ((column, value) ∷ rest) table =
    let (table', count) = update_many id column value table in
    let later = apply_updates id rest table' in
    let skipped = apply_updates id rest table in
    if not (is_fillable column)
    then skipped
    else if ltb 0 count
    then (later.0, column ∷ later.1)
    else later

abbrev is_verified_match : IdentityStatus → Bool
is_verified_match IdentityStatus.verified_match = true
is_verified_match _ = false

abbrev pub id_or_empty : Option Text → Text
id_or_empty none = []
id_or_empty (some id) = id

-- identity?.status !== VERIFIED_MATCH || !identity.passportId
abbrev pub may_write : Identity → Bool
may_write i = is_verified_match i.status && is_truthy i.passport_id

unfoldable pub apply_reconciliation_updates :
    Identity → List (Column × Text) → List User → List User × List Column
unfolding apply_updates
apply_reconciliation_updates identity updates table =
    if may_write identity
    then apply_updates (id_or_empty identity.passport_id) updates table
    else (table, [])
