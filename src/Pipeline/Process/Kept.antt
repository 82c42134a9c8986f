-- ===== src/Pipeline/Process/Kept.antt =====
-- What the final update of processDocument (services/documentProcessingService.js) leaves in the row.
use mathlib.Core.List.{Memᴰ}
use emlynk_wabot.Prelude.{
  ◌≤◌, ◌≡◌, Bool, true, Option, none, some, List, [], ◌∷◌, Text, text_eq, text_eq_iff, is_truthy,
  ==_iff, All, arith, refl, inl, inr, Bool-cases, Option-cases,
}
use emlynk_wabot.Review.Reasons.{ReviewReason}
use emlynk_wabot.Queue.Table.{Row, RowStatus, update_many, All-update_many}
use emlynk_wabot.Queue.Claims.{Claim, recorded, owns, update_record}
use emlynk_wabot.Queue.Fencing.{owns-NamesId}
use emlynk_wabot.Storage.World.{World}
use emlynk_wabot.Storage.Place.{Placed}
use emlynk_wabot.Pipeline.Runs.{update_row}

-- The row has the status of the placement, the reason, and the pending path if there is one.
abbrev pub IsWritten : Placed → Option ReviewReason → Row → Type 0
IsWritten p reason r =
    (r.status ≡ RowStatus.finished p.processing_status)
    × (r.review_reason ≡ reason)
    × (is_truthy p.pending_storage_path ≡ true → r.pending_storage_path ≡ p.pending_storage_path)

-- Without a claim every row with the key is written; with a claim a row of the claim's submission.
abbrev pub IsKept : Text → Placed → Option ReviewReason → Option Claim → List Row → Type 0
IsKept id p reason none rows = All (λ r. r.temporary_id ≡ id → IsWritten p reason r) rows
IsKept id p reason (some c) rows =
    (r : Row) × Memᴰ r rows × (r.temporary_id ≡ c.temporary_id) × IsWritten p reason r

written_row :
    (q : Row → Bool) (f : Row → Row) (rows : List Row)
    → 1 ≤ (update_many q f rows).1
    → (r : Row) × Memᴰ (f r) (update_many q f rows).0 × (q r ≡ true)
unfolding update_many
written_row q f [] n = absurd (omega arith)
written_row q f (r ∷ rest) n = elim (Bool-cases (q r)) [
  | inl hit ↦ (r, rw hit (Memᴰ.head refl), hit)
  | inr miss ↦
      let (s, there, hit) = written_row q f rest (rw miss at n) in
      (s, rw miss (Memᴰ.tail there), hit)
]

all_rows : (rows : List Row) → All (λ _. Unit {0}) rows
all_rows [] = tt
all_rows (r ∷ rest) = (tt, all_rows rest)

recorded-IsWritten :
    (p : Placed) (reason : Option ReviewReason) (r : Row)
    → IsWritten p reason (recorded p.processing_status reason p.pending_storage_path r)
recorded-IsWritten p reason r = (refl, refl, λ truthy. rw truthy refl)

module _ (id : Text) (p : Placed) (reason : Option ReviewReason) where
  claimed-IsKept :
      (c : Claim) (rows : List Row)
      → (update_record c p.processing_status reason p.pending_storage_path rows).1 ≡ true
      → IsKept id p reason
          (some c)
          (update_record c p.processing_status reason p.pending_storage_path rows).0
  unfolding update_record
  claimed-IsKept c rows one =
      let change = recorded p.processing_status reason p.pending_storage_path in
      let n = (==_iff (update_many (owns c) change rows).1 1).0 one in
      let (r, there, mine) = written_row (owns c) change rows (omega (arith, n)) in
      (change r, there, owns-NamesId c r mine, recorded-IsWritten p reason r)

  pub update_row-IsKept {ℓ} :
      {B : Type ℓ} (w : World B)
      → (update_row id p.processing_status reason p.pending_storage_path w).1 ≡ true
      → let after = (update_row id p.processing_status reason p.pending_storage_path w).0 in
        IsKept id p reason after.held after.rows
  unfolding update_row
  update_row-IsKept w one = elim (Option-cases w.held) [
    | inl unheld ↦
        rw (update_row, unheld)
          (rw unheld (
            All-update_many (λ _. Unit {0}) (λ r. r.temporary_id ≡ id → IsWritten p reason r)
              (λ r. text_eq r.temporary_id id)
              (recorded p.processing_status reason p.pending_storage_path) w.rows
              (λ r _ miss e. absurd (cc (miss, (text_eq_iff r.temporary_id id).1 e)))
              (λ r _ _ _. recorded-IsWritten p reason r) (all_rows w.rows)))
    | inr (c, held) ↦
        rw (update_row, held) (rw held (claimed-IsKept c w.rows (rw (update_row, held) at one)))
  ]
