-- ===== src/Queue/Fencing.antt =====
-- services/submissionQueue.js: the writes of an attempt that has lost its claim.
use emlynk_wabot.Prelude.{
  ℕ, ◌≡◌, ◌≢◌, ◌⊎◌, inl, inr, Bool, true, false, Option, none, some, List, [], ◌∷◌, Text,
  text_eq_iff, All, All-map, arith, ==_iff, refl, Bool-cases,
}
use emlynk_wabot.Placement.{ProcessingStatus}
use emlynk_wabot.Review.Reasons.{ReviewReason}
use emlynk_wabot.Queue.Table.{Row, RowStatus, is_received, NamesId, update_many}
use emlynk_wabot.Queue.Claims.{
  Settings, Claim, Result, same_time, owns, renew, release, give_up, retry, update_record,
}

pub owns-NamesId : (c : Claim) → NamesId c.temporary_id (owns c)
unfolding owns
owns-NamesId c r h = (text_eq_iff r.temporary_id c.temporary_id).0 (ground arith)

pub same_time-same : (a b : Option ℕ) → same_time a b ≡ true → a ≡ b
same_time-same none none h = refl
same_time-same none (some b) h = absurd (cc h)
same_time-same (some a) none h = absurd (cc h)
same_time-same (some a) (some b) h = let e = (==_iff a b).0 h in cc e

pub owned-is :
    (c : Claim) (r : Row)
    → owns c r ≡ true
    → (r.temporary_id ≡ c.temporary_id)
      × (is_received r.status ≡ true)
      × (r.attempts ≡ c.attempt)
      × (r.started_at ≡ c.started_at)
unfolding owns
owned-is c r h = (
  owns-NamesId c r h,
  ground arith,
  ground arith,
  same_time-same r.started_at c.started_at (ground arith),
)

-- The row is another submission, or has left the queue, or another attempt or another lease has it.
abbrev pub IsStale : Claim → Row → Type 0
IsStale c r =
    (r.temporary_id ≢ c.temporary_id)
    ⊎ (r.status ≢ RowStatus.received)
    ⊎ (r.attempts ≢ c.attempt)
    ⊎ (r.started_at ≢ c.started_at)

received-status : (s : RowStatus) → is_received s ≡ true → s ≡ RowStatus.received
received-status RowStatus.received h = refl
received-status (RowStatus.finished s) h = absurd (cc h)

stale-refused : (c : Claim) (r : Row) → IsStale c r → owns c r ≡ false
stale-refused c r stale = elim (Bool-cases (owns c r)) [
  | inr free ↦ free
  | inl mine ↦
      let (id, received, attempt, time) = owned-is c r mine in
      elim stale [
        | inl n ↦ absurd (n id)
        | inr (inl n) ↦ absurd (n (received-status r.status received))
        | inr (inr (inl n)) ↦ absurd (n attempt)
        | inr (inr (inr n)) ↦ absurd (n time)
      ]
]

-- A write that matches no row.
unmatched :
    (p : Row → Bool) (f : Row → Row) (rows : List Row)
    → All (λ r. p r ≡ false) rows
    → update_many p f rows ≡ (rows, 0)
unfolding update_many
unmatched p f [] h = refl
unmatched p f (r ∷ rest) (miss, h) = rw miss (rw (unmatched p f rest h) refl)

-- When the table has no row that still waits with the attempt and the lease start of a claim under its
-- key, a renewal and a release are refused, giving up and putting off report a stale attempt, the
-- final update is refused, and none of the five changes the table.
pub stale-unchanged :
    (s : Settings) (now : ℕ) (path : Option Text) (status : ProcessingStatus)
    (reason : Option ReviewReason) (c : Claim) (rows : List Row)
    → All (IsStale c) rows
    → (renew now path c rows ≡ (rows, none))
      × (release s now c rows ≡ (rows, false))
      × (give_up c rows ≡ (rows, Result.stale_discarded))
      × (retry s now c rows ≡ (rows, Result.stale_discarded))
      × (update_record c status reason path rows ≡ (rows, false))
unfolding renew release give_up retry update_record
stale-unchanged s now path status reason c rows stale =
    let none_owned =
      All-map (IsStale c) (λ r. owns c r ≡ false) rows (λ r h. stale-refused c r h) stale in
    (
      rw (unmatched (owns c) _ rows none_owned) refl,
      rw (unmatched (owns c) _ rows none_owned) refl,
      rw (unmatched (owns c) _ rows none_owned) refl,
      rw (unmatched (owns c) _ rows none_owned) refl,
      rw (unmatched (owns c) _ rows none_owned) refl,
    )
