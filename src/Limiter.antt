-- ===== src/Limiter.antt =====
-- utils/concurrencyLimiter.js: createConcurrencyLimiter. A waiting entry is its ticket; the timer of
-- an entry is a step that may happen at any time; starting an entry clears its timer, so a ticket
-- that no longer waits changes nothing.
pub mod Bounds
use emlynk_wabot.Prelude.{
  ℕ, suc, ◌+◌, ◌-◌, ◌≡◌, ◌≤◌, max, Bool, true, false, ◌&&◌, not, Option, none, some, List, [], ◌∷◌,
  ◌++◌, length, keep, ltb, leb, ◌==◌, if◌then◌else◌,
}

pub record Limits : Type 0 where
  pub max_concurrent : ℕ
  pub max_waiting : ℕ

pub record Limiter : Type 0 where
  pub active : ℕ
  pub peak_active : ℕ
  pub waiting : List ℕ

abbrev pub fresh : Limiter
fresh = record { active = 0; peak_active = 0; waiting = [] }

-- How acquire answers; `queued` waits, `busy` is LimiterBusyError("QUEUE_FULL").
pub data Answer : Type 0 where
  started queued busy : Answer

abbrev pub is_empty : List ℕ → Bool
is_empty [] = true
is_empty (t ∷ rest) = false

abbrev pub start_one : Limiter → Limiter
start_one l = record l { active = l.active + 1; peak_active = max l.peak_active (l.active + 1) }

module _ (limits : Limits) where
  -- startNextWaiting over the waiting entries: the limiter after it, and the tickets that were started.
  unfoldable pub start_waiting : List ℕ → Limiter → Limiter × List ℕ
  start_waiting [] l = (record l { waiting = [] }, [])
  start_waiting (t ∷ rest) l =
      let next = start_waiting rest (start_one l) in
      if ltb l.active limits.max_concurrent
      then (next.0, t ∷ next.1)
      else (record l { waiting = t ∷ rest }, [])

  unfoldable pub acquire : ℕ → Limiter → Limiter × Answer
  acquire ticket l =
      if ltb l.active limits.max_concurrent && is_empty l.waiting
      then (start_one l, Answer.started)
      else if leb limits.max_waiting (length l.waiting)
      then (l, Answer.busy)
      else (record l { waiting = l.waiting ++ ticket ∷ [] }, Answer.queued)

  -- release, by a task that holds a slot
  unfoldable pub release : Limiter → Limiter × List ℕ
  unfolding start_waiting
  release l = start_waiting l.waiting (record l { active = l.active - 1 })

-- The timer of a waiting entry: WAIT_TIMEOUT
unfoldable pub time_out : ℕ → Limiter → Limiter
time_out ticket l = record l { waiting = keep (λ t. not (t == ticket)) l.waiting }

-- The calls of one limiter, in any order; only a running task releases its slot.
pub data Reachable (limits : Limits) : Limiter → Type 0 where
  start : Reachable limits fresh
  acquires :
      {l : Limiter} (ticket : ℕ) → Reachable limits l → Reachable limits (acquire limits ticket l).0
  releases :
      {l : Limiter} → 1 ≤ l.active → Reachable limits l → Reachable limits (release limits l).0
  times_out : {l : Limiter} (ticket : ℕ) → Reachable limits l → Reachable limits (time_out ticket l)
