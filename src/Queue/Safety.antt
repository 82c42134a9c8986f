-- ===== src/Queue/Safety.antt =====
-- services/submissionQueue.js: the invariant of rows and claims, and the writes that are no claim.
pub mod Claiming
use emlynk_wabot.Prelude.{
  ℕ, ◌+◌, ◌≤◌, ◌<◌, ◌≡◌, ◌≢◌, Bool, Option, none, some, List, [], ◌∷◌, Text, All, All-map, arith,
  ◌==◌, if◌then◌else◌, refl, sym, ◌∙◌, subst, inl, inr, Bool-cases,
}
use emlynk_wabot.Queue.Table.{
  Row, HasUniqueIds, update_many, All-update_many, update_many-HasUniqueIds,
}
use emlynk_wabot.Queue.Claims.{Claim}
use emlynk_wabot.Queue.System.{System, Slots, set_slot}

-- A claim on a row with this lease start gets a later time than t.
abbrev pub IsPassed : ℕ → ℕ → ℕ → Option ℕ → Type 0
IsPassed lease clock t none = t < clock
IsPassed lease clock t (some u) = t ≤ u + lease

abbrev pub IsBound : ℕ → ℕ → Text → ℕ → Row → Type 0
IsBound lease clock id t r = r.temporary_id ≡ id → IsPassed lease clock t r.started_at

-- Every claim has the time of its lease, which the rows of its submission bound.
pub record IsStamped (lease clock : ℕ) (rows : List Row) (c : Claim) : Type 0 where
  pub time : ℕ
  pub started : c.started_at ≡ some time
  pub early : time ≤ clock
  pub bound : All (IsBound lease clock c.temporary_id time) rows

-- The claims held on one submission have different times.
pub record IsSafe (lease : ℕ) (s : System) : Type 0 where
  pub unique : HasUniqueIds s.rows
  pub stamped : (w : ℕ) (c : Claim) → s.slots w ≡ some c → IsStamped lease s.clock s.rows c
  pub distinct :
      (w v : ℕ) (c d : Claim)
      → w ≢ v
      → s.slots w ≡ some c
      → s.slots v ≡ some d
      → c.temporary_id ≡ d.temporary_id
      → c.started_at ≢ d.started_at

abbrev pub IsWithin : Slots → Slots → Type 0
IsWithin less slots = (w : ℕ) (c : Claim) → less w ≡ some c → slots w ≡ some c

pub emptied : (w : ℕ) (slots : Slots) → IsWithin (set_slot w none slots) slots
emptied w slots v c h = elim (Bool-cases (v == w)) [
  | inl same ↦ let e : none ≡ some c = rw same at h in cc e
  | inr other ↦ rw other at h
]

pub later-IsPassed :
    (lease clock later t : ℕ) (o : Option ℕ)
    → clock ≤ later
    → IsPassed lease clock t o
    → IsPassed lease later t o
later-IsPassed lease clock later t none order h = omega (arith, order, h)
later-IsPassed lease clock later t (some u) order h = h

-- Fewer claims, over rows that still bound them.
pub narrowed :
    (lease later : ℕ) (s : System) (rows : List Row) (less : Slots)
    → s.clock ≤ later
    → HasUniqueIds rows
    → IsWithin less s.slots
    → ((id : Text) (t : ℕ)
        → t ≤ s.clock
        → All (IsBound lease s.clock id t) s.rows
        → All (IsBound lease later id t) rows)
    → IsSafe lease s
    → IsSafe lease (record { clock = later; rows = rows; slots = less })
narrowed lease later s rows less order unique within bound safe = record {
  unique = unique;
  stamped = λ w c h.
      let old = safe.stamped w c (within w c h) in
      record {
        time = old.time;
        started = old.started;
        early = omega (arith, old.early, order);
        bound = bound c.temporary_id old.time old.early old.bound;
      };
  distinct = λ w v c d ne hw hv. safe.distinct w v c d ne (within w c hw) (within v d hv);
}

-- A write that keeps the keys, and whose lease starts bound every earlier time.
pub quiet :
    (lease later : ℕ) (s : System) (less : Slots) (p : Row → Bool) (f : Row → Row)
    → s.clock ≤ later
    → IsWithin less s.slots
    → ((r : Row) → (f r).temporary_id ≡ r.temporary_id)
    → ((r : Row) (t : ℕ)
        → t ≤ s.clock
        → IsPassed lease s.clock t r.started_at
        → IsPassed lease later t (f r).started_at)
    → IsSafe lease s
    → IsSafe lease (record { clock = later; rows = (update_many p f s.rows).0; slots = less })
quiet lease later s less p f order within ids passes safe =
    narrowed lease later s (update_many p f s.rows).0 less order
      (update_many-HasUniqueIds p f s.rows ids safe.unique) within
      (λ id t early.
        All-update_many (IsBound lease s.clock id t) (IsBound lease later id t) p f s.rows
          (λ r b _ e. later-IsPassed lease s.clock later t r.started_at order (b e))
          (λ r b _ e. passes r t early (b (sym (ids r) ∙ e))))
      safe
