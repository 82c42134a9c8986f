-- ===== src/Queue/Safety/Claiming.antt =====
-- services/submissionQueue.js: a claim or a renewal, and the claims that other workers hold.
use emlynk_wabot.Prelude.{
  ℕ, ◌≤◌, ◌<◌, ◌≡◌, ◌≢◌, Bool, true, false, Option, none, some, List, text_eq_iff, arith, ◌==◌,
  ==_iff, refl, sym, ◌∙◌, subst, ◌⊎◌, inl, inr, Bool-cases,
}
use emlynk_wabot.Queue.Table.{
  Row, NamesId, update_many, All-update_many, found_row, others-differ, update_many-HasUniqueIds,
}
use emlynk_wabot.Queue.Claims.{Claim, is_claimable, is_unchanged}
use emlynk_wabot.Queue.Fencing.{same_time-same}
use emlynk_wabot.Queue.System.{System, set_slot}
use emlynk_wabot.Queue.Safety.{IsPassed, IsBound, IsStamped, IsSafe, later-IsPassed}

pub is_unchanged-NamesId :
    (candidate : Row) → NamesId candidate.temporary_id (is_unchanged candidate)
unfolding is_unchanged
is_unchanged-NamesId candidate r h =
    (text_eq_iff r.temporary_id candidate.temporary_id).0 (ground arith)

-- The times that a due submission leaves behind.
due-later :
    (lease clock now t : ℕ) (candidate : Row) (o : Option ℕ)
    → clock ≤ now
    → is_claimable lease now candidate ≡ true
    → candidate.started_at ≡ o
    → IsPassed lease clock t o
    → t < now
unfolding is_claimable
due-later lease clock now t candidate none order can e h = omega (arith, order, h)
due-later lease clock now t candidate (some u) order can e h = ground arith

unchanged-IsPassed :
    (lease clock t : ℕ) (candidate r : Row)
    → is_unchanged candidate r ≡ true
    → IsPassed lease clock t r.started_at
    → IsPassed lease clock t candidate.started_at
unfolding is_unchanged
unchanged-IsPassed lease clock t candidate r h passed =
    subst (λ o. IsPassed lease clock t o)
      (same_time-same r.started_at candidate.started_at (ground arith)) passed

-- A claim takes a later time than the claims held on its submission.
pub claim-later :
    (lease now : ℕ) (s : System) (candidate : Row) (f : Row → Row)
    → IsSafe lease s
    → s.clock ≤ now
    → is_claimable lease now candidate ≡ true
    → (update_many (is_unchanged candidate) f s.rows).1 ≡ 1
    → (v : ℕ) (d : Claim) → s.slots v ≡ some d
    → d.temporary_id ≡ candidate.temporary_id
    → (t : ℕ) → d.started_at ≡ some t
    → t < now
claim-later lease now s candidate f safe order can count v d held same t time =
    let old = safe.stamped v d held in
    let (r, b, hit) =
      found_row (IsBound lease s.clock d.temporary_id old.time) (is_unchanged candidate) f s.rows
        old.bound (omega (arith, count)) in
    let passed =
      unchanged-IsPassed lease s.clock old.time candidate r hit
        (b (is_unchanged-NamesId candidate r hit ∙ sym same)) in
    let e : t ≡ old.time = cc (time, old.started) in
    subst (λ x. x < now) (sym e)
      (due-later lease s.clock now old.time candidate candidate.started_at order can refl passed)

module _ (lease w at : ℕ) (s : System) (p : Row → Bool) (f : Row → Row) (c : Claim)
    (names : NamesId c.temporary_id p) (ids : (r : Row) → (f r).temporary_id ≡ r.temporary_id)
    (stamps : (r : Row) → (f r).started_at ≡ some at) (mine : c.started_at ≡ some at)
    (order : s.clock ≤ at) (count : (update_many p f s.rows).1 ≡ 1) (safe : IsSafe lease s)
    (later : (v : ℕ) (d : Claim)
      → s.slots v ≡ some d
      → d.temporary_id ≡ c.temporary_id
      → (t : ℕ) → d.started_at ≡ some t
      → t < at) where
  abbrev after : List Row
  after = (update_many p f s.rows).0

  hit-IsPassed : (t : ℕ) → t ≤ at → (r : Row) → IsPassed lease at t (f r).started_at
  hit-IsPassed t early r =
      subst (λ o. IsPassed lease at t o) (sym (stamps r)) (omega (arith, early))

  fresh-IsStamped : IsStamped lease at after c
  fresh-IsStamped = record {
    time = at;
    started = mine;
    early = omega arith;
    bound =
        All-update_many (λ r. p r ≡ false → r.temporary_id ≢ c.temporary_id)
          (IsBound lease at c.temporary_id at) p f s.rows
          (λ r differs miss e. absurd (differs miss e)) (λ r _ _ _. hit-IsPassed at (omega arith) r)
          (others-differ c.temporary_id p f s.rows names safe.unique (omega (arith, count)));
  }

  old-IsStamped : (v : ℕ) (d : Claim) → s.slots v ≡ some d → IsStamped lease at after d
  old-IsStamped v d held =
      let old = safe.stamped v d held in
      let early : old.time ≤ at = omega (arith, old.early, order) in
      record {
        time = old.time;
        started = old.started;
        early = early;
        bound =
            All-update_many (IsBound lease s.clock d.temporary_id old.time)
              (IsBound lease at d.temporary_id old.time) p f s.rows
              (λ r b _ e. later-IsPassed lease s.clock at old.time r.started_at order (b e))
              (λ r _ _ _. hit-IsPassed old.time early r) old.bound;
      }

  -- Who holds a claim afterwards: the worker the new one, another its old one.
  held-cases :
      (v : ℕ) (d : Claim)
      → set_slot w (some c) s.slots v ≡ some d
      → ((v ≡ w) × (c ≡ d)) ⊎ (s.slots v ≡ some d)
  held-cases v d h = elim (Bool-cases (v == w)) [
    | inl same ↦ let e : some c ≡ some d = rw same at h in inl ((==_iff v w).0 same, cc e)
    | inr other ↦ inr (rw other at h)
  ]

  differs :
      (v : ℕ) (d e : Claim)
      → c ≡ e
      → s.slots v ≡ some d
      → d.temporary_id ≡ e.temporary_id
      → d.started_at ≢ e.started_at
  differs v d e same held id time =
      let n : at < at = later v d held (cc (id, same)) at (cc (time, same, mine)) in
      omega (arith, n)

  pub taken-IsSafe :
      IsSafe lease (record { clock = at; rows = after; slots = set_slot w (some c) s.slots })
  taken-IsSafe = record {
    unique = update_many-HasUniqueIds p f s.rows ids safe.unique;
    stamped = λ v d h. elim (held-cases v d h) [
      | inl (_, e) ↦ subst (λ x. IsStamped lease at after x) e fresh-IsStamped
      | inr held ↦ old-IsStamped v d held
    ];
    distinct = λ v u d e ne hv hu id. elim (held-cases v d hv) [
      | inl (iv, same) ↦ elim (held-cases u e hu) [
        | inl (iu, _) ↦ λ _. ne (iv ∙ sym iu)
        | inr held ↦ λ time. differs u e d same held (sym id) (sym time)
      ]
      | inr held ↦ elim (held-cases u e hu) [
        | inl (_, same) ↦ differs v d e same held id
        | inr held' ↦ safe.distinct v u d e ne held held' id
      ]
    ];
  }
