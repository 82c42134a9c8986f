-- ===== src/Limiter/Bounds.antt =====
-- utils/concurrencyLimiter.js: the counters of the limiter.
use emlynk_wabot.Prelude.{
  ℕ, ◌≡◌, ◌≤◌, ◌⊎◌, inl, inr, true, false, not, ◌&&◌, List, [], ◌∷◌, ◌++◌, length, length-append,
  length-keep, keep, arith, refl, subst, ap, ltb, leb, ◌==◌, Bool-cases,
}
use emlynk_wabot.Limiter.{
  Limits, Limiter, start_one, start_waiting, is_empty, acquire, release, time_out, Reachable, start,
  acquires, releases, times_out,
}

-- Within the limits, with no entry waiting beside a free slot.
pub record IsWithin (limits : Limits) (l : Limiter) : Type 0 where
  pub active : l.active ≤ limits.max_concurrent
  pub peak : l.active ≤ l.peak_active
  pub bounded : l.peak_active ≤ limits.max_concurrent
  pub queue : length l.waiting ≤ limits.max_waiting
  pub busy : (l.waiting ≡ []) ⊎ (l.active ≡ limits.max_concurrent)

is_empty-nil : (ts : List ℕ) → is_empty ts ≡ true → ts ≡ []
is_empty-nil [] e = refl
is_empty-nil (t ∷ ts) e = ground arith

module _ (limits : Limits) where
  start-IsWithin :
      (ts : List ℕ) (l : Limiter)
      → l.active ≤ limits.max_concurrent
      → l.active ≤ l.peak_active
      → l.peak_active ≤ limits.max_concurrent
      → length ts ≤ limits.max_waiting
      → IsWithin limits (start_waiting limits ts l).0
  unfolding start_waiting
  start-IsWithin [] l a p b q = record {
    active = a;
    peak = p;
    bounded = b;
    queue = omega arith;
    busy = inl refl;
  }
  start-IsWithin (t ∷ ts) l a p b q = elim (Bool-cases (ltb l.active limits.max_concurrent)) [
    | inl free ↦
        rw free (start-IsWithin ts _ (ground arith) (ground arith) (ground arith) (omega arith))
    | inr full ↦
        rw full (record { active = a; peak = p; bounded = b; queue = q; busy = inr (ground arith) })
  ]

  held_full :
      (l : Limiter)
      → (l.waiting ≡ []) ⊎ (l.active ≡ limits.max_concurrent)
      → l.active ≤ limits.max_concurrent
      → (ltb l.active limits.max_concurrent && is_empty l.waiting) ≡ false
      → l.active ≡ limits.max_concurrent
  held_full l (inr full) a held = full
  held_full l (inl none_left) a held =
      no_room
        (subst (λ ts. (ltb l.active limits.max_concurrent && is_empty ts) ≡ false) none_left held)
    where
      no_room :
          (ltb l.active limits.max_concurrent && true) ≡ false → l.active ≡ limits.max_concurrent
      no_room e = ground arith

  acquire-IsWithin :
      (ticket : ℕ) (l : Limiter) → IsWithin limits l → IsWithin limits (acquire limits ticket l).0
  unfolding acquire
  acquire-IsWithin ticket l w =
      elim (Bool-cases (ltb l.active limits.max_concurrent && is_empty l.waiting)) [
        | inl free ↦ rw free (record {
          active = ground arith;
          peak = omega arith;
          bounded = ground arith;
          queue = w.queue;
          busy = inl (is_empty-nil l.waiting (ground arith));
        })
        | inr held ↦ rw held (elim (Bool-cases (leb limits.max_waiting (length l.waiting))) [
          | inl full ↦ rw full w
          | inr room ↦ rw room (record {
            active = w.active;
            peak = w.peak;
            bounded = w.bounded;
            queue = rw (length-append l.waiting (ticket ∷ [])) (ground arith);
            busy = inr (held_full l w.busy w.active held);
          })
        ])
      ]

  -- The entries that start_waiting starts are the first ones, in the order in which they wait, and the
  -- others keep their order.
  pub start_waiting-order :
      (ts : List ℕ) (l : Limiter)
      → (start_waiting limits ts l).1 ++ (start_waiting limits ts l).0.waiting ≡ ts
  unfolding start_waiting
  start_waiting-order [] l = refl
  start_waiting-order (t ∷ ts) l = elim (Bool-cases (ltb l.active limits.max_concurrent)) [
    | inl free ↦ rw free (ap (λ rest. t ∷ rest) (start_waiting-order ts (start_one l)))
    | inr full ↦ rw full refl
  ]

  release-IsWithin : (l : Limiter) → IsWithin limits l → IsWithin limits (release limits l).0
  unfolding release
  release-IsWithin l w = start-IsWithin l.waiting _ (ground arith) (ground arith) w.bounded w.queue

  time_out-IsWithin :
      (ticket : ℕ) (l : Limiter) → IsWithin limits l → IsWithin limits (time_out ticket l)
  unfolding time_out
  time_out-IsWithin ticket l w = record {
    active = w.active;
    peak = w.peak;
    bounded = w.bounded;
    queue = omega (arith, length-keep (λ t. not (t == ticket)) l.waiting);
    busy = elim w.busy [
      | inl none_left ↦ inl (ap (keep (λ t. not (t == ticket))) none_left)
      | inr full ↦ inr full
    ];
  }

  -- In every state that calls of acquire, releases by running tasks and expired timers reach, at most
  -- max_concurrent tasks run, the recorded peak is at least that number and at most max_concurrent, at
  -- most max_waiting entries wait, and entries wait only while every slot is taken.
  pub Reachable-IsWithin : {l : Limiter} → Reachable limits l → IsWithin limits l
  Reachable-IsWithin start = record {
    active = omega arith;
    peak = omega arith;
    bounded = omega arith;
    queue = omega arith;
    busy = inl refl;
  }
  Reachable-IsWithin (acquires ticket r) = acquire-IsWithin ticket _ (Reachable-IsWithin r)
  Reachable-IsWithin (releases _ r) = release-IsWithin _ (Reachable-IsWithin r)
  Reachable-IsWithin (times_out ticket r) = time_out-IsWithin ticket _ (Reachable-IsWithin r)
