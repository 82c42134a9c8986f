-- ===== src/Queue/Exclusion.antt =====
-- services/submissionQueue.js: two workers and one submission.
use emlynk_wabot.Prelude.{
  ℕ, ◌<◌, ◌≡◌, ◌≢◌, false, ◌&&◌, Option, some, refl, sym, ◌∙◌, arith, ◌==◌, Text, ==_iff, All-keep,
  inl, inr, Bool-cases,
}
use emlynk_wabot.Queue.Table.{Row, keep-HasUniqueIds, update_many}
use emlynk_wabot.Queue.Claims.{
  Settings, Claim, owns, create_claim, claimed, renewed, renew, release, give_up, retry,
  update_record,
}
use emlynk_wabot.Queue.System.{System, set_slot, put_back, Step, Reachable}
use emlynk_wabot.Queue.Fencing.{owns-NamesId, owned-is}
use emlynk_wabot.Queue.Safety.{IsBound, IsSafe, emptied, narrowed, quiet}
use emlynk_wabot.Queue.Safety.Claiming.{is_unchanged-NamesId, claim-later, taken-IsSafe}

module _ (settings : Settings) where
  abbrev lease : ℕ
  lease = settings.lease_ms

  renewed-IsSafe :
      (s : System) (w at : ℕ) (path : Option Text) (c : Claim)
      → s.clock < at
      → s.slots w ≡ some c
      → IsSafe lease s
      → IsSafe lease (record {
        clock = at;
        rows = (renew at path c s.rows).0;
        slots = set_slot w (renew at path c s.rows).1 s.slots;
      })
  unfolding renew
  renewed-IsSafe s w at path c order held safe =
      elim (Bool-cases ((update_many (owns c) (renewed at path) s.rows).1 == 1)) [
        | inl one ↦ rw one (
            taken-IsSafe lease w at s (owns c) (renewed at path) (record c { started_at = some at })
              (owns-NamesId c) (λ r. refl) (λ r. refl) refl (omega (arith, order))
              ((==_iff _ 1).0 one) safe
              (λ v d held' _ t time.
                let old = safe.stamped v d held' in
                let e : t ≡ old.time = cc (time, old.started) in
                omega (arith, e, old.early, order)))
        | inr lost ↦ rw lost (
            quiet lease at s _ (owns c) (renewed at path) (omega (arith, order)) (emptied w s.slots)
              (λ r. refl) (λ r t early _. omega (arith, early, order)) safe)
      ]

  Step-IsSafe : {s t : System} → Step settings s t → IsSafe lease s → IsSafe lease t
  unfolding release give_up retry update_record put_back create_claim
  Step-IsSafe (Step.arrive {s} r fresh new) safe = record {
    unique = (fresh, safe.unique);
    stamped = λ w c held.
        let old = safe.stamped w c held in
        record {
          time = old.time;
          started = old.started;
          early = old.early;
          bound = ((λ e. absurd (new w c held e)), old.bound);
        };
    distinct = safe.distinct;
  }
  Step-IsSafe (Step.claim {s} w now candidate order can count) safe =
      taken-IsSafe lease w now s _ (claimed now) (create_claim (claimed now candidate))
        (is_unchanged-NamesId candidate) (λ r. refl) (λ r. refl) refl order count safe
        (claim-later lease now s candidate (claimed now) safe order can count)
  Step-IsSafe (Step.renews {s} w at path c order held) safe =
      renewed-IsSafe s w at path c order held safe
  Step-IsSafe (Step.releases {s} w at c order held) safe =
      quiet lease at s s.slots (owns c) _ order (λ v d h. h) (λ r. refl)
        (λ r t early _. omega (arith, early, order)) safe
  Step-IsSafe (Step.gives_up {s} w c held) safe =
      quiet lease s.clock s _ (owns c) _ (omega arith) (emptied w s.slots) (λ r. refl)
        (λ r t early h. h) safe
  Step-IsSafe (Step.puts_off {s} w now c order held) safe =
      quiet lease now s _ (owns c) _ order (emptied w s.slots) (λ r. refl)
        (λ r t early _. omega (arith, early, order)) safe
  Step-IsSafe (Step.finishes {s} w c status reason pending held) safe =
      quiet lease s.clock s _ (owns c) _ (omega arith) (emptied w s.slots) (λ r. refl)
        (λ r t early h. h) safe
  Step-IsSafe (Step.retries {s} at id order) safe =
      quiet lease at s s.slots _ _ (omega (arith, order)) (λ v d h. h) (λ r. refl)
        (λ r t early _. omega (arith, early, order)) safe
  Step-IsSafe (Step.stops {s} w) safe =
      narrowed lease s.clock s s.rows _ (omega arith) safe.unique (emptied w s.slots)
        (λ id t _ b. b) safe
  Step-IsSafe (Step.deletes {s} p) safe =
      narrowed lease s.clock s _ s.slots (omega arith) (keep-HasUniqueIds p s.rows safe.unique)
        (λ v d h. h) (λ id t _ b. All-keep (IsBound lease s.clock id t) p s.rows b) safe

  Reachable-IsSafe : {s : System} → Reachable settings s → IsSafe lease s
  Reachable-IsSafe (Reachable.start u) = record {
    unique = u;
    stamped = λ w c h. absurd (cc h);
    distinct = λ w v c d ne h. absurd (cc h);
  }
  Reachable-IsSafe (Reachable.next before step) = Step-IsSafe step (Reachable-IsSafe before)

-- In every state that claims, renewals, releases, ends of runs, retries by an admin, crashes, arrivals
-- and deletions reach, from a table with unique keys on which no worker has a claim, no row is owned
-- by the claims of two different workers; if the times of the writes are in their order, and a renewal
-- and a retry by an admin are later than the writes before.
pub workers-disjoint :
    (settings : Settings) (s : System)
    → Reachable settings s
    → (w v : ℕ) (c d : Claim) → w ≢ v
    → s.slots w ≡ some c
    → s.slots v ≡ some d
    → (r : Row) → (owns c r && owns d r) ≡ false
workers-disjoint settings s reach w v c d ne hw hv r = elim (Bool-cases (owns c r)) [
  | inr free ↦ rw free refl
  | inl mine ↦ elim (Bool-cases (owns d r)) [
    | inr free ↦ rw mine (rw free refl)
    | inl yours ↦
        let safe = Reachable-IsSafe settings reach in
        absurd (
          safe.distinct w v c d ne hw hv (sym (owns-NamesId c r mine) ∙ owns-NamesId d r yours)
            (sym (owned-is c r mine).3 ∙ (owned-is d r yours).3))
  ]
]
