-- ===== src/Queue/Selection.antt =====
-- Which submission claimNextSubmission of services/submissionQueue.js takes.
use emlynk_wabot.Prelude.{
  ℕ, ◌+◌, ◌≤◌, ◌<◌, ◌≡◌, true, false, none, some, List, [], ◌∷◌, ◌⊎◌, All, All-map, subst, inl, inr,
  Bool-cases, Option-cases,
}
use emlynk_wabot.Queue.Table.{Row, RowStatus}
use emlynk_wabot.Queue.Claims.{text_ltb, is_claimable, is_before, find_candidate}
use emlynk_wabot.Queue.Order.{is_before-asym, is_before-between}

-- No claimable row of the table comes before it.
abbrev pub IsOldest : ℕ → ℕ → List Row → Row → Type 0
IsOldest lease now rows r = All (λ s. is_claimable lease now s ≡ true → is_before s r ≡ false) rows

none-claimable :
    (lease now : ℕ) (rows : List Row)
    → find_candidate lease now rows ≡ none
    → All (λ s. is_claimable lease now s ≡ false) rows
unfolding find_candidate
none-claimable lease now [] h = tt
none-claimable lease now (s ∷ rest) h = elim (Bool-cases (is_claimable lease now s)) [
  | inl can ↦ let e : some _ ≡ none = rw can at h in absurd (cc e)
  | inr cannot ↦ (cannot, none-claimable lease now rest (rw cannot at h))
]

irreflexive : (s : Row) → is_before s s ≡ false
irreflexive s = elim (Bool-cases (is_before s s)) [ inl e ↦ is_before-asym s s e | inr e ↦ e ]

-- The row that is found can be claimed, and no claimable row of the table is older (by time received,
-- then by key).
pub find_candidate-IsOldest :
    (lease now : ℕ) (rows : List Row) (r : Row)
    → find_candidate lease now rows ≡ some r
    → (is_claimable lease now r ≡ true) × IsOldest lease now rows r
unfolding find_candidate
find_candidate-IsOldest lease now [] r h = absurd (cc h)
find_candidate-IsOldest lease now (s ∷ rest) r h = elim (Bool-cases (is_claimable lease now s)) [
  | inr cannot ↦
      let (can, oldest) = find_candidate-IsOldest lease now rest r (rw cannot at h) in
      (can, ((λ e. absurd (cc (e, cannot))), oldest))
  | inl can ↦ elim (Option-cases (find_candidate lease now rest)) [
    | inl empty ↦
        let e : some s ≡ some r = rw empty at (rw can at h) in
        let same : s ≡ r = cc e in
        subst (λ x. (is_claimable lease now x ≡ true) × IsOldest lease now (s ∷ rest) x) same
          (
            can,
            (
              (λ _. irreflexive s),
              All-map (λ x. is_claimable lease now x ≡ false)
                  (λ x. is_claimable lease now x ≡ true → is_before x s ≡ false) rest
                  (λ x no e. absurd (cc (e, no))) (none-claimable lease now rest empty),
            ),
          )
    | inr (b, found) ↦
        let (can_b, oldest) = find_candidate-IsOldest lease now rest b found in
        elim (Bool-cases (is_before b s)) [
          | inl before ↦
              let e : some b ≡ some r = rw before at (rw found at (rw can at h)) in
              let same : b ≡ r = cc e in
              subst (λ x. (is_claimable lease now x ≡ true) × IsOldest lease now (s ∷ rest) x) same
                (can_b, ((λ _. is_before-asym b s before), oldest))
          | inr after ↦
              let e : some s ≡ some r = rw after at (rw found at (rw can at h)) in
              let same : s ≡ r = cc e in
              subst (λ x. (is_claimable lease now x ≡ true) × IsOldest lease now (s ∷ rest) x) same
                (
                  can,
                  (
                    (λ _. irreflexive s),
                    All-map (λ x. is_claimable lease now x ≡ true → is_before x b ≡ false)
                        (λ x. is_claimable lease now x ≡ true → is_before x s ≡ false) rest
                        (λ x least can_x. is_before-between x b s (least can_x) after) oldest,
                  ),
                )
        ]
  ]
]

-- Received no later than s, and of two that were received together the one with the lesser key.
abbrev pub IsNotAfter : Row → Row → Type 0
IsNotAfter c s =
    (c.created_date ≤ s.created_date)
    × (c.created_date ≡ s.created_date → text_ltb s.temporary_id c.temporary_id ≡ false)

-- Waiting, and never claimed or with a lease that has run out.
abbrev pub IsWaiting : ℕ → ℕ → Row → Type 0
IsWaiting lease now r =
    (r.status ≡ RowStatus.received)
    × ((r.started_at ≡ none) ⊎ ((t : ℕ) × (r.started_at ≡ some t) × (t + lease < now)))
