-- ===== src/Admin/Retry.antt =====
-- retryFailedSubmission and keepReviewItemPending (services/adminReviewActionService.js), done twice.
use emlynk_wabot.Prelude.{
  ℕ, ◌==◌, ◌≡◌, inl, inr, Bool, true, ◌&&◌, Option, none, some, List, [], ◌∷◌, Text, text_eq,
  text_eq_iff, any, find, find_sound, map, arith, refl, sym, subst, if◌then◌else◌, Bool-cases,
  Option-cases,
}
use emlynk_wabot.Queue.Claims.{is_claimable}
use emlynk_wabot.Storage.World.{Bucket}
use emlynk_wabot.Admin.Tables.{Item, Tables}
use emlynk_wabot.Admin.Checks.{ReviewError, ok, err, ◌>>=◌, Result-cases}
use emlynk_wabot.Admin.Filing.{Desk}
use emlynk_wabot.Admin.Removal.{is_failed_item, queued_again, requeue, retry_failed_submission}

-- A submission with the id that a worker may claim, with its full number of attempts.
abbrev pub is_queued : ℕ → ℕ → Text → Item → Bool
is_queued lease time id i =
    text_eq i.temporary_id id && i.attempts == 0 && is_claimable lease time i.row

requeued : Text → List Item → List Item
requeued id items = map (λ i. if is_failed_item id i then queued_again i else i) items

found-any :
    (q : Item → Bool) (items : List Item) {i : Item} → find q items ≡ some i → any q items ≡ true
found-any q [] h = absurd (cc h)
found-any q (j ∷ rest) {i} h = elim (Bool-cases (q j)) [
  | inl hit ↦ rw hit refl
  | inr miss ↦ let later = found-any q rest {i = i} (rw miss at h) in ground (arith, later)
]

requeued-queued :
    (lease time : ℕ) (id : Text) (items : List Item)
    → any (is_failed_item id) items ≡ true
    → any (is_queued lease time id) (requeued id items) ≡ true
unfolding requeued is_claimable
requeued-queued lease time id [] h = h
requeued-queued lease time id (i ∷ rest) h = elim (Bool-cases (is_failed_item id i)) [
  | inl hit ↦ rw hit (ground (arith, hit))
  | inr miss ↦
      let later = requeued-queued lease time id rest (rw miss at h) in
      rw miss (ground (arith, later))
]

requeued-none :
    (id : Text) (items : List Item) → find (is_failed_item id) (requeued id items) ≡ none
unfolding requeued
requeued-none id [] = refl
requeued-none id (i ∷ rest) = elim (Bool-cases (is_failed_item id i)) [
  | inl hit ↦ rw hit (ground (arith, requeued-none id rest))
  | inr miss ↦ rw miss (rw miss (requeued-none id rest))
]

failed-id :
    (id : Text) (items : List Item) {row : Item}
    → find (is_failed_item id) items ≡ some row
    → row.temporary_id ≡ id
failed-id id items {row} h =
    let hit = find_sound (is_failed_item id) items h in
    (text_eq_iff row.temporary_id id).0 (ground (arith, hit))

module _ (now : ℕ) (admin_id : Text) (reason : Option Text) where
  requeue-items :
      (id : Text) (t : Tables) {u : Tables}
      → requeue now admin_id reason id t ≡ ok u
      → (any (is_failed_item id) t.items ≡ true) × (u.items ≡ requeued id t.items)
  unfolding requeue requeued ◌>>=◌
  requeue-items id t {u} h = elim (Option-cases (find (is_failed_item id) t.items)) [
    | inl gone ↦ absurd (ground (arith, gone))
    | inr (row, found) ↦
        let e : u.items
            ≡ map (λ i. if is_failed_item row.temporary_id i then queued_again i else i) t.items =
          ground (arith, found) in
        (
          found-any (is_failed_item id) t.items found,
          subst (λ j. u.items ≡ map (λ i. if is_failed_item j i then queued_again i else i) t.items)
              (failed-id id t.items found) e,
        )
  ]

  requeue-twice :
      (id : Text) (t : Tables) {u : Tables}
      → requeue now admin_id reason id t ≡ ok u
      → (later : ℕ) (other : Text) (why : Option Text)
      → requeue later other why id u ≡ err ReviewError.not_failed
  unfolding requeue ◌>>=◌
  requeue-twice id t {u} h later other why =
      let none_left : find (is_failed_item id) u.items ≡ none =
        subst (λ l. find (is_failed_item id) l ≡ none) (sym (requeue-items id t h).1)
          (requeued-none id t.items) in
      ground (arith, none_left)

module _ {ℓ κ} {B : Type ℓ} {Content : Type κ} (ops : Bucket B Content) (now : ℕ) (admin_id : Text)
    (reason : Option Text) where
  retry-requeue :
      (id : Text) (reads : Desk B) (t : Tables) {u : Tables}
      → retry_failed_submission ops now admin_id reason id reads t ≡ ok u
      → requeue now admin_id reason id t ≡ ok u
  unfolding retry_failed_submission ◌>>=◌
  retry-requeue id reads t h = ground arith

  retry-refused :
      (id : Text) (reads : Desk B) (t : Tables) {e : ReviewError}
      → requeue now admin_id reason id t ≡ err e
      → (d : ReviewError) × (retry_failed_submission ops now admin_id reason id reads t ≡ err d)
  retry-refused id reads t h =
      elim (Result-cases (retry_failed_submission ops now admin_id reason id reads t)) [
        | inr refused ↦ refused
        | inl (u, done) ↦ absurd (cc (retry-requeue id reads t done, h))
      ]

module _ {ℓ κ} {B : Type ℓ} {Content : Type κ} (ops : Bucket B Content) (now : ℕ) (admin_id : Text)
    (reason : Option Text) where
  -- A failed submission that is retried can be claimed by a worker at any time, for any lease, with
  -- no attempt counted; and a second retry of it, whoever makes it and whatever it has read before,
  -- is refused.
  pub retry-once :
      (id : Text) (reads : Desk B) (t u : Tables)
      → retry_failed_submission ops now admin_id reason id reads t ≡ ok u
      → (lease time later : ℕ) (other : Text) (why : Option Text) (reads_later : Desk B)
      → (any (is_queued lease time id) u.items ≡ true)
        × ((e : ReviewError) × (retry_failed_submission ops later other why id reads_later u
              ≡ err e))
  retry-once id reads t u h lease time later other why reads_later =
      let queued = retry-requeue ops now admin_id reason id reads t h in
      let (failed, items) = requeue-items now admin_id reason id t queued in
      (
        rw items (requeued-queued lease time id t.items failed),
        retry-refused ops later other why id reads_later u
            (requeue-twice now admin_id reason id t queued later other why),
      )
