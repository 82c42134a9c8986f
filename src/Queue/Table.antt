-- ===== src/Queue/Table.antt =====
-- The rows of temporary_data, as far as the queue reads and writes them, and `updateMany`.
use emlynk_wabot.Prelude.{
  ℕ, suc, ◌≤◌, ◌≡◌, ◌≢◌, Bool, true, false, Option, List, [], ◌∷◌, Text, All, arith, if◌then◌else◌,
  refl, sym, subst, ◌∙◌, All-map, All-keep, keep, Bool-cases, inl, inr,
}
use emlynk_wabot.Placement.{ProcessingStatus}
use emlynk_wabot.Review.Reasons.{ReviewReason}

-- processing_status: RECEIVED_STATUS (TEMPORARY_STORED), or a status of the pipeline.
pub data RowStatus : Type 0 where
  received : RowStatus
  finished : ProcessingStatus → RowStatus

abbrev pub is_received : RowStatus → Bool
is_received RowStatus.received = true
is_received (RowStatus.finished s) = false

pub record Row : Type 0 where
  pub temporary_id : Text
  pub whatsapp_number : Text
  pub temporary_storage_path : Text
  pub file_sha256 : Option Text
  pub status : RowStatus
  pub attempts : ℕ
  pub started_at : Option ℕ
  pub created_date : ℕ
  pub placement_path : Option Text
  pub pending_storage_path : Option Text
  pub review_reason : Option ReviewReason

-- updateMany({ where, data }): the table after it, and `count`
unfoldable pub update_many : (Row → Bool) → (Row → Row) → List Row → List Row × ℕ
update_many where_ change [] = ([], 0)
update_many where_ change (r ∷ rest) =
    let (rows, count) = update_many where_ change rest in
    if where_ r then (change r ∷ rows, suc count) else (r ∷ rows, count)

-- temporary_id is the primary key.
abbrev pub HasUniqueIds : List Row → Type 0
HasUniqueIds [] = Unit
HasUniqueIds (r ∷ rest) = All (λ s. r.temporary_id ≢ s.temporary_id) rest × HasUniqueIds rest

-- No row matches: nothing is written.
pub update_many-zero :
    (p : Row → Bool) (f : Row → Row) (rows : List Row)
    → (update_many p f rows).1 ≡ 0
    → (update_many p f rows).0 ≡ rows
unfolding update_many
update_many-zero p f [] h = refl
update_many-zero p f (r ∷ rest) h = ground (arith, update_many-zero p f rest)

-- A condition that names a key matches one row at most.
abbrev pub NamesId : Text → (Row → Bool) → Type 0
NamesId id p = (r : Row) → p r ≡ true → r.temporary_id ≡ id

none-match :
    (id : Text) (p : Row → Bool) (f : Row → Row) (rows : List Row)
    → NamesId id p
    → All (λ s. id ≢ s.temporary_id) rows
    → (update_many p f rows).1 ≡ 0
unfolding update_many
none-match id p f [] n h = refl
none-match id p f (r ∷ rest) n (other, h) = elim (Bool-cases (p r)) [
  | inl hit ↦ absurd (other (sym (n r hit)))
  | inr miss ↦ rw miss (none-match id p f rest n h)
]

pub update_many-le-one :
    (id : Text) (p : Row → Bool) (f : Row → Row) (rows : List Row)
    → NamesId id p
    → HasUniqueIds rows
    → (update_many p f rows).1 ≤ 1
unfolding update_many
update_many-le-one id p f [] n u = omega arith
update_many-le-one id p f (r ∷ rest) n (fresh, u) = elim (Bool-cases (p r)) [
  | inl hit ↦ rw hit (
      omega (
        arith,
        none-match id p f rest n (subst (λ i. All (λ s. i ≢ s.temporary_id) rest) (n r hit) fresh),
      ))
  | inr miss ↦ rw miss (update_many-le-one id p f rest n u)
]

-- What an update makes of a predicate on the rows.
pub All-update_many {ℓ κ} :
    (P : Row → Type ℓ) (Q : Row → Type κ) (p : Row → Bool) (f : Row → Row) (rows : List Row)
    → ((r : Row) → P r → p r ≡ false → Q r)
    → ((r : Row) → P r → p r ≡ true → Q (f r))
    → All P rows
    → All Q (update_many p f rows).0
unfolding update_many
All-update_many P Q p f [] keep hit h = tt
All-update_many P Q p f (r ∷ rest) keep hit (h, hs) = elim (Bool-cases (p r)) [
  | inl yes_ ↦ rw yes_ (hit r h yes_, All-update_many P Q p f rest keep hit hs)
  | inr no_ ↦ rw no_ (keep r h no_, All-update_many P Q p f rest keep hit hs)
]

-- A counted row can be shown.
pub found_row {ℓ} :
    (P : Row → Type ℓ) (p : Row → Bool) (f : Row → Row) (rows : List Row)
    → All P rows
    → 1 ≤ (update_many p f rows).1
    → (r : Row) × P r × (p r ≡ true)
unfolding update_many
found_row P p f [] h n = absurd (omega arith)
found_row P p f (r ∷ rest) (h, hs) n = elim (Bool-cases (p r)) [
  | inl yes_ ↦ (r, h, yes_)
  | inr no_ ↦ found_row P p f rest hs (rw no_ at n)
]

-- The row that a condition on a key has matched is the only row with that key.
pub others-differ :
    (id : Text) (p : Row → Bool) (f : Row → Row) (rows : List Row)
    → NamesId id p
    → HasUniqueIds rows
    → 1 ≤ (update_many p f rows).1
    → All (λ r. p r ≡ false → r.temporary_id ≢ id) rows
unfolding update_many
others-differ id p f [] names u n = tt
others-differ id p f (r ∷ rest) names (fresh, u) n = elim (Bool-cases (p r)) [
  | inl yes_ ↦ (
    λ no_. cc (yes_, no_),
    All-map (λ s. r.temporary_id ≢ s.temporary_id) (λ s. p s ≡ false → s.temporary_id ≢ id) rest
        (λ s d _ e. d (names r yes_ ∙ sym e)) fresh,
  )
  | inr no_ ↦
      let (s, differs, hit) =
        found_row (λ s. r.temporary_id ≢ s.temporary_id) p f rest fresh (rw no_ at n) in
      (λ _ e. differs (e ∙ sym (names s hit)), others-differ id p f rest names u (rw no_ at n))
]

-- An update that keeps the keys keeps them unique.
pub update_many-HasUniqueIds :
    (p : Row → Bool) (f : Row → Row) (rows : List Row)
    → ((r : Row) → (f r).temporary_id ≡ r.temporary_id)
    → HasUniqueIds rows
    → HasUniqueIds (update_many p f rows).0
unfolding update_many
update_many-HasUniqueIds p f [] same u = tt
update_many-HasUniqueIds p f (r ∷ rest) same (fresh, u) =
    let later = update_many-HasUniqueIds p f rest same u in
    let apart =
      All-update_many (λ s. r.temporary_id ≢ s.temporary_id) (λ s. r.temporary_id ≢ s.temporary_id)
        p f rest (λ s d _. d) (λ s d _ e. d (e ∙ same s)) fresh in
    elim (Bool-cases (p r)) [
      | inl yes_ ↦ rw yes_ (
        subst (λ i. All (λ s. i ≢ s.temporary_id) (update_many p f rest).0) (sym (same r)) apart,
        later,
      )
      | inr no_ ↦ rw no_ (apart, later)
    ]

pub keep-HasUniqueIds :
    (p : Row → Bool) (rows : List Row) → HasUniqueIds rows → HasUniqueIds (keep p rows)
keep-HasUniqueIds p [] u = tt
keep-HasUniqueIds p (r ∷ rest) (fresh, u) = elim (Bool-cases (p r)) [
  | inl kept ↦
      rw kept
        (All-keep (λ s. r.temporary_id ≢ s.temporary_id) p rest fresh, keep-HasUniqueIds p rest u)
  | inr dropped ↦ rw dropped (keep-HasUniqueIds p rest u)
]
