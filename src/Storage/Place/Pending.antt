-- ===== src/Storage/Place/Pending.antt =====
-- placeInPending of services/storagePlacementService.js: one file of a sender is held once.
use mathlib.Core.List.{Memᴰ}
use emlynk_wabot.Prelude.{
  ℕ, ◌≡◌, ◌≢◌, ◌⊎◌, inl, inr, Bool, true, false, ◌&&◌, not, Option, none, some, List, [], ◌∷◌, Text,
  text_eq, text_eq_iff, any, is_some, All, All-map, arith, refl, ◌∙◌, Bool-cases,
}
use emlynk_wabot.Placement.{Place, Decision}
use emlynk_wabot.Queue.Table.{Row}
use emlynk_wabot.Storage.Documents.{Document}
use emlynk_wabot.Storage.Copy.{CopyResult, copy_to_free_name}
use emlynk_wabot.Storage.World.{Bucket, World, placement_port}
use emlynk_wabot.Storage.Place.{
  Context, PlaceResult, is_sha, known_duplicate, find_pending_duplicate, pending_result,
  place_in_pending,
}

-- The row of another submission of the sender, with the same file, that is held in pending/.
abbrev pub IsHeldAlready : Text → Text → Text → Row → Type 0
IsHeldAlready number sha id r =
    (r.whatsapp_number ≡ number)
    × (r.file_sha256 ≡ some sha)
    × (r.temporary_id ≢ id)
    × (r.pending_storage_path ≢ none)

abbrev is_held : Text → Text → Text → Row → Bool
is_held number sha id r =
    text_eq r.whatsapp_number number
    && is_sha r.file_sha256 sha
    && not (text_eq r.temporary_id id)
    && is_some r.pending_storage_path

sha-same : (o : Option Text) (sha : Text) → is_sha o sha ≡ true → o ≡ some sha
sha-same none sha h = absurd (cc h)
sha-same (some s) sha h = let e = (text_eq_iff s sha).0 h in cc e

same-sha : (o : Option Text) (sha : Text) → o ≡ some sha → is_sha o sha ≡ true
same-sha none sha h = absurd (cc h)
same-sha (some s) sha h = (text_eq_iff s sha).1 (cc h)

some-present : (o : Option Text) → o ≢ none → is_some o ≡ true
some-present none h = absurd (h refl)
some-present (some x) h = refl

present-some : (o : Option Text) → is_some o ≡ true → o ≢ none
present-some none h = λ _. cc h
present-some (some x) h = λ e. cc e

held-IsHeldAlready :
    (number sha id : Text) (r : Row)
    → is_held number sha id r ≡ true
    → IsHeldAlready number sha id r
held-IsHeldAlready number sha id r h = (
  (text_eq_iff r.whatsapp_number number).0 (ground (arith, h)),
  sha-same r.file_sha256 sha (ground (arith, h)),
  λ e.
      let same = (text_eq_iff r.temporary_id id).1 e in
      let n : (text_eq r.temporary_id id) ≡ false = ground (arith, h) in cc (same, n),
  present-some r.pending_storage_path (ground (arith, h)),
)

IsHeldAlready-held :
    (number sha id : Text) (r : Row)
    → IsHeldAlready number sha id r
    → is_held number sha id r ≡ true
IsHeldAlready-held number sha id r (sender, file, other, path) =
    let a = (text_eq_iff r.whatsapp_number number).1 sender in
    let b = same-sha r.file_sha256 sha file in
    let d = some-present r.pending_storage_path path in
    elim (Bool-cases (text_eq r.temporary_id id)) [
      | inl same ↦ absurd (other ((text_eq_iff r.temporary_id id).0 same))
      | inr c ↦ rw a (rw b (rw c d))
    ]

any-Mem :
    (p : Row → Bool) (rows : List Row) → any p rows ≡ true → (r : Row) × Memᴰ r rows × (p r ≡ true)
any-Mem p [] h = absurd (cc h)
any-Mem p (r ∷ rest) h = elim (Bool-cases (p r)) [
  | inl hit ↦ (r, Memᴰ.head refl, hit)
  | inr miss ↦ let (s, there, hit) = any-Mem p rest (rw miss at h) in (s, Memᴰ.tail there, hit)
]

any-All : (p : Row → Bool) (rows : List Row) → any p rows ≡ false → All (λ r. p r ≡ false) rows
any-All p [] h = tt
any-All p (r ∷ rest) h = (ground (arith, h), any-All p rest (ground (arith, h)))

asks-any :
    (rows : List Row) (number sha id : Text)
    → number ≢ []
    → sha ≢ []
    → find_pending_duplicate rows number sha id ≡ any (is_held number sha id) rows
unfolding find_pending_duplicate
asks-any rows [] sha id sender file = absurd (sender refl)
asks-any rows (c ∷ number) [] id sender file = absurd (file refl)
asks-any rows (c ∷ number) (d ∷ sha) id sender file = refl

module _ {ℓ κ} {B : Type ℓ} {Content : Type κ} (ops : Bucket B Content) (clock : ℕ → ℕ)
    (fails : Document → Bool) (decision : Decision) (context : Context) (w : World B) where
  abbrev pub copied : World B × CopyResult
  copied =
      copy_to_free_name (placement_port ops clock context.filing.file_sha256)
        context.filing.temporary_storage_path (context.pending_folder decision.pending_owner)
        context.pending_name 1 w

  -- A placement in pending/, with the decided status and the path of the copy; or a lost claim or an
  -- error of the copy.
  abbrev pub IsHeldNow : PlaceResult → Type 0
  IsHeldNow (PlaceResult.done p) =
      (p.placement ≡ Place.pending)
      × (p.processing_status ≡ decision.processing_status)
      × ((path : Text) × (n : ℕ) × (reused : Bool) × (copied.1 ≡ CopyResult.placed path n reused)
          × (p.pending_storage_path ≡ some path))
  IsHeldNow PlaceResult.claim_lost = copied.1 ≡ CopyResult.claim_lost
  IsHeldNow PlaceResult.failed =
      (copied.1 ≡ CopyResult.storage_error) ⊎ (copied.1 ≡ CopyResult.no_free_name)

  pending-IsHeldNow :
      (c : CopyResult)
      → copied.1 ≡ c
      → IsHeldNow (pending_result ops clock fails decision context c)
  pending-IsHeldNow (CopyResult.placed path n reused) e = (refl, refl, (path, n, reused, e, refl))
  pending-IsHeldNow CopyResult.claim_lost e = e
  pending-IsHeldNow CopyResult.storage_error e = inl e
  pending-IsHeldNow CopyResult.no_free_name e = inr e

-- For a sender and a checksum that are not empty: when another submission of the sender with the same
-- file is held in pending/, the file is reported as a duplicate and nothing is changed; when there is
-- none, the file is copied, and reported as held with the decided status and the path of the copy,
-- unless the copy ends with a lost claim or an error.
pub place_in_pending-once {ℓ κ} :
    {B : Type ℓ} {Content : Type κ} (ops : Bucket B Content) (clock : ℕ → ℕ)
    (fails : Document → Bool) (decision : Decision) (context : Context) (w : World B)
    → context.whatsapp_number ≢ []
    → context.filing.file_sha256 ≢ []
    → ((r : Row) × Memᴰ r w.rows
        × IsHeldAlready context.whatsapp_number context.filing.file_sha256 context.temporary_id r
        × (place_in_pending ops clock fails decision context w
            ≡ (w, PlaceResult.done known_duplicate)))
      ⊎ (All
            (λ r.
              ¬ IsHeldAlready context.whatsapp_number context.filing.file_sha256
                context.temporary_id r)
            w.rows
          × ((place_in_pending ops clock fails decision context w).0
              ≡ (copied ops clock fails decision context w).0)
          × IsHeldNow ops clock fails decision context w
              (place_in_pending ops clock fails decision context w).1)
unfolding place_in_pending
place_in_pending-once ops clock fails decision context w sender file =
    let number = context.whatsapp_number in
    let sha = context.filing.file_sha256 in
    let id = context.temporary_id in
    let asks = asks-any w.rows number sha id sender file in
    elim (Bool-cases (any (is_held number sha id) w.rows)) [
      | inl twice ↦
          let (r, there, held) = any-Mem (is_held number sha id) w.rows twice in
          inl (
            r,
            there,
            held-IsHeldAlready number sha id r held,
            rw (place_in_pending, asks ∙ twice) refl,
          )
      | inr first ↦ inr (
        All-map (λ r. is_held number sha id r ≡ false) (λ r. ¬ IsHeldAlready number sha id r) w.rows
            (λ r free h. cc (free, IsHeldAlready-held number sha id r h))
            (any-All (is_held number sha id) w.rows first),
        rw (place_in_pending, asks ∙ first) refl,
        rw (place_in_pending, asks ∙ first)
            (pending-IsHeldNow ops clock fails decision context w _ refl),
      )
    ]
