-- ===== src/Storage/World.antt =====
-- The bucket and the two tables that filing writes, and the worker's claim: placementRecovery.js and
-- the hooks that copying runs.
use emlynk_wabot.Prelude.{
  ℕ, suc, Bool, true, false, ◌&&◌, ◌||◌, not, Option, none, some, List, Text, text_eq, any,
  is_truthy,
}
use emlynk_wabot.Queue.Table.{Row}
use emlynk_wabot.Queue.Claims.{Claim, renew}
use emlynk_wabot.Storage.Documents.{Document}
use emlynk_wabot.Storage.Copy.{Exists, Copied, Port}

-- The calls of the bucket: `remove` is false for an error, `download` none for an error or no data.
pub record Bucket {ℓ κ} (B : Type ℓ) (Content : Type κ) : Type (ℓ ⊔ κ) where
  pub exists : Text → B → Exists
  pub copy : Text → Text → B → B × Copied
  pub remove : Text → B → B × Bool
  pub download : Text → B → Option Content
  pub sha256_hex : Content → Text

-- `held` is the claim as its closure holds it, none for a caller without one; `calls` counts the
-- calls of the clock.
pub record World {ℓ} (B : Type ℓ) : Type ℓ where
  pub bucket : B
  pub documents : List Document
  pub rows : List Row
  pub held : Option Claim
  pub calls : ℕ

-- `equals` on a nullable column
abbrev is_text : Option Text → Text → Bool
is_text none t = false
is_text (some s) t = text_eq s t

abbrev pub refers : Text → List Document → Bool
refers path documents = any (λ (d : Document). text_eq d.storage_path path) documents

-- Another submission that refers to the path.
abbrev names_path : Text → Text → List Row → Bool
names_path id path rows =
    any
      (λ (r : Row).
        not (text_eq r.temporary_id id)
        && (is_text r.pending_storage_path path || is_text r.placement_path path))
      rows

module _ {ℓ κ} {B : Type ℓ} {Content : Type κ} (ops : Bucket B Content) (clock : ℕ → ℕ) where
  -- claim.renew, which no claim passes; false is ClaimLostError
  unfoldable pub renew_held : Option Text → World B → World B × Bool
  renew_held path w = elim w.held [
    | none ↦ (w, true)
    | some c ↦
        let (rows, held) = renew (clock w.calls) path c w.rows in
        elim held [
          | none ↦ (record w { rows = rows; calls = suc w.calls }, false)
          | some c' ↦ (record w { rows = rows; held = some c'; calls = suc w.calls }, true)
        ]
  ]

  -- The object is this submission's file.
  abbrev is_file : Text → Text → World B → Bool
  is_file sha path w = elim (ops.download path w.bucket) [
    | none ↦ false
    | some data_ ↦ text_eq (ops.sha256_hex data_) sha
  ]

  -- isOwnEarlierCopy
  unfoldable pub is_own_earlier_copy : Text → Text → World B → Bool
  is_own_earlier_copy sha path w = elim w.held [
    | none ↦ false
    | some c ↦
        is_truthy c.earlier_placement_path
        && is_text c.earlier_placement_path path
        && is_truthy (some sha)
        && not (refers path w.documents)
        && not (names_path c.temporary_id path w.rows)
        && is_file sha path w
  ]

  -- placementCopyHooks, with the bucket's calls on the world
  unfoldable pub placement_port : Text → Port (World B)
  unfolding renew_held is_own_earlier_copy
  placement_port sha = record {
    exists = λ path w. ops.exists path w.bucket;
    copy = λ from to w.
        let (bucket, answer) = ops.copy from to w.bucket in (record w { bucket = bucket }, answer);
    before_copy = λ path w. renew_held (some path) w;
    reuse_existing = λ path w. is_own_earlier_copy sha path w;
  }
