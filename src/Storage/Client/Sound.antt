-- ===== src/Storage/Client/Sound.antt =====
-- A state of services/clientDocumentService.js while a document is filed: the documents on record and
-- their objects stay.
use emlynk_wabot.Prelude.{
  ℕ, ◌≡◌, ◌≢◌, true, Option, none, some, Text, is_some, arith, sym, ◌∙◌, subst,
}
use emlynk_wabot.Storage.Copy.{Copied}
use emlynk_wabot.Storage.World.{Bucket, World, refers, renew_held, placement_port}

-- What the code relies on of the bucket: a copy never replaces an object, one that succeeds has made
-- the same object under a name that had none, and removing an object keeps the others.
pub record IsBucket {ℓ κ} {B : Type ℓ} {Content : Type κ} (ops : Bucket B Content)
    (object : B → Text → Option Content) : Type (ℓ ⊔ κ) where
  pub copy_keeps :
      (from to path : Text) (b : B) (x : Content)
      → object b path ≡ some x
      → object (ops.copy from to b).0 path ≡ some x
  pub copy_makes :
      (from to : Text) (b : B)
      → (ops.copy from to b).1 ≡ Copied.copied
      → (object b to ≡ none) × (object (ops.copy from to b).0 to ≡ object b from)
  pub remove_others :
      (path other : Text) (b : B)
      → path ≢ other
      → object (ops.remove path b).0 other ≡ object b other

module _ {ℓ κ} {B : Type ℓ} {Content : Type κ} (ops : Bucket B Content)
    (object : B → Text → Option Content) (laws : IsBucket ops object) (clock : ℕ → ℕ) where
  abbrev pub object_in : World B → Text → Option Content
  object_in w path = object w.bucket path

  -- A renewal writes neither the bucket nor the documents, and a claim stays a claim.
  pub renew-same :
      (path : Option Text) (w : World B)
      → (((renew_held ops clock path w).0).bucket ≡ w.bucket)
        × (((renew_held ops clock path w).0).documents ≡ w.documents)
        × (is_some (((renew_held ops clock path w).0).held) ≡ is_some w.held)
  unfolding renew_held
  renew-same path w = ground arith

  -- A state of filing from `v` on: the same documents, every object, and a claim.
  pub record IsSound (v w : World B) : Type (ℓ ⊔ κ) where
    pub documents : w.documents ≡ v.documents
    pub claimed : is_some w.held ≡ true
    pub kept : (path : Text) (x : Content) → object_in v path ≡ some x → object_in w path ≡ some x

  pub renew-IsSound :
      (path : Option Text) (v w : World B) → IsSound v w → IsSound v (renew_held ops clock path w).0
  renew-IsSound path v w sound =
      let (bucket, documents, held) = renew-same path w in
      record {
        documents = documents ∙ sound.documents;
        claimed = held ∙ sound.claimed;
        kept = λ q x h. subst (λ b. object b q ≡ some x) (sym bucket) (sound.kept q x h);
      }

  pub copy-IsSound :
      (sha from to : Text) (v w : World B)
      → IsSound v w
      → IsSound v ((placement_port ops clock sha).copy from to w).0
  unfolding placement_port
  copy-IsSound sha from to v w sound = record {
    documents = sound.documents;
    claimed = sound.claimed;
    kept = λ q x h. laws.copy_keeps from to q w.bucket x (sound.kept q x h);
  }

  pub hook-IsSound :
      (sha to : Text) (v w : World B)
      → IsSound v w
      → IsSound v ((placement_port ops clock sha).before_copy to w).0
  unfolding placement_port
  hook-IsSound sha to v w sound = renew-IsSound (some to) v w sound

  -- The objects of documents on record.
  abbrev pub IsSafe : World B → World B → Type κ
  IsSafe v w =
      (path : Text) (x : Content)
      → refers path v.documents ≡ true
      → object_in v path ≡ some x
      → object_in w path ≡ some x
