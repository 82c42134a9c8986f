-- ===== src/Storage/Place/Laws.antt =====
-- What placeDocument of services/storagePlacementService.js reports.
use emlynk_wabot.Prelude.{
  ℕ, ◌≡◌, ◌⊎◌, inl, inr, Bool, true, false, Option, none, some, Text, is_truthy, arith, refl, sym,
  Bool-cases,
}
use emlynk_wabot.Placement.{Place, ProcessingStatus, Decision, Request, decide_placement}
use emlynk_wabot.Storage.Documents.{Document}
use emlynk_wabot.Storage.Copy.{CopyResult}
use emlynk_wabot.Storage.World.{Bucket, World}
use emlynk_wabot.Storage.Client.{StoreResult, store_client_document}
use emlynk_wabot.Storage.Place.{
  Context, PlaceResult, known_duplicate, find_pending_duplicate, place_in_pending, pending_result,
  client_result, existing_result, place_document,
}

module _ {ℓ κ} {B : Type ℓ} {Content : Type κ} (ops : Bucket B Content) (clock : ℕ → ℕ)
    (fails : Document → Bool) (decision : Decision) (context : Context) where
  -- What is reported is what was decided, or a duplicate that was found on the way.
  abbrev pub IsCarriedOut : PlaceResult → Type 0
  IsCarriedOut (PlaceResult.done p) =
      (p ≡ known_duplicate)
      ⊎ ((p.placement ≡ decision.placement) × (p.processing_status ≡ decision.processing_status))
  IsCarriedOut PlaceResult.claim_lost = Unit
  IsCarriedOut PlaceResult.failed = Unit

  each :
      decision.placement ≡ Place.pending
      → (c : CopyResult) → IsCarriedOut (pending_result ops clock fails decision context c)
  each e (CopyResult.placed path n reused) = inr (sym e, refl)
  each e CopyResult.claim_lost = tt
  each e CopyResult.storage_error = tt
  each e CopyResult.no_free_name = tt

  pending-IsCarriedOut :
      decision.placement ≡ Place.pending
      → (w : World B) → IsCarriedOut (place_in_pending ops clock fails decision context w).1
  unfolding place_in_pending
  pending-IsCarriedOut e w =
      elim (Bool-cases (
        find_pending_duplicate w.rows context.whatsapp_number context.filing.file_sha256
          context.temporary_id)) [
            | inl twice ↦ rw twice (inl refl)
            | inr first ↦ rw first (each e _)
          ]

  client-IsCarriedOut :
      decision.placement ≡ Place.client
      → (r : StoreResult) → IsCarriedOut (client_result ops clock fails decision context r)
  client-IsCarriedOut e (StoreResult.stored path status) = inr (sym e, refl)
  client-IsCarriedOut e StoreResult.duplicate = inl refl
  client-IsCarriedOut e StoreResult.claim_lost = tt
  client-IsCarriedOut e StoreResult.error = tt
  client-IsCarriedOut e StoreResult.unstorable = tt

  existing-IsCarriedOut :
      decision.placement ≡ Place.client
      → (d : Option Document) → IsCarriedOut (existing_result ops clock fails decision context d)
  existing-IsCarriedOut e none = tt
  existing-IsCarriedOut e (some d) = inr (sym e, refl)

already-client :
    (r : Request)
    → (decide_placement r).already_stored ≡ true
    → (decide_placement r).placement ≡ Place.client
unfolding decide_placement
already-client r h = ground arith

module _ {ℓ κ} {B : Type ℓ} {Content : Type κ} (ops : Bucket B Content) (clock : ℕ → ℕ)
    (fails : Document → Bool) (context : Context) (w : World B) where
  abbrev decided : Place → ProcessingStatus → Option Text → Bool → Decision
  decided place status owner stored = record {
    placement = place;
    processing_status = status;
    pending_owner = owner;
    already_stored = stored;
  }

  carried :
      (place : Place) (status : ProcessingStatus) (owner : Option Text) (stored : Bool)
      → (stored ≡ true → place ≡ Place.client)
      → IsCarriedOut ops clock fails
          (decided place status owner stored)
          context
          (place_document ops clock fails (decided place status owner stored) context w).1
  unfolding place_document
  carried Place.nowhere status owner stored h = inr (refl, refl)
  carried Place.client status owner true h =
      existing-IsCarriedOut ops clock fails (decided Place.client status owner true) context refl
        context.existing_document
  carried Place.client status owner false h =
      elim (Bool-cases (is_truthy (some context.filing.temporary_storage_path))) [
        | inl path ↦ rw path (
            client-IsCarriedOut ops clock fails (decided Place.client status owner false) context
              refl (store_client_document ops clock fails context.filing w).1)
        | inr no_path ↦ rw no_path tt
      ]
  carried Place.pending status owner true h = absurd (cc (h refl))
  carried Place.pending status owner false h =
      elim (Bool-cases (is_truthy (some context.filing.temporary_storage_path))) [
        | inl path ↦ rw path (
            pending-IsCarriedOut ops clock fails (decided Place.pending status owner false) context
              refl w)
        | inr no_path ↦ rw no_path tt
      ]

-- Carrying out a decision of decidePlacement, if it is not cut short by a lost claim or an error,
-- reports just that decision, or a duplicate that was found on the way.
pub place_document-IsCarriedOut {ℓ κ} :
    {B : Type ℓ} {Content : Type κ} (ops : Bucket B Content) (clock : ℕ → ℕ)
    (fails : Document → Bool) (r : Request) (context : Context) (w : World B)
    → IsCarriedOut ops clock fails
        (decide_placement r)
        context
        (place_document ops clock fails (decide_placement r) context w).1
place_document-IsCarriedOut ops clock fails r context w =
    let d = decide_placement r in
    carried ops clock fails context w d.placement d.processing_status d.pending_owner
      d.already_stored (already-client r)
