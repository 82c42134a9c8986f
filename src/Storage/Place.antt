-- ===== src/Storage/Place.antt =====
-- services/storagePlacementService.js: placeDocument and placeInPending; and findPendingDuplicate of
-- services/documentChecksumService.js. The pending folder and its names are arguments.
pub mod Laws
pub mod Pending
use emlynk_wabot.Prelude.{
  ℕ, ◌≡◌, ◌⊎◌, inl, inr, Bool, true, false, not, ◌&&◌, ◌||◌, Option, none, some, List, [], ◌∷◌,
  Text, text_eq, any, is_some, is_truthy, if◌then◌else◌, arith, refl, sym, Bool-cases,
}
use emlynk_wabot.Placement.{Place, ProcessingStatus, Decision}
use emlynk_wabot.Queue.Table.{Row}
use emlynk_wabot.Storage.Documents.{Document, VerificationStatus}
use emlynk_wabot.Storage.Copy.{CopyResult, copy_to_free_name}
use emlynk_wabot.Storage.World.{Bucket, World, placement_port}
use emlynk_wabot.Storage.Client.{Filing, StoreResult, store_client_document}

-- The arguments beyond those of storeClientDocument.
pub record Context : Type 0 where
  pub filing : Filing
  pub whatsapp_number : Text
  pub temporary_id : Text
  pub existing_document : Option Document
  pub pending_folder : Option Text → Text
  pub pending_name : ℕ → Text

pub record Placed : Type 0 where
  pub placement : Place
  pub processing_status : ProcessingStatus
  pub pending_storage_path : Option Text
  pub stored : Option (Text × VerificationStatus)

pub data PlaceResult : Type 0 where
  done : Placed → PlaceResult
  claim_lost failed : PlaceResult

abbrev pub is_sha : Option Text → Text → Bool
is_sha none sha = false
is_sha (some s) sha = text_eq s sha

-- findPendingDuplicate: whether an earlier row of the sender holds the file in pending/
unfoldable pub find_pending_duplicate : List Row → Text → Text → Text → Bool
find_pending_duplicate rows number sha temporary_id =
    is_truthy (some number)
    && is_truthy (some sha)
    && any
        (λ (r : Row).
          text_eq r.whatsapp_number number
          && is_sha r.file_sha256 sha
          && not (text_eq r.temporary_id temporary_id)
          && is_some r.pending_storage_path)
        rows

abbrev pub known_duplicate : Placed
known_duplicate = record {
  placement = Place.nowhere;
  processing_status = ProcessingStatus.duplicate;
  pending_storage_path = none;
  stored = none;
}

abbrev in_place :
    Place → ProcessingStatus → Option Text → Option (Text × VerificationStatus) → PlaceResult
in_place place status pending stored = PlaceResult.done (record {
  placement = place;
  processing_status = status;
  pending_storage_path = pending;
  stored = stored;
})

abbrev is_nowhere : Place → Bool
is_nowhere Place.nowhere = true
is_nowhere _ = false

abbrev is_pending : Place → Bool
is_pending Place.pending = true
is_pending _ = false

module _ {ℓ κ} {B : Type ℓ} {Content : Type κ} (ops : Bucket B Content) (clock : ℕ → ℕ)
    (fails : Document → Bool) (decision : Decision) (context : Context) where
  abbrev pub pending_result : CopyResult → PlaceResult
  pending_result (CopyResult.placed path n reused) =
      in_place Place.pending decision.processing_status (some path) none
  pending_result CopyResult.claim_lost = PlaceResult.claim_lost
  pending_result CopyResult.storage_error = PlaceResult.failed
  pending_result CopyResult.no_free_name = PlaceResult.failed

  unfoldable pub place_in_pending : World B → World B × PlaceResult
  place_in_pending w =
      if find_pending_duplicate w.rows context.whatsapp_number context.filing.file_sha256
        context.temporary_id
      then (w, PlaceResult.done known_duplicate)
      else (let copy =
            copy_to_free_name (placement_port ops clock context.filing.file_sha256)
              context.filing.temporary_storage_path (context.pending_folder decision.pending_owner)
              context.pending_name 1 w in
          (copy.0, pending_result copy.1))

  abbrev pub client_result : StoreResult → PlaceResult
  client_result (StoreResult.stored path status) =
      in_place Place.client decision.processing_status none (some (path, status))
  client_result StoreResult.duplicate = PlaceResult.done known_duplicate
  client_result StoreResult.claim_lost = PlaceResult.claim_lost
  client_result StoreResult.error = PlaceResult.failed
  client_result StoreResult.unstorable = PlaceResult.failed

  abbrev pub existing_result : Option Document → PlaceResult
  existing_result none = PlaceResult.failed
  existing_result (some d) =
      in_place Place.client decision.processing_status none
        (some (d.storage_path, d.verification_status))

  -- placeDocument; an existing document that is missing is an error.
  unfoldable pub place_document : World B → World B × PlaceResult
  unfolding place_in_pending
  place_document w =
      if is_nowhere decision.placement
      then (w, in_place Place.nowhere decision.processing_status none none)
      else if decision.already_stored
      then (w, existing_result context.existing_document)
      else if not (is_truthy (some context.filing.temporary_storage_path))
      then (w, PlaceResult.failed)
      else if is_pending decision.placement
      then place_in_pending w
      else (let stored = store_client_document ops clock fails context.filing w in
          (stored.0, client_result stored.1))
