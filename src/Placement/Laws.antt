-- ===== src/Placement/Laws.antt =====
-- services/storagePlacementService.js: the branches of decidePlacement.
use emlynk_wabot.Prelude.{◌≡◌, ◌≢◌, ◌↔◌, true, false, some, arith}
use emlynk_wabot.Placement.Types.{ChecksumOutcome, Place, ProcessingStatus, Request}
use emlynk_wabot.Placement.{
  decide_placement, is_cross_client, needs_person, is_client_band, has_client_folder,
}

-- Everything that a new file must meet to enter a client folder.
pub record IsFilable (r : Request) : Type 0 where
  pub not_duplicate : r.checksum_outcome ≢ some ChecksumOutcome.duplicate
  pub not_shared : r.checksum_outcome ≢ some ChecksumOutcome.cross_client_conflict
  pub usable : needs_person r.processing_status ≡ false
  pub cleared : r.review_blocked ≡ false
  pub identified : r.client_identified ≡ true
  pub typed : has_client_folder r.document_type ≡ true
  pub readable : is_client_band r.band ≡ true
  pub first_verified : r.verified_of_type_exists ≡ false

pub client-IsFilable :
    (r : Request)
    → (decide_placement r).placement ≡ Place.client
    → (decide_placement r).already_stored ≡ false
    → IsFilable r
unfolding decide_placement
client-IsFilable r h n = record {
  not_duplicate = ground arith;
  not_shared = ground arith;
  usable = ground arith;
  cleared = ground arith;
  identified = ground arith;
  typed = ground arith;
  readable = ground arith;
  first_verified = ground arith;
}

-- The decision "already stored" is made exactly for a checksum that says so.
pub already_stored_iff :
    (r : Request)
    → ((decide_placement r).already_stored ≡ true)
      ↔ (r.checksum_outcome ≡ some ChecksumOutcome.already_stored)
unfolding decide_placement
already_stored_iff r = ground arith

-- What holds of a request that nothing keeps out of the client folder.
pub record IsOpen (r : Request) : Type 0 where
  pub own_file : is_cross_client r.checksum_outcome ≡ false
  pub usable : needs_person r.processing_status ≡ false
  pub cleared : r.review_blocked ≡ false
  pub identified : r.client_identified ≡ true
  pub typed : has_client_folder r.document_type ≡ true
  pub readable : is_client_band r.band ≡ true
  pub first_verified : r.verified_of_type_exists ≡ false

-- An open request waits in pending/ only as a copy of a verified document.
pub open-pending :
    (r : Request)
    → IsOpen r
    → (decide_placement r).placement ≡ Place.pending
    → ((decide_placement r).processing_status ≡ ProcessingStatus.duplicate)
      × (r.duplicate_of_verified ≡ true)
unfolding decide_placement
open-pending r o h = ground arith

pub pending-duplicate :
    (r : Request)
    → (decide_placement r).placement ≡ Place.pending
    → r.processing_status ≢ ProcessingStatus.duplicate
    → (decide_placement r).processing_status ≡ ProcessingStatus.duplicate
    → r.duplicate_of_verified ≡ true
unfolding decide_placement
pending-duplicate r h n d = ground arith
