-- ===== src/Placement/Types.antt =====
-- Statuses and outcomes: services/documentProcessingService.js, services/documentChecksumService.js
-- and services/storagePlacementService.js.
use emlynk_wabot.Prelude.{Bool, Option, Text}
use emlynk_wabot.Classification.{DocumentType}
use emlynk_wabot.Confidence.{Band}

-- PROCESSING_STATUS
pub data ProcessingStatus : Type 0 where
  verified high_confidence slightly_unclear unclear undefined conflict : ProcessingStatus
  manual_review duplicate failed : ProcessingStatus

-- CHECKSUM_OUTCOME
pub data ChecksumOutcome : Type 0 where
  new already_stored duplicate cross_client_conflict : ChecksumOutcome

-- PLACEMENT; `nowhere` is NONE
pub data Place : Type 0 where
  client pending nowhere : Place

-- The arguments of decidePlacement; a checksum outcome that is undefined is `none`.
pub record Request : Type 0 where
  pub processing_status : ProcessingStatus
  pub band : Band
  pub document_type : DocumentType
  pub client_identified : Bool
  pub unique_id : Option Text
  pub checksum_outcome : Option ChecksumOutcome
  pub review_blocked : Bool
  pub verified_of_type_exists : Bool
  pub duplicate_of_verified : Bool

pub record Decision : Type 0 where
  pub placement : Place
  pub processing_status : ProcessingStatus
  pub pending_owner : Option Text
  pub already_stored : Bool
