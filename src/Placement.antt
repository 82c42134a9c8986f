-- ===== src/Placement.antt =====
-- services/storagePlacementService.js: decidePlacement; and the outcome types of
-- services/documentChecksumService.js and services/documentProcessingService.js that it reads.
pub mod Types
pub mod Laws
pub use Types.*
use emlynk_wabot.Prelude.{Bool, true, false, ◌&&◌, not, Option, none, some, Text, if◌then◌else◌}
use emlynk_wabot.Classification.{DocumentType, is_unknown}
use emlynk_wabot.Confidence.{Band}
use Types.{ProcessingStatus, ChecksumOutcome, Place, Decision, Request}

abbrev is_already_stored : Option ChecksumOutcome → Bool
is_already_stored (some ChecksumOutcome.already_stored) = true
is_already_stored _ = false

abbrev pub is_duplicate : Option ChecksumOutcome → Bool
is_duplicate (some ChecksumOutcome.duplicate) = true
is_duplicate _ = false

abbrev pub is_cross_client : Option ChecksumOutcome → Bool
is_cross_client (some ChecksumOutcome.cross_client_conflict) = true
is_cross_client _ = false

-- ["CONFLICT", "UNDEFINED", "MANUAL_REVIEW"].includes(processingStatus)
abbrev pub needs_person : ProcessingStatus → Bool
needs_person ProcessingStatus.conflict = true
needs_person ProcessingStatus.undefined = true
needs_person ProcessingStatus.manual_review = true
needs_person _ = false

-- CLIENT_BANDS.has(band)
abbrev pub is_client_band : Band → Bool
is_client_band Band.undefined = false
is_client_band _ = true

-- Boolean(DOCUMENT_STORAGE_TYPES[documentType])
abbrev pub has_client_folder : DocumentType → Bool
has_client_folder t = not (is_unknown t)

abbrev pending : ProcessingStatus → Option Text → Decision
pending status owner = record {
  placement = Place.pending;
  processing_status = status;
  pending_owner = owner;
  already_stored = false;
}

abbrev in_client : ProcessingStatus → Bool → Decision
in_client status stored = record {
  placement = Place.client;
  processing_status = status;
  pending_owner = none;
  already_stored = stored;
}

-- The rules after the checksum's, for a file that is new to the client.
abbrev decide_new : Request → Decision
decide_new r =
    let owner = if r.client_identified then r.unique_id else none in
    if needs_person r.processing_status
    then pending r.processing_status owner
    else if r.review_blocked
    then pending r.processing_status owner
    else if r.client_identified && has_client_folder r.document_type && is_client_band r.band
    then (if r.verified_of_type_exists
        then pending r.processing_status owner
        else in_client r.processing_status false)
    else pending r.processing_status owner

unfoldable pub decide_placement : Request → Decision
decide_placement r =
    if is_already_stored r.checksum_outcome
    then in_client r.processing_status true
    else if is_duplicate r.checksum_outcome
    then (if r.duplicate_of_verified && r.client_identified
        then pending ProcessingStatus.duplicate r.unique_id
        else record {
          placement = Place.nowhere;
          processing_status = ProcessingStatus.duplicate;
          pending_owner = none;
          already_stored = false;
        })
    else if is_cross_client r.checksum_outcome
    then pending ProcessingStatus.conflict none
    else decide_new r
