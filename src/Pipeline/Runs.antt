-- ===== src/Pipeline/Runs.antt =====
-- The data of a run of processDocument (services/documentProcessingService.js), and its update of the
-- row. Of the row the columns of `Row` are written; the type, the client and the summary are none.
use emlynk_wabot.Prelude.{ℕ, Bool, true, false, Option, none, some, List, Text, text_eq}
use emlynk_wabot.Classification.{DocumentType}
use emlynk_wabot.Users.{User}
use emlynk_wabot.Placement.{ProcessingStatus}
use emlynk_wabot.Review.{Findings}
use emlynk_wabot.Review.Reasons.{ReviewReason}
use emlynk_wabot.Queue.Table.{update_many}
use emlynk_wabot.Queue.Claims.{recorded, update_record}
use emlynk_wabot.Storage.World.{World}
use emlynk_wabot.Storage.Place.{Placed}

-- state.stage, for the stages in which something is asked or written. `record_write` is the rest of
-- the transaction of RECONCILIATION after the renewal, `placement` is placeDocument, and
-- `catch_update` is the write of the catch block.
pub data Stage : Type 0 where
  text_extraction identity duplicate_check reconciliation record_write storage : Stage
  placement record_update catch_update : Stage

-- The arguments of processDocument, with the names that Phase 7 makes for the file.
pub record Submission : Type 0 where
  pub temporary_id : Text
  pub whatsapp_number : Text
  pub temporary_storage_path : Text
  pub file_sha256 : Text
  pub filename_classification : Option DocumentType
  pub document_id : Text
  pub client_folder : Text → DocumentType → Text
  pub kept_name : ℕ → Text
  pub standard_name : DocumentType → ℕ → Text
  pub pending_folder : Option Text → Text
  pub pending_name : ℕ → Text

-- The tables and the bucket.
pub record State {ℓ} (B : Type ℓ) : Type ℓ where
  pub world : World B
  pub users : List User

-- What processDocument returns: a stale attempt, the stage of a failure (with false if not even that
-- could be recorded), or the placement that was recorded.
pub data Processed : Type 0 where
  stale : Processed
  failed_at : Stage → Bool → Processed
  completed : Placed → Option ReviewReason → Processed

-- How the writes of the stage RECONCILIATION end: done, without the claim, or by a failure.
pub data Written : Type 0 where
  written lost broken : Written

-- Nothing of the state is set.
abbrev pub unset : Findings
unset = record {
  resolved_type = none;
  confidence = none;
  identity = none;
  reconciliation = none;
  police_date = none;
  checksum = none;
  existing_verified = false;
  verified_of_type_exists = false;
}

-- updateTemporaryDocumentRecord; false is ClaimLostError
unfoldable pub update_row {ℓ} :
    {B : Type ℓ}
    → Text
    → ProcessingStatus
    → Option ReviewReason
    → Option Text
    → World B
    → World B × Bool
update_row id status reason pending w = elim w.held [
  | some c ↦
      let (rows, owned) = update_record c status reason pending w.rows in
      (record w { rows = rows }, owned)
  | none ↦ (
    record w {
      rows =
          (update_many (λ r. text_eq r.temporary_id id) (recorded status reason pending) w.rows).0;
    },
    true,
  )
]
