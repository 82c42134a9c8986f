-- ===== src/Pipeline/Process.antt =====
-- services/documentProcessingService.js: processDocument with its effects. A call that can throw for
-- a reason outside the model (the OCR, the database) is an input: `extracted` is none and `breaks` is
-- true for the stage that throws. Before each stage that asks or writes, `others` says what other
-- workers and admins have done; within one stage nobody else writes. The data of a run is in
-- Pipeline.Runs.
pub mod Kept
pub mod Completed
pub mod Outcome
pub mod Record
use emlynk_wabot.Prelude.{
  ℕ, Bool, true, false, ◌&&◌, not, Option, none, some, List, [], Text, is_some, or_else,
  if◌then◌else◌,
}
use emlynk_wabot.Classification.{is_passport}
use emlynk_wabot.Users.{User}
use emlynk_wabot.Users.Lookup.{Lookup, find_users_by_passport_id, find_users_by_whatsapp_number}
use emlynk_wabot.Identity.{Identity}
use emlynk_wabot.Reconciliation.{Reconciled}
use emlynk_wabot.Reconciliation.Apply.{apply_reconciliation_updates}
use emlynk_wabot.Placement.{ProcessingStatus}
use emlynk_wabot.Review.{Findings, derive_review_reason}
use emlynk_wabot.Review.Reasons.{ReviewReason}
use emlynk_wabot.Storage.Documents.{Document, has_verified_document}
use emlynk_wabot.Storage.Checksum.{Checked, check_client_checksum}
use emlynk_wabot.Storage.World.{Bucket, World, renew_held}
use emlynk_wabot.Storage.Place.{Context, Placed, PlaceResult, place_document}
use emlynk_wabot.Pipeline.Runs.{Stage, Submission, State, Processed, Written, unset, update_row}
use emlynk_wabot.Pipeline.Plan.{
  Read, Assessment, Checksum, assess, identify, is_client_identified, checksum_allows_writes,
  reconcile, stored_confidence, asks_verified, findings, plan, document_type_of,
  extracted_passport_id,
}

abbrev pub text_or_empty : Option Text → Text
text_or_empty t = or_else t []

module _ {ℓ κ} {B : Type ℓ} {Content : Type κ} (ops : Bucket B Content) (clock : ℕ → ℕ)
    (fails : Document → Bool) (others : Stage → State B → State B) (breaks : Stage → Bool)
    (day_of : Text → Option Text) (today : Text) (sub : Submission) where
  -- What the others have done before a stage; the claim is this worker's own.
  abbrev pub between : Stage → State B → State B
  between stage s =
      let t = others stage s in record t { world = record t.world { held = s.world.held } }

  abbrev pub with_world : State B → World B × Bool → Processed → State B × Processed
  with_world s (w, true) result = (record s { world = w }, result)
  with_world s (w, false) result = (record s { world = w }, Processed.stale)

  -- The write of the catch block. A FAILED status alone gives the review reason, so that of the state
  -- only the placement's pending path is read.
  abbrev pub write_failure : Stage → Option Text → State B → State B × Processed
  write_failure stage pending s =
      if breaks Stage.catch_update
      then (s, Processed.failed_at stage false)
      else with_world s
          (update_row sub.temporary_id ProcessingStatus.failed
            (derive_review_reason (some ProcessingStatus.failed) unset) pending s.world)
          (Processed.failed_at stage true)

  unfoldable pub fail : Stage → Option Text → State B → State B × Processed
  unfolding update_row
  fail stage pending s = write_failure stage pending (between Stage.catch_update s)

  abbrev pub passport_lookup_of : Assessment → List User → Option Lookup
  passport_lookup_of a users =
      if is_passport (document_type_of a)
      then some (find_users_by_passport_id users (extracted_passport_id a))
      else none

  abbrev pub sender_of : Assessment → List User → Identity
  sender_of a users =
      identify a (passport_lookup_of a users)
        (find_users_by_whatsapp_number users (some sub.whatsapp_number))

  -- The stage DUPLICATE_CHECK.
  abbrev pub checked_of : Identity → World B → Option Checked
  checked_of i w =
      if is_client_identified i
      then some (
          check_client_checksum w.documents (text_or_empty i.passport_id) sub.file_sha256
            (some sub.temporary_id))
      else none

  abbrev pub checksum_of : Option Checked → Option Checksum
  checksum_of none = none
  checksum_of (some c) = some c.checksum

  abbrev pub existing_of : Option Checked → Option Document
  existing_of none = none
  existing_of (some c) = c.existing_document

  abbrev pub updates_of : Option Reconciled → State B → Identity → List User
  updates_of none s i = s.users
  updates_of (some r) s i = (apply_reconciliation_updates i r.updates s.users).0

  -- A transaction that did not commit: the row is as before, but the claim's closure is not.
  abbrev pub unwritten : State B → World B → State B
  unwritten s after = record s { world = record after { rows = s.world.rows } }

  -- The writes of the stage RECONCILIATION: with a claim in one transaction with its renewal. Without
  -- a claim a failure among the writes is not modelled: it comes before them all.
  unfoldable pub write_record :
      Identity → Option Reconciled → Option Checksum → State B → State B × Written
  unfolding renew_held
  write_record i r checksum s =
      if is_some r && checksum_allows_writes checksum
      then (let renewed = renew_held ops clock none s.world in
          if not renewed.1
          then (record s { world = renewed.0 }, Written.lost)
          else if breaks Stage.record_write
          then (unwritten s renewed.0, Written.broken)
          else (record s { world = renewed.0; users = updates_of r s i }, Written.written))
      else (s, Written.written)

  abbrev pub context_of : Assessment → Identity → Option Reconciled → Option Checked → Context
  context_of a i r checked = record {
    filing = record {
      temporary_storage_path = sub.temporary_storage_path;
      passport_id = text_or_empty i.passport_id;
      document_type = document_type_of a;
      band = (stored_confidence a i r).band;
      file_sha256 = sub.file_sha256;
      temporary_id = some sub.temporary_id;
      document_id = sub.document_id;
      folder = sub.client_folder (text_or_empty i.passport_id) (document_type_of a);
      kept_name = sub.kept_name;
      standard_name = sub.standard_name (document_type_of a);
    };
    whatsapp_number = sub.whatsapp_number;
    temporary_id = sub.temporary_id;
    existing_document = existing_of checked;
    pending_folder = sub.pending_folder;
    pending_name = sub.pending_name;
  }

  -- The write of the stage RECORD_UPDATE.
  abbrev pub write_result : Placed → Option ReviewReason → State B → State B × Processed
  write_result p reason s =
      with_world s
        (update_row sub.temporary_id p.processing_status reason p.pending_storage_path s.world)
        (Processed.completed p reason)

  -- The stage RECORD_UPDATE.
  unfoldable pub record_result : Findings → Placed → State B → State B × Processed
  unfolding update_row fail
  record_result f p s =
      if breaks Stage.record_update
      then fail Stage.record_update p.pending_storage_path s
      else write_result p (derive_review_reason (some p.processing_status) f)
          (between Stage.record_update s)

  abbrev pub verified_exists :
      Assessment → Identity → Option Reconciled → Option Checksum → List Document → Bool
  verified_exists a i r checksum documents =
      asks_verified a i r checksum
      && has_verified_document documents (text_or_empty i.passport_id) (document_type_of a)

  abbrev pub after_placement : Findings → State B → World B × PlaceResult → State B × Processed
  after_placement f s (w, PlaceResult.done p) = record_result f p (record s { world = w })
  after_placement f s (w, PlaceResult.claim_lost) = (record s { world = w }, Processed.stale)
  after_placement f s (w, PlaceResult.failed) = fail Stage.storage none (record s { world = w })

  -- placeDocument, for the answer of hasVerifiedDocument.
  abbrev pub place :
      Assessment
      → Identity
      → Option Reconciled
      → Option Checked
      → Bool
      → State B
      → State B × Processed
  place a i r checked verified s =
      let checksum = checksum_of checked in
      after_placement (findings a i r checksum verified) s (
        place_document ops clock fails (plan a i r checksum verified) (context_of a i r checked)
          s.world)

  -- The stage STORAGE.
  unfoldable pub store :
      Assessment → Identity → Option Reconciled → Option Checked → State B → State B × Processed
  unfolding record_result
  store a i r checked s =
      place a i r checked (verified_exists a i r (checksum_of checked) s.world.documents)
        (between Stage.placement s)

  abbrev pub after_writes :
      Assessment
      → Identity
      → Option Reconciled
      → Option Checked
      → State B × Written
      → State B × Processed
  after_writes a i r checked (s, Written.lost) = (s, Processed.stale)
  after_writes a i r checked (s, Written.broken) = fail Stage.reconciliation none s
  after_writes a i r checked (s, Written.written) =
      if breaks Stage.storage
      then fail Stage.storage none s
      else store a i r checked (between Stage.storage s)

  -- The stage RECONCILIATION.
  unfoldable pub reconciles :
      Assessment → Identity → Option Reconciled → Option Checked → State B → State B × Processed
  unfolding write_record store
  reconciles a i r checked s =
      if breaks Stage.reconciliation
      then fail Stage.reconciliation none s
      else after_writes a i r checked
          (write_record i r (checksum_of checked) (between Stage.reconciliation s))

  -- The stage DUPLICATE_CHECK, with the answers of the stage IDENTITY.
  unfoldable pub checks : Assessment → Identity → Option Reconciled → State B → State B × Processed
  unfolding reconciles
  checks a i r s =
      if breaks Stage.duplicate_check
      then fail Stage.duplicate_check none s
      else reconciles a i r (checked_of i (between Stage.duplicate_check s).world)
          (between Stage.duplicate_check s)

  -- The stages from IDENTITY on.
  unfoldable pub decide : Assessment → State B → State B × Processed
  unfolding checks
  decide a s =
      let asked = between Stage.identity s in
      let i = sender_of a asked.users in
      if breaks Stage.identity
      then fail Stage.identity none s
      else checks a i (reconcile day_of a (passport_lookup_of a asked.users) i) asked

  -- processDocument
  unfoldable pub process_document : Option Read → State B → State B × Processed
  unfolding decide
  process_document extracted s = elim extracted [
    | none ↦ fail Stage.text_extraction none s
    | some read ↦ decide (assess today sub.filename_classification read) s
  ]
