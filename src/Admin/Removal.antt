-- ===== src/Admin/Removal.antt =====
-- services/adminReviewActionService.js: removeFromReview, removeStoredDocument and
-- retryFailedSubmission.
use emlynk_wabot.Prelude.{
  ℕ, ◌==◌, Bool, true, false, ◌&&◌, not, Option, none, some, List, [], ◌∷◌, Text, text_eq, any,
  find, keep, map, is_some, if◌then◌else◌, length,
}
use emlynk_wabot.Placement.{ProcessingStatus}
use emlynk_wabot.Queue.Table.{RowStatus}
use emlynk_wabot.Storage.World.{Bucket}
use emlynk_wabot.Storage.Copy.{Exists}
use emlynk_wabot.Admin.Failure.{describe_failure}
use emlynk_wabot.Admin.Tables.{
  Filed, Item, ItemType, Tables, ReviewAction, Status, Value, Audit, find_pending,
  find_review_document, duplicate_match_of, is_review_required,
}
use emlynk_wabot.Admin.Checks.{ReviewError, Result, ok, err, ◌>>=◌, ◌>>◌, guard, some_or}
use emlynk_wabot.Admin.Filing.{Desk}
use emlynk_wabot.Admin.Decisions.{ReviewId, entry, review_required}

abbrev pub is_text : Option Text → Text → Bool
is_text none t = false
is_text (some s) t = text_eq s t

abbrev pub unlinked : Filed → Filed
unlinked d = record d { document = record d.document { temporary_id = none } }

abbrev pub without_submission : Text → Filed → Filed
without_submission id d = if is_text d.temporary_id id then unlinked d else d

-- Documents that were stored from a deleted submission lose their link to it: the foreign key of
-- prisma/schema.prisma sets it to null.
unfoldable pub forget_submission : Text → List Filed → List Filed
forget_submission id documents = map (without_submission id) documents

-- temporaryData.delete
abbrev pub delete_item : Text → Tables → Tables
delete_item id t = record t {
  items = keep (λ (i : Item). not (text_eq i.temporary_id id)) t.items;
  documents = forget_submission id t.documents;
}

-- The row that document.deleteMany matches.
abbrev pub is_removable : Text → Filed → Bool
is_removable id d = text_eq d.document_id id && is_review_required d.verification_status

-- [pendingStoragePath, temporaryStoragePath].filter(Boolean)
abbrev truthy_paths : Option Text → Text → List Text
truthy_paths (some (c ∷ p)) [] = (c ∷ p) ∷ []
truthy_paths (some (c ∷ p)) (d ∷ t) = (c ∷ p) ∷ (d ∷ t) ∷ []
truthy_paths _ [] = []
truthy_paths _ (d ∷ t) = (d ∷ t) ∷ []

module _ (now : ℕ) (admin_id : Text) (reason : Option Text) where
  abbrev removal_audit : List Filed → Item → Audit
  removal_audit documents row =
      let removed =
        record (entry now admin_id reason ReviewAction.remove_from_review
          (Status.processing row.status) Status.removed) {
            temporary_id = some row.temporary_id;
            passport_id = row.passport_id;
            document_type = some row.document_type;
            file_sha256 = row.file_sha256;
          } in
      elim (duplicate_match_of documents row) [
        | none ↦ removed
        | some d ↦ record removed { document_id = some d.document_id }
      ]

  -- The transaction of removeFromReview: the tables after it, and the paths of the files to delete.
  unfoldable pub remove_item : Text → Tables → Tables → Result (Tables × List Text)
  remove_item id reads t = do
    _ ← some_or (find_pending id reads.items) ReviewError.not_found
    row ← some_or (find_pending id t.items) ReviewError.already_resolved
    ok (
      record (delete_item row.temporary_id t) { audit = removal_audit t.documents row ∷ t.audit },
      truthy_paths row.pending_storage_path row.temporary_storage_path,
    )

  abbrev stored_removal_audit : Filed → Audit
  stored_removal_audit row =
      record (entry now admin_id reason ReviewAction.remove_from_review review_required
        Status.removed) {
          temporary_id = row.temporary_id;
          document_id = some row.document_id;
          passport_id = some row.passport_id;
          document_type = some (ItemType.typed row.document_type);
          file_sha256 = some row.file_sha256;
        }

  -- The file is deleted only if no other document points at it.
  abbrev unshared_path : Filed → List Filed → List Text
  unshared_path row documents =
      if any
        (λ (d : Filed).
          text_eq d.storage_path row.storage_path && not (text_eq d.document_id row.document_id))
        documents
      then []
      else truthy_paths none row.storage_path

  -- The transaction of removeStoredDocument.
  unfoldable pub remove_document : Text → Tables → Tables → Result (Tables × List Text)
  remove_document id reads t = do
    _ ← some_or (find_review_document id reads.documents) ReviewError.not_found
    row ← some_or (find_review_document id t.documents) ReviewError.already_resolved
    guard (length (keep (is_removable row.document_id) t.documents) == 1)
        ReviewError.already_resolved
    let left = keep (λ d. not (is_removable row.document_id d)) t.documents
    ok (
      record t { documents = left; audit = stored_removal_audit row ∷ t.audit },
      unshared_path row left,
    )

-- FAILED_SUBMISSION_WHERE
abbrev is_failed : RowStatus → Bool
is_failed (RowStatus.finished ProcessingStatus.failed) = true
is_failed _ = false

abbrev pub is_failed_item : Text → Item → Bool
is_failed_item id i =
    text_eq i.temporary_id id && is_failed i.status && not (is_some i.pending_storage_path)

-- The data of the update in retryFailedSubmission
abbrev pub queued_again : Item → Item
queued_again i = record i {
  row = record i.row {
    status = RowStatus.received;
    attempts = 0;
    started_at = none;
    review_reason = none;
  };
  passport_id = none;
  unique_id = none;
  document_type = ItemType.unclassified;
}

abbrev present : Exists → Result (Unit {0})
present Exists.taken = ok tt
present Exists.free = err ReviewError.file_missing
present Exists.check_failed = err ReviewError.storage_unavailable

module _ (now : ℕ) (admin_id : Text) (reason : Option Text) where
  abbrev retry_audit : Item → Audit
  retry_audit row =
      record (entry now admin_id reason ReviewAction.retry_processing (Status.processing row.status)
        (Status.processing RowStatus.received)) {
          temporary_id = some row.temporary_id;
          passport_id = row.passport_id;
          document_type = some row.document_type;
          file_sha256 = row.file_sha256;
          previous_value = some (Value.failure_value (describe_failure row.summary));
        }

  -- The transaction of retryFailedSubmission
  unfoldable pub requeue : Text → Tables → Result Tables
  requeue id t = do
    row ← some_or (find (is_failed_item id) t.items) ReviewError.not_failed
    guard (length (keep (is_failed_item row.temporary_id) t.items) == 1) ReviewError.not_failed
    ok (record t {
      items = map (λ i. if is_failed_item row.temporary_id i then queued_again i else i) t.items;
      audit = retry_audit row ∷ t.audit;
    })

module _ {ℓ κ} {B : Type ℓ} {Content : Type κ} (ops : Bucket B Content) where
  -- removeObject of each path
  abbrev pub remove_files : List Text → B → B × Bool
  remove_files [] b = (b, true)
  remove_files (path ∷ rest) b =
      let first = ops.remove path b in
      let others = remove_files rest first.0 in (others.0, first.1 && others.1)

  abbrev pub removed_with_files : Result (Tables × List Text) → Desk B → Desk B × Result Bool
  removed_with_files (err e) desk = (desk, err e)
  removed_with_files (ok (t, paths)) desk =
      let removal = remove_files paths desk.bucket in
      (record { bucket = removal.0; tables = t }, ok removal.1)

module _ {ℓ κ} {B : Type ℓ} {Content : Type κ} (ops : Bucket B Content) (now : ℕ) (admin_id : Text)
    (reason : Option Text) where
  -- removeFromReview; an id of another kind than PENDING is taken for a document's.
  unfoldable pub remove_from_review : ReviewId → Desk B → Desk B → Desk B × Result Bool
  remove_from_review (ReviewId.pending id) reads desk =
      removed_with_files ops (remove_item now admin_id reason id reads.tables desk.tables) desk
  remove_from_review (ReviewId.document id) reads desk =
      removed_with_files ops (remove_document now admin_id reason id reads.tables desk.tables) desk
  remove_from_review (ReviewId.failed id) reads desk =
      removed_with_files ops (remove_document now admin_id reason id reads.tables desk.tables) desk

  -- retryFailedSubmission, for a FAILED item's id
  unfoldable pub retry_failed_submission : Text → Desk B → Tables → Result Tables
  retry_failed_submission id reads t = do
    current ←
        some_or (find (λ (i : Item). text_eq i.temporary_id id) reads.tables.items)
          ReviewError.not_found
    guard (is_failed current.status && not (is_some current.pending_storage_path))
        ReviewError.not_failed
    present (ops.exists current.temporary_storage_path reads.bucket)
    requeue now admin_id reason id t
