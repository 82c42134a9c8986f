-- ===== src/Admin/Versions.antt =====
-- services/adminReviewActionService.js: replaceVerifiedDocument and keepDocumentAsVersion, for a
-- waiting file of a type that the client already has verified.
use emlynk_wabot.Prelude.{Bool, not, none, some, [], ◌∷◌, Text, any, is_some, or_else}
use emlynk_wabot.Storage.Documents.{VerificationStatus}
use emlynk_wabot.Storage.World.{Bucket}
use emlynk_wabot.Admin.Tables.{
  Filed, Item, Tables, ReviewAction, Value, find_pending, find_verified_of_type, duplicate_match_of,
  lock_client_row, update_document, update_item, with_status, same_file,
}
use emlynk_wabot.Admin.Checks.{
  ReviewError, Result, ok, ◌>>=◌, ◌>>◌, guard, some_or, has_client_folder, police_date_for_approval,
  Naming, Prepared, pending_path, read_waiting_file, reread,
}
use emlynk_wabot.Admin.Filing.{
  Desk, Request, filed, resolved, kept_resolved, filing_audit, verify_replacement_target, settle,
  store_under, store_standard, attempt,
}

-- The first checks of both actions.
abbrev pub other_file {ℓ} : {B : Type ℓ} → Request → Desk B → Result Item
other_file q reads = do
  before ← some_or (find_pending q.temporary_id reads.tables.items) ReviewError.not_found
  guard (not (is_some (duplicate_match_of reads.tables.documents before)))
      ReviewError.duplicate_file
  guard (has_client_folder before.document_type) ReviewError.no_client_folder
  ok before

module _ {ℓ κ} {B : Type ℓ} {Content : Type κ} (ops : Bucket B Content) (naming : Naming) where
  unfoldable pub prepare_replacement : Request → Desk B → Result Prepared
  prepare_replacement q reads = do
    before ← other_file q reads
    date ← police_date_for_approval before.document_type none q.given_date
    read_waiting_file ops naming reads.bucket before date

  unfoldable pub prepare_version : Request → Desk B → Result Prepared
  prepare_version q reads = do
    before ← other_file q reads
    guard
        (is_some (
          find_verified_of_type (or_else before.passport_id []) before.document_type none
            reads.tables.documents))
        ReviewError.not_applicable
    read_waiting_file ops naming reads.bucket before none

-- The checks in the transaction of replaceVerifiedDocument: the row and the document to replace.
unfoldable pub replacement_row : Request → Prepared → Tables → Result (Item × Filed)
replacement_row q p t = do
  row ← reread p.before t
  guard (lock_client_row row.passport_id t.clients) ReviewError.client_not_identified
  target ← verify_replacement_target q.document_id row.passport_id row.document_type t.documents
  guard (not (any (same_file (or_else row.passport_id []) p.sha) t.documents))
      ReviewError.duplicate_file
  ok (row, target)

abbrev pub replace_changes : Request → Prepared → Item → Filed → Tables → Tables
replace_changes q p row target t = record t {
  documents =
      update_document target.document_id (with_status VerificationStatus.superseded) t.documents;
  items = update_item row.temporary_id resolved t.items;
  audit =
      record (filing_audit q row ReviewAction.replace_verified VerificationStatus.verified p.date) {
        document_type = some row.document_type;
        file_sha256 = some p.sha;
        previous_value = some (Value.text_value target.document_id);
        new_value = some (Value.text_value q.new_document_id);
      }
      ∷ t.audit;
}

unfoldable pub version_row : Prepared → Tables → Result Item
version_row p t = do
  row ← reread p.before t
  guard (lock_client_row row.passport_id t.clients) ReviewError.client_not_identified
  guard
      (is_some
        (find_verified_of_type (or_else row.passport_id []) row.document_type none t.documents))
      ReviewError.not_applicable
  guard (not (any (same_file (or_else row.passport_id []) p.sha) t.documents))
      ReviewError.duplicate_file
  ok row

abbrev pub version_changes : Request → Prepared → Item → Tables → Tables
version_changes q p row t = record t {
  items = update_item row.temporary_id kept_resolved t.items;
  audit =
      record (filing_audit q row ReviewAction.keep_as_version VerificationStatus.review_required
        none) { document_type = some row.document_type; file_sha256 = some p.sha }
      ∷ t.audit;
}

module _ {ℓ κ} {B : Type ℓ} {Content : Type κ} (ops : Bucket B Content) (naming : Naming)
    (fails : Bool) where
  abbrev pub replace_row : Request → Prepared → Item → Filed → Desk B → Desk B × Result Text
  replace_row q p row target desk =
      settle ops fails (pending_path row) (filed q p row VerificationStatus.verified p.date)
        (replace_changes q p row target) desk (store_standard ops naming p row desk)

  -- replaceVerifiedDocument
  unfoldable pub replace_verified_document : Request → Desk B → Desk B → Desk B × Result Text
  replace_verified_document q reads desk =
      attempt desk (prepare_replacement ops naming q reads) λ p.
        attempt desk (replacement_row q p desk.tables) λ found. replace_row q p found.0 found.1 desk

  abbrev pub version_at : Request → Prepared → Item → Desk B → Desk B × Result Text
  version_at q p row desk =
      settle ops fails (pending_path row) (filed q p row VerificationStatus.review_required none)
        (version_changes q p row) desk
        (store_under ops naming
          (naming.kept_name (pending_path p.before) p.mime_type row.created_date) 1 row desk)

  -- keepDocumentAsVersion
  unfoldable pub keep_document_as_version : Request → Desk B → Desk B → Desk B × Result Text
  keep_document_as_version q reads desk =
      attempt desk (prepare_version ops naming q reads)
        λ p. attempt desk (version_row p desk.tables) λ row. version_at q p row desk
