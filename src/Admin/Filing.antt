-- ===== src/Admin/Filing.antt =====
-- services/adminReviewActionService.js: the actions that store a waiting file, approvePending,
-- replaceVerifiedDocument and keepDocumentAsVersion. `reads` is the state that an action sees before
-- its transaction and `desk` the state in which the transaction runs: in between others may do anything.
use emlynk_wabot.Prelude.{
  ℕ, ◌+◌, Bool, true, false, ◌&&◌, not, Option, none, some, List, [], ◌∷◌, Text, text_eq, any, find,
  keep, length, or_else, if◌then◌else◌,
}
use emlynk_wabot.Classification.{DocumentType}
use emlynk_wabot.Placement.{ProcessingStatus}
use emlynk_wabot.Queue.Table.{RowStatus}
use emlynk_wabot.Storage.Documents.{VerificationStatus, is_verified}
use emlynk_wabot.Storage.Copy.{CopyResult, Port, copy_to_free_name}
use emlynk_wabot.Storage.World.{Bucket}
use emlynk_wabot.Admin.Tables.{
  Filed, Item, ItemType, Tables, ReviewAction, Status, Audit, find_pending, duplicate_match_of,
  lock_client_row, create, update_item, same_file, has_type,
}
use emlynk_wabot.Admin.Checks.{
  ReviewError, Result, ok, err, ◌>>=◌, ◌>>◌, guard, some_or, approval_blocker,
  police_date_for_approval, Naming, Prepared, pending_path, read_waiting_file, reread,
}

pub record Desk {ℓ} (B : Type ℓ) : Type ℓ where
  pub bucket : B
  pub tables : Tables

-- The request of an admin; `new_document_id` is the random key, `document_id` the document to replace.
pub record Request : Type 0 where
  pub admin_id : Text
  pub temporary_id : Text
  pub reason : Option Text
  pub given_date : Option Text
  pub document_id : Option Text
  pub new_document_id : Text
  pub now : ℕ

-- copyToFreeName without hooks
abbrev pub plain_port {ℓ κ} : {B : Type ℓ} {Content : Type κ} → Bucket B Content → Port B
plain_port ops = record {
  exists = ops.exists;
  copy = ops.copy;
  before_copy = λ path b. (b, true);
  reuse_existing = λ path b. false;
}

abbrev pub stored_type : ItemType → DocumentType
stored_type ItemType.unclassified = DocumentType.unknown
stored_type (ItemType.typed t) = t

-- The documents row of a waiting file, stored under a path.
abbrev pub filed : Request → Prepared → Item → VerificationStatus → Option Text → Text → Filed
filed q p row status date path = record {
  document = record {
    document_id = q.new_document_id;
    passport_id = or_else row.passport_id [];
    document_type = stored_type row.document_type;
    storage_path = path;
    verification_status = status;
    file_sha256 = p.sha;
    temporary_id = some row.temporary_id;
  };
  police_submitted_date = date;
}

-- { pendingStoragePath: null, processingStatus: VERIFIED }
abbrev pub resolved : Item → Item
resolved i = record i {
  row = record i.row {
    pending_storage_path = none;
    status = RowStatus.finished ProcessingStatus.verified;
  };
}

-- { pendingStoragePath: null }
abbrev pub kept_resolved : Item → Item
kept_resolved i = record i { row = record i.row { pending_storage_path = none } }

-- createAudit, for a file that is stored
abbrev pub filing_audit : Request → Item → ReviewAction → VerificationStatus → Option Text → Audit
filing_audit q row action status date = record {
  admin_id = q.admin_id;
  action = action;
  temporary_id = some row.temporary_id;
  document_id = some q.new_document_id;
  passport_id = row.passport_id;
  previous_status = Status.processing row.status;
  new_status = Status.verification status;
  reason = q.reason;
  police_submitted_date = date;
  document_type = none;
  file_sha256 = none;
  previous_value = none;
  new_value = none;
  created_date = q.now;
}

abbrev pub count_of_type : Text → ItemType → List Filed → ℕ
count_of_type passport_id document_type documents = length (
    keep
      (λ (d : Filed). text_eq d.passport_id passport_id && has_type d.document_type document_type)
      documents)

-- lockAndVerifyReplacementTarget
unfoldable pub verify_replacement_target :
    Option Text → Option Text → ItemType → List Filed → Result Filed
verify_replacement_target document_id passport_id document_type documents = do
  id ← some_or document_id ReviewError.document_id_required
  target ←
      some_or (find (λ (d : Filed). text_eq d.document_id id) documents)
        ReviewError.verified_document_changed
  guard
      (text_eq target.passport_id (or_else passport_id [])
        && has_type target.document_type document_type
        && is_verified target.verification_status)
      ReviewError.verified_document_changed
  ok target

module _ {ℓ κ} {B : Type ℓ} {Content : Type κ} (ops : Bucket B Content) (fails : Bool) where
  -- The rest of a transaction from the copy on, its commit, and the clean-up of the files. `fails`
  -- tells whether the database fails; a transaction that fails changes no table.
  unfoldable pub settle :
      Text → (Text → Filed) → (Tables → Tables) → Desk B → B × CopyResult → Desk B × Result Text
  settle pending document change desk (b, CopyResult.claim_lost) =
      (record desk { bucket = b }, err ReviewError.internal)
  settle pending document change desk (b, CopyResult.storage_error) =
      (record desk { bucket = b }, err ReviewError.storage_unavailable)
  settle pending document change desk (b, CopyResult.no_free_name) =
      (record desk { bucket = b }, err ReviewError.storage_unavailable)
  settle pending document change desk (b, CopyResult.placed path n reused) =
      elim (create (document path) desk.tables.documents) [
        | none ↦ (record desk { bucket = (ops.remove path b).0 }, err ReviewError.duplicate_file)
        | some documents ↦
            if fails
            then (record desk { bucket = (ops.remove path b).0 }, err ReviewError.internal)
            else (
              record {
                bucket = (ops.remove pending b).0;
                tables = change (record desk.tables { documents = documents });
              },
              ok path,
            )
      ]

module _ {ℓ κ} {B : Type ℓ} {Content : Type κ} (ops : Bucket B Content) (naming : Naming) where
  abbrev pub store_under : (ℕ → Text) → ℕ → Item → Desk B → B × CopyResult
  store_under name first row desk =
      copy_to_free_name (plain_port ops) (pending_path row)
        (naming.folder (or_else row.passport_id []) (stored_type row.document_type)) name first
        desk.bucket

  -- A standard name from the count of the client's documents of the type on.
  abbrev pub store_standard : Prepared → Item → Desk B → B × CopyResult
  store_standard p row desk =
      store_under (naming.standard_name (stored_type row.document_type) p.mime_type)
        (count_of_type (or_else row.passport_id []) row.document_type desk.tables.documents + 1) row
        desk

  -- The checks of approvePending before its transaction.
  unfoldable pub prepare_approval : Request → Desk B → Result Prepared
  prepare_approval q reads = do
    before ← some_or (find_pending q.temporary_id reads.tables.items) ReviewError.not_found
    approval_blocker reads.tables.documents before.passport_id before.document_type none
        (duplicate_match_of reads.tables.documents before)
    date ← police_date_for_approval before.document_type none q.given_date
    read_waiting_file ops naming reads.bucket before date

-- The checks of approvePending in its transaction.
unfoldable pub approval_row : Prepared → Tables → Result Item
approval_row p t = do
  row ← reread p.before t
  guard (lock_client_row row.passport_id t.clients) ReviewError.client_not_identified
  approval_blocker t.documents row.passport_id row.document_type none none
  guard (not (any (same_file (or_else row.passport_id []) p.sha) t.documents))
      ReviewError.duplicate_file
  ok row

abbrev pub approve_changes : Request → Prepared → Item → Tables → Tables
approve_changes q p row t = record t {
  items = update_item row.temporary_id resolved t.items;
  audit = filing_audit q row ReviewAction.approve VerificationStatus.verified p.date ∷ t.audit;
}

-- An error that is thrown before the first change of the desk.
unfoldable pub attempt {ℓ κ} :
    {B : Type ℓ} {A : Type κ}
    → Desk B
    → Result A
    → (A → Desk B × Result Text)
    → Desk B × Result Text
attempt desk (err e) act = (desk, err e)
attempt desk (ok a) act = act a

module _ {ℓ κ} {B : Type ℓ} {Content : Type κ} (ops : Bucket B Content) (naming : Naming)
    (fails : Bool) where
  abbrev pub approve_row : Request → Prepared → Item → Desk B → Desk B × Result Text
  approve_row q p row desk =
      settle ops fails (pending_path row) (filed q p row VerificationStatus.verified p.date)
        (approve_changes q p row) desk (store_standard ops naming p row desk)

  -- approvePending
  unfoldable pub approve_pending : Request → Desk B → Desk B → Desk B × Result Text
  approve_pending q reads desk =
      attempt desk (prepare_approval ops naming q reads)
        λ p. attempt desk (approval_row p desk.tables) λ row. approve_row q p row desk
