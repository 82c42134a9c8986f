-- ===== src/Admin/Tables.antt =====
-- The tables that the admin actions read and write, and the lookups of services/adminReviewService.js.
use emlynk_wabot.Prelude.{
  ℕ, Bool, true, false, ◌&&◌, ◌||◌, not, Option, none, some, List, [], ◌∷◌, Text, text_eq, any,
  find, map, is_some, is_truthy, or_else, if◌then◌else◌,
}
use emlynk_wabot.Classification.{DocumentType, same_type}
use emlynk_wabot.Placement.{ProcessingStatus}
use emlynk_wabot.Queue.Table.{Row, RowStatus}
use emlynk_wabot.Storage.Documents.{Document, VerificationStatus, is_verified}
use emlynk_wabot.Admin.Failure.{FailureCode, Summary}

-- A row of documents with the police date, a day as text.
pub record Filed : Type 0 where
  pub document : Document
  pub open document use *
  pub police_submitted_date : Option Text

-- document_type of a submission; it is UNCLASSIFIED until it is processed.
pub data ItemType : Type 0 where
  unclassified : ItemType
  typed : DocumentType → ItemType

-- A row of temporary_data with the columns that only the admin actions use here.
pub record Item : Type 0 where
  pub row : Row
  pub open row use *
  pub passport_id : Option Text
  pub unique_id : Option Text
  pub document_type : ItemType
  pub summary : Summary

pub record Client : Type 0 where
  pub passport_id : Text
  pub unique_id : Text

-- REVIEW_ACTION
pub data ReviewAction : Type 0 where
  approve keep_pending remove_from_review set_document_type assign_client : ReviewAction
  set_police_date retry_processing replace_verified keep_as_version : ReviewAction

-- previous_status and new_status; `removed` is REMOVED_STATUS.
pub data Status : Type 0 where
  processing : RowStatus → Status
  verification : VerificationStatus → Status
  removed : Status

-- previous_value and new_value
pub data Value : Type 0 where
  type_value : ItemType → Value
  text_value : Text → Value
  failure_value : FailureCode → Value

-- A row of audit_log, without its random key.
pub record Audit : Type 0 where
  pub admin_id : Text
  pub action : ReviewAction
  pub temporary_id : Option Text
  pub document_id : Option Text
  pub passport_id : Option Text
  pub previous_status : Status
  pub new_status : Status
  pub reason : Option Text
  pub police_submitted_date : Option Text
  pub document_type : Option ItemType
  pub file_sha256 : Option Text
  pub previous_value : Option Value
  pub new_value : Option Value
  pub created_date : ℕ

-- `audit` has the newest entry first.
pub record Tables : Type 0 where
  pub documents : List Filed
  pub items : List Item
  pub clients : List Client
  pub audit : List Audit

-- findPending: REVIEW_PENDING_WHERE
unfoldable pub find_pending : Text → List Item → Option Item
find_pending temporary_id items =
    find (λ (i : Item). text_eq i.temporary_id temporary_id && is_some i.pending_storage_path) items

abbrev pub is_review_required : VerificationStatus → Bool
is_review_required VerificationStatus.review_required = true
is_review_required _ = false

-- findReviewDocument
unfoldable pub find_review_document : Text → List Filed → Option Filed
find_review_document document_id documents =
    find
      (λ (d : Filed). text_eq d.document_id document_id && is_review_required d.verification_status)
      documents

abbrev pub has_type : DocumentType → ItemType → Bool
has_type t ItemType.unclassified = false
has_type t (ItemType.typed u) = same_type t u

-- A client's document of a type that is VERIFIED.
abbrev pub is_verified_of_type : Text → ItemType → Filed → Bool
is_verified_of_type passport_id document_type d =
    text_eq d.passport_id passport_id
    && has_type d.document_type document_type
    && is_verified d.verification_status

abbrev is_other : Option Text → Filed → Bool
is_other none d = true
is_other (some id) d = not (text_eq d.document_id id)

-- findVerifiedOfType with a passport number; the third argument is exceptDocumentId.
unfoldable pub find_verified_of_type : Text → ItemType → Option Text → List Filed → Option Filed
find_verified_of_type passport_id document_type except documents =
    find (λ d. is_verified_of_type passport_id document_type d && is_other except d) documents

abbrev pub same_file : Text → Text → Filed → Bool
same_file passport_id sha d = text_eq d.passport_id passport_id && text_eq d.file_sha256 sha

-- findDuplicateMatch
unfoldable pub find_duplicate_match : Option Text → Option Text → List Filed → Option Filed
find_duplicate_match passport_id sha documents =
    if is_truthy passport_id && is_truthy sha
    then find (same_file (or_else passport_id []) (or_else sha [])) documents
    else none

abbrev is_duplicate : RowStatus → Bool
is_duplicate (RowStatus.finished ProcessingStatus.duplicate) = true
is_duplicate _ = false

-- duplicateMatchOf, of a waiting file
unfoldable pub duplicate_match_of : List Filed → Item → Option Filed
unfolding find_duplicate_match
duplicate_match_of documents i =
    if is_duplicate i.status
    then find_duplicate_match i.passport_id i.file_sha256 documents
    else none

-- lockClientRow: whether the client exists
unfoldable pub lock_client_row : Option Text → List Client → Bool
lock_client_row none clients = false
lock_client_row (some passport_id) clients =
    any (λ (c : Client). text_eq c.passport_id passport_id) clients

-- document.create: the primary key and the pair (passport_id, file_sha256) are unique.
unfoldable pub create : Filed → List Filed → Option (List Filed)
create d documents =
    if any
      (λ (e : Filed).
        text_eq e.document_id d.document_id || same_file d.passport_id d.file_sha256 e)
      documents
    then none
    else some (d ∷ documents)

-- document.update by the primary key
unfoldable pub update_document : Text → (Filed → Filed) → List Filed → List Filed
update_document document_id change documents =
    map (λ (d : Filed). if text_eq d.document_id document_id then change d else d) documents

abbrev pub with_status : VerificationStatus → Filed → Filed
with_status status d = record d { document = record d.document { verification_status = status } }

-- temporaryData.update by the primary key
unfoldable pub update_item : Text → (Item → Item) → List Item → List Item
update_item temporary_id change items =
    map (λ (i : Item). if text_eq i.temporary_id temporary_id then change i else i) items
