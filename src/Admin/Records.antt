-- ===== src/Admin/Records.antt =====
-- What every admin action leaves behind: an audit entry for each change, and the documents that are
-- not waiting for a review (services/adminReviewActionService.js).
pub mod Steps
use emlynk_wabot.Prelude.{
  ◌≡◌, ◌⊎◌, inl, inr, Bool, true, false, ◌&&◌, ◌||◌, not, Option, none, some, List, [], ◌∷◌, Text,
  text_eq, any, keep, map, arith, refl, if◌then◌else◌, Bool-cases, Option-cases,
}
use emlynk_wabot.Classification.{DocumentType, same_type}
use emlynk_wabot.Storage.Documents.{VerificationStatus}
use emlynk_wabot.Storage.Copy.{CopyResult}
use emlynk_wabot.Storage.World.{Bucket}
use emlynk_wabot.Admin.Tables.{
  Filed, Tables, Audit, is_review_required, create, update_document, with_status,
}
use emlynk_wabot.Admin.Checks.{Result, ok, err, Naming}
use emlynk_wabot.Admin.Filing.{Desk, Request, settle, attempt, filed}
use emlynk_wabot.Admin.Decisions.{approved}
use emlynk_wabot.Admin.Corrections.{dated}
use emlynk_wabot.Admin.Removal.{
  is_removable, unlinked, without_submission, forget_submission, is_text,
}

-- The file of a document as it is on record, and not waiting for a review.
pub record FileKey : Type 0 where
  pub document_id : Text
  pub passport_id : Text
  pub document_type : DocumentType
  pub storage_path : Text
  pub file_sha256 : Text

abbrev pub has_key : FileKey → Filed → Bool
has_key k d =
    text_eq d.document_id k.document_id
    && text_eq d.passport_id k.passport_id
    && same_type d.document_type k.document_type
    && text_eq d.storage_path k.storage_path
    && text_eq d.file_sha256 k.file_sha256
    && not (is_review_required d.verification_status)

abbrev pub on_record : FileKey → List Filed → Bool
on_record k documents = any (has_key k) documents

-- A change of the tables is recorded by one new entry, and takes no settled document off the record.
pub record IsRecorded (t u : Tables) : Type 0 where
  pub entry : (u ≡ t) ⊎ ((a : Audit) × (u.audit ≡ a ∷ t.audit))
  pub kept : (k : FileKey) → on_record k t.documents ≡ true → on_record k u.documents ≡ true

pub unchanged-IsRecorded : (t : Tables) → IsRecorded t t
unchanged-IsRecorded t = record { entry = inl refl; kept = λ k h. h }

pub any-map :
    (q : Filed → Bool) (f : Filed → Filed) (documents : List Filed)
    → ((d : Filed) → q d ≡ true → q (f d) ≡ true)
    → any q documents ≡ true
    → any q (map f documents) ≡ true
any-map q f [] same h = h
any-map q f (d ∷ rest) same h = elim (Bool-cases (q d)) [
  | inl hit ↦ rw (same d hit) refl
  | inr miss ↦ let later = any-map q f rest same (rw miss at h) in ground (arith, later)
]

pub any-keep :
    (q r : Filed → Bool) (documents : List Filed)
    → ((d : Filed) → q d ≡ true → r d ≡ true)
    → any q documents ≡ true
    → any q (keep r documents) ≡ true
any-keep q r [] same h = h
any-keep q r (d ∷ rest) same h = elim (Bool-cases (q d)) [
  | inl hit ↦ rw (same d hit) (rw hit refl)
  | inr miss ↦ let later = any-keep q r rest same (rw miss at h) in ground (arith, later)
]

-- An update of the rows with a key, each of which keeps what a settled document has.
pub update-kept :
    (id : Text) (change : Filed → Filed) (k : FileKey) (documents : List Filed)
    → ((d : Filed) → has_key k d ≡ true → has_key k (change d) ≡ true)
    → on_record k documents ≡ true
    → on_record k (update_document id change documents) ≡ true
unfolding update_document
update-kept id change k documents same h =
    any-map (has_key k) (λ (d : Filed). if text_eq d.document_id id then change d else d) documents
      (λ d hit. branch d hit (text_eq d.document_id id)) h
  where
    branch :
        (d : Filed) → has_key k d ≡ true → (b : Bool) → has_key k (if b then change d else d) ≡ true
    branch d hit true = same d hit
    branch d hit false = hit

pub create-kept :
    (k : FileKey) (d : Filed) (documents after : List Filed)
    → create d documents ≡ some after
    → on_record k documents ≡ true
    → on_record k after ≡ true
unfolding create
create-kept k d documents after made h = ground arith

pub superseded-kept :
    (k : FileKey) (d : Filed)
    → has_key k d ≡ true
    → has_key k (with_status VerificationStatus.superseded d) ≡ true
superseded-kept k d h = ground arith

pub approved-kept :
    (date : Option Text) (k : FileKey) (d : Filed)
    → has_key k d ≡ true
    → has_key k (approved date d) ≡ true
approved-kept date k d h = ground arith

-- An action that stores a file, given its changes after the document was created.
pub settle-IsRecorded {ℓ κ} :
    {B : Type ℓ} {Content : Type κ} (ops : Bucket B Content) (fails : Bool) (pending : Text)
    (document : Text → Filed) (change : Tables → Tables) (desk : Desk B) (copied : B × CopyResult)
    → ((path : Text) (after : List Filed)
        → create (document path) desk.tables.documents ≡ some after
        → IsRecorded desk.tables (change (record desk.tables { documents = after })))
    → IsRecorded desk.tables ((settle ops fails pending document change desk copied).0).tables
unfolding settle
settle-IsRecorded ops fails pending document change desk (b, CopyResult.claim_lost) h =
    unchanged-IsRecorded desk.tables
settle-IsRecorded ops fails pending document change desk (b, CopyResult.storage_error) h =
    unchanged-IsRecorded desk.tables
settle-IsRecorded ops fails pending document change desk (b, CopyResult.no_free_name) h =
    unchanged-IsRecorded desk.tables
settle-IsRecorded ops fails pending document change desk (b, CopyResult.placed path n reused) h =
    elim (Option-cases (create (document path) desk.tables.documents)) [
      | inl taken ↦ rw (taken, settle) (unchanged-IsRecorded desk.tables)
      | inr (after, made) ↦
          rw (made, settle)
            (elim (Bool-cases fails) [
              | inl broken ↦ rw broken (unchanged-IsRecorded desk.tables)
              | inr works ↦ rw works (h path after made)
            ])
    ]
