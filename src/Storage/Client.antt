-- ===== src/Storage/Client.antt =====
-- services/clientDocumentService.js: storeClientDocument. The folder and the names of the attempts
-- are arguments; a database error other than a violation of the unique pair is too.
pub mod Sound
pub mod Safe
pub mod Stale
use emlynk_wabot.Prelude.{
  ℕ, suc, ◌+◌, ◌≡◌, Bool, true, false, ◌&&◌, ◌||◌, not, Option, none, some, List, [], ◌∷◌, Text,
  text_eq, any, length, keep, is_some, if◌then◌else◌,
}
use emlynk_wabot.Classification.{DocumentType, same_type}
use emlynk_wabot.Confidence.{Band}
use emlynk_wabot.Storage.Documents.{Document, VerificationStatus, verification_status_for_band}
use emlynk_wabot.Storage.Copy.{CopyResult, copy_to_free_name}
use emlynk_wabot.Storage.World.{Bucket, World, refers, renew_held, placement_port}

-- The arguments of storeClientDocument; `document_id` is the random key.
pub record Filing : Type 0 where
  pub temporary_storage_path : Text
  pub passport_id : Text
  pub document_type : DocumentType
  pub band : Band
  pub file_sha256 : Text
  pub temporary_id : Option Text
  pub document_id : Text
  pub folder : Text
  pub kept_name : ℕ → Text
  pub standard_name : ℕ → Text

pub data Inserted : Type 0 where
  inserted unique_violation failed lost : Inserted

pub data StoreResult : Type 0 where
  stored : Text → VerificationStatus → StoreResult
  duplicate claim_lost error unstorable : StoreResult

abbrev is_review : VerificationStatus → Bool
is_review VerificationStatus.review_required = true
is_review _ = false

-- document.count
unfoldable pub count_documents : Text → DocumentType → List Document → ℕ
count_documents passport_id document_type documents = length (
    keep
      (λ (d : Document).
        text_eq d.passport_id passport_id && same_type d.document_type document_type)
      documents)

-- documents has the unique pair (passport_id, file_sha256).
abbrev pub violates : Document → List Document → Bool
violates d documents =
    any
      (λ (e : Document). text_eq e.passport_id d.passport_id && text_eq e.file_sha256 d.file_sha256)
      documents

module _ {ℓ κ} {B : Type ℓ} {Content : Type κ} (ops : Bucket B Content) (clock : ℕ → ℕ)
    (fails : Document → Bool) where
  -- document.create
  abbrev pub insert : Document → World B → World B × Inserted
  insert d w =
      if violates d w.documents
      then (w, Inserted.unique_violation)
      else if fails d
      then (w, Inserted.failed)
      else (record w { documents = d ∷ w.documents }, Inserted.inserted)

  -- A transaction that did not commit: the tables are as before, but the claim's closure is not.
  abbrev pub rolled_back : World B → World B → World B
  rolled_back before after = record after { documents = before.documents; rows = before.rows }

  abbrev pub committed : World B → World B × Inserted → World B × Inserted
  committed before (after, Inserted.inserted) = (after, Inserted.inserted)
  committed before (after, answer) = (rolled_back before after, answer)

  -- The insert; with a claim in one transaction with a renewal.
  unfoldable pub insert_claimed : Document → World B → World B × Inserted
  unfolding renew_held
  insert_claimed d w =
      if is_some w.held
      then (let renewed = renew_held ops clock none w in
          if renewed.1
          then committed w (insert d renewed.0)
          else (rolled_back w renewed.0, Inserted.lost))
      else insert d w

  abbrev pub is_violation : Inserted → Bool
  is_violation Inserted.unique_violation = true
  is_violation _ = false

  -- removeObject, and what the failed insert comes to.
  abbrev pub remove_copy : Text → Inserted → World B → World B × StoreResult
  remove_copy path answer w =
      let (bucket, removed) = ops.remove path w.bucket in
      (
        record w { bucket = bucket },
        if is_violation answer && removed then StoreResult.duplicate else StoreResult.error,
      )

  -- The catch block, for an insert that failed.
  unfoldable pub clean_up : Text → Inserted → World B → World B × StoreResult
  unfolding renew_held
  clean_up path answer w =
      if is_some w.held
      then (let renewed = renew_held ops clock none w in
          if not renewed.1
          then (renewed.0, StoreResult.claim_lost)
          else if refers path (renewed.0).documents
          then (renewed.0, StoreResult.error)
          else remove_copy path answer renewed.0)
      else remove_copy path answer w

  module _ (f : Filing) where
    abbrev pub document : VerificationStatus → Text → Document
    document status path = record {
      document_id = f.document_id;
      passport_id = f.passport_id;
      document_type = f.document_type;
      storage_path = path;
      verification_status = status;
      file_sha256 = f.file_sha256;
      temporary_id = f.temporary_id;
    }

    -- From the copy on.
    unfoldable pub record_copy : VerificationStatus → World B × CopyResult → World B × StoreResult
    unfolding insert_claimed clean_up
    record_copy status (w, CopyResult.claim_lost) = (w, StoreResult.claim_lost)
    record_copy status (w, CopyResult.storage_error) = (w, StoreResult.error)
    record_copy status (w, CopyResult.no_free_name) = (w, StoreResult.error)
    record_copy status (w, CopyResult.placed path n reused) =
        let answer = insert_claimed (document status path) w in
        elim answer.1 [
          | Inserted.inserted ↦ (answer.0, StoreResult.stored path status)
          | Inserted.lost ↦ (answer.0, StoreResult.claim_lost)
          | Inserted.unique_violation ↦ clean_up path Inserted.unique_violation answer.0
          | Inserted.failed ↦ clean_up path Inserted.failed answer.0
        ]

    abbrev pub copied : VerificationStatus → World B → World B × CopyResult
    copied status w =
        let port = placement_port ops clock f.file_sha256 in
        if is_review status
        then copy_to_free_name port f.temporary_storage_path f.folder f.kept_name 1 w
        else copy_to_free_name port f.temporary_storage_path f.folder f.standard_name
            (count_documents f.passport_id f.document_type w.documents + 1) w

    unfoldable pub store_client_document : World B → World B × StoreResult
    unfolding record_copy
    store_client_document w = elim (verification_status_for_band f.band) [
      | none ↦ (w, StoreResult.unstorable)
      | some status ↦ record_copy status (copied status w)
    ]
