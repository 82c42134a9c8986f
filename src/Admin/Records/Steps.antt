-- ===== src/Admin/Records/Steps.antt =====
-- Each admin action is recorded (services/adminReviewActionService.js, adminCorrectionService.js).
use emlynk_wabot.Prelude.{
  ℕ, ◌≡◌, inr, Bool, true, false, not, Option, none, List, ◌∷◌, Text, arith, refl, if◌then◌else◌,
}
use emlynk_wabot.Classification.{DocumentType}
use emlynk_wabot.Storage.Documents.{VerificationStatus}
use emlynk_wabot.Storage.World.{Bucket}
use emlynk_wabot.Admin.Tables.{Filed, Tables, Audit, with_status}
use emlynk_wabot.Admin.Checks.{ReviewError, Result, ok, err, ◌>>=◌, Naming, pending_path}
use emlynk_wabot.Admin.Filing.{
  Desk, Request, filed, prepare_approval, approval_row, approve_changes, approve_pending,
}
use emlynk_wabot.Admin.Versions.{
  prepare_replacement, replacement_row, replace_changes, replace_verified_document, prepare_version,
  version_row, version_changes, keep_document_as_version,
}
use emlynk_wabot.Admin.Decisions.{ReviewId, approve_document, keep_review_item_pending, approved}
use emlynk_wabot.Admin.Removal.{
  remove_item, remove_document, removed_with_files, remove_from_review, retry_failed_submission,
  requeue, forget_submission, without_submission, unlinked, is_removable, is_text,
}
use emlynk_wabot.Admin.Corrections.{
  set_document_type, assign_client, set_police_submitted_date, dated,
}
use emlynk_wabot.Admin.System.{
  applied, Step, approves, replaces, keeps_version, approves_document, keeps_pending, removes,
  retries, sets_type, assigns, sets_date,
}
use emlynk_wabot.Admin.Verified.Filing.{attempt-holds}
use emlynk_wabot.Admin.Records.{
  FileKey, has_key, on_record, IsRecorded, unchanged-IsRecorded, settle-IsRecorded, update-kept,
  create-kept, superseded-kept, approved-kept, any-map, any-keep,
}

-- The answer of a transaction on the tables.
data RecordedBy {A : Type 0} (tables : A → Tables) (t : Tables) : Result A → Type 0 where
  done : {a : A} → IsRecorded t (tables a) → RecordedBy tables t (ok a)
  thrown : {e : ReviewError} → RecordedBy tables t (err e)

abbrev Recorded : Tables → Result Tables → Type 0
Recorded t r = RecordedBy (λ u. u) t r

Recorded-applied {ℓ} :
    {B : Type ℓ} (desk : Desk B) (r : Result Tables)
    → Recorded desk.tables r
    → IsRecorded desk.tables (applied desk r).tables
Recorded-applied desk (ok u) (done h) = h
Recorded-applied desk (err e) thrown = unchanged-IsRecorded desk.tables

-- A step that throws changes nothing.
>>=-Recorded {ℓ} :
    {A : Type ℓ} {R : Type 0} {tables : R → Tables} (t : Tables) (m : Result A) (f : A → Result R)
    → ((a : A) → m ≡ ok a → RecordedBy tables t (f a))
    → RecordedBy tables t (m >>= f)
unfolding ◌>>=◌
>>=-Recorded t (ok a) f h = h a refl
>>=-Recorded t (err e) f h = thrown

-- Entries that leave the documents alone.
same-IsRecorded :
    (t u : Tables) (a : Audit) → u.audit ≡ a ∷ t.audit → u.documents ≡ t.documents → IsRecorded t u
same-IsRecorded t u a e same = record { entry = inr (a, e); kept = λ k h. rw same h }

module _ {ℓ κ} {B : Type ℓ} {Content : Type κ} (ops : Bucket B Content) (naming : Naming)
    (fails : Bool) (q : Request) (reads desk : Desk B) where
  abbrev FromDesk : Desk B → Type 0
  FromDesk after = IsRecorded desk.tables after.tables

  approve_pending-IsRecorded : FromDesk (approve_pending ops naming fails q reads desk).0
  unfolding approve_pending
  approve_pending-IsRecorded =
      attempt-holds FromDesk desk (prepare_approval ops naming q reads) _ (unchanged-IsRecorded _)
        λ p _.
          attempt-holds FromDesk desk (approval_row p desk.tables) _ (unchanged-IsRecorded _)
            λ row _.
              settle-IsRecorded ops fails (pending_path row)
                (filed q p row VerificationStatus.verified p.date) (approve_changes q p row) desk _
                λ path after made. record {
                  entry = inr (_, refl);
                  kept = λ k h. create-kept k _ desk.tables.documents after made h;
                }

  replace_verified_document-IsRecorded :
      FromDesk (replace_verified_document ops naming fails q reads desk).0
  unfolding replace_verified_document
  replace_verified_document-IsRecorded =
      attempt-holds FromDesk desk (prepare_replacement ops naming q reads) _
        (unchanged-IsRecorded _)
        λ p _.
          attempt-holds FromDesk desk (replacement_row q p desk.tables) _ (unchanged-IsRecorded _)
            λ found _.
              settle-IsRecorded ops fails (pending_path found.0)
                (filed q p found.0 VerificationStatus.verified p.date)
                (replace_changes q p found.0 found.1) desk _
                λ path after made. record {
                  entry = inr (_, refl);
                  kept = λ k h.
                      update-kept found.1.document_id (with_status VerificationStatus.superseded) k
                        after (superseded-kept k)
                        (create-kept k _ desk.tables.documents after made h);
                }

  keep_document_as_version-IsRecorded :
      FromDesk (keep_document_as_version ops naming fails q reads desk).0
  unfolding keep_document_as_version
  keep_document_as_version-IsRecorded =
      attempt-holds FromDesk desk (prepare_version ops naming q reads) _ (unchanged-IsRecorded _)
        λ p _.
          attempt-holds FromDesk desk (version_row p desk.tables) _ (unchanged-IsRecorded _)
            λ row _.
              settle-IsRecorded ops fails (pending_path row)
                (filed q p row VerificationStatus.review_required none) (version_changes q p row)
                desk _
                λ path after made. record {
                  entry = inr (_, refl);
                  kept = λ k h. create-kept k _ desk.tables.documents after made h;
                }

forgotten-kept :
    (id : Text) (k : FileKey) (documents : List Filed)
    → on_record k documents ≡ true
    → on_record k (forget_submission id documents) ≡ true
unfolding forget_submission
forgotten-kept id k documents h =
    any-map (has_key k) (without_submission id) documents
      (λ d hit. branch d hit (is_text d.temporary_id id)) h
  where
    branch :
        (d : Filed)
        → has_key k d ≡ true
        → (b : Bool) → has_key k (if b then unlinked d else d) ≡ true
    branch d hit true = hit
    branch d hit false = hit

-- A settled document is not the one that a removal matches.
not-removable :
    (id : Text) (k : FileKey) (d : Filed) → has_key k d ≡ true → not (is_removable id d) ≡ true
not-removable id k d h = ground arith

dated-kept :
    (date : Text) (k : FileKey) (d : Filed) → has_key k d ≡ true → has_key k (dated date d) ≡ true
dated-kept date k d h = h

module _ (now : ℕ) (admin_id : Text) (reason : Option Text) where
  keep_review_item_pending-Recorded :
      (id : ReviewId) (reads t : Tables)
      → Recorded t (keep_review_item_pending now admin_id reason id reads t)
  unfolding keep_review_item_pending
  keep_review_item_pending-Recorded (ReviewId.pending id) reads t = >>=-Recorded t _ _ λ _ _.
      >>=-Recorded t _ _ λ row _. >>=-Recorded t _ _ λ _ _. done (same-IsRecorded t _ _ refl refl)
  keep_review_item_pending-Recorded (ReviewId.document id) reads t = >>=-Recorded t _ _ λ _ _.
      >>=-Recorded t _ _ λ row _. >>=-Recorded t _ _ λ _ _. done (same-IsRecorded t _ _ refl refl)
  keep_review_item_pending-Recorded (ReviewId.failed id) reads t = >>=-Recorded t _ _ λ _ _.
      >>=-Recorded t _ _ λ row _. >>=-Recorded t _ _ λ _ _. done (same-IsRecorded t _ _ refl refl)

  approve_document-Recorded :
      (id : Text) (date : Option Text) (reads t : Tables)
      → Recorded t (approve_document now admin_id reason id date reads t)
  unfolding approve_document
  approve_document-Recorded id date reads t = >>=-Recorded t _ _ λ _ _. >>=-Recorded t _ _ λ _ _.
      >>=-Recorded t _ _ λ found _. done (record {
        entry = inr (_, refl);
        kept = λ k h. update-kept id (approved found.1) k t.documents (approved-kept found.1 k) h;
      })

  set_document_type-Recorded :
      (id : ReviewId) (type_ : DocumentType) (reads t : Tables)
      → Recorded t (set_document_type now admin_id reason id type_ reads t)
  unfolding set_document_type
  set_document_type-Recorded id type_ reads t = >>=-Recorded t _ _ λ _ _.
      >>=-Recorded t _ _ λ row _. >>=-Recorded t _ _ λ _ _. done (same-IsRecorded t _ _ refl refl)

  assign_client-Recorded :
      (id : ReviewId) (passport_id : Text) (reads t : Tables)
      → Recorded t (assign_client now admin_id reason id passport_id reads t)
  unfolding assign_client
  assign_client-Recorded id passport_id reads t = >>=-Recorded t _ _ λ _ _.
      >>=-Recorded t _ _ λ row _.
        >>=-Recorded t _ _
          λ _ _. >>=-Recorded t _ _ λ client _. done (same-IsRecorded t _ _ refl refl)

  set_police_submitted_date-Recorded :
      (id date : Text) (reads t : Tables)
      → Recorded t (set_police_submitted_date now admin_id reason id date reads t)
  unfolding set_police_submitted_date
  set_police_submitted_date-Recorded id date reads t = >>=-Recorded t _ _ λ _ _.
      >>=-Recorded t _ _ λ _ _. >>=-Recorded t _ _ λ row _. >>=-Recorded t _ _ λ _ _. done (record {
        entry = inr (_, refl);
        kept = λ k h. update-kept id (dated date) k t.documents (dated-kept date k) h;
      })

  requeue-Recorded : (id : Text) (t : Tables) → Recorded t (requeue now admin_id reason id t)
  unfolding requeue
  requeue-Recorded id t =
      >>=-Recorded t _ _ λ row _. >>=-Recorded t _ _ λ _ _. done (same-IsRecorded t _ _ refl refl)

  retry_failed_submission-Recorded {ℓ κ} :
      {B : Type ℓ} {Content : Type κ} (ops : Bucket B Content) (id : Text) (reads : Desk B)
      (t : Tables)
      → Recorded t (retry_failed_submission ops now admin_id reason id reads t)
  unfolding retry_failed_submission
  retry_failed_submission-Recorded ops id reads t =
      >>=-Recorded t _ _
        λ _ _. >>=-Recorded t _ _ λ _ _. >>=-Recorded t _ _ λ _ _. requeue-Recorded id t

  -- The transactions of a removal.
  abbrev Removed : Tables → Result (Tables × List Text) → Type 0
  Removed t r = RecordedBy (λ (left : Tables × List Text). left.0) t r

  remove_item-Removed :
      (id : Text) (reads t : Tables) → Removed t (remove_item now admin_id reason id reads t)
  unfolding remove_item
  remove_item-Removed id reads t = >>=-Recorded t _ _ λ _ _. >>=-Recorded t _ _ λ row _.
      done (record {
        entry = inr (_, refl);
        kept = λ k h. forgotten-kept row.temporary_id k t.documents h;
      })

  remove_document-Removed :
      (id : Text) (reads t : Tables) → Removed t (remove_document now admin_id reason id reads t)
  unfolding remove_document
  remove_document-Removed id reads t = >>=-Recorded t _ _ λ _ _. >>=-Recorded t _ _ λ row _.
      >>=-Recorded t _ _ λ _ _. done (record {
        entry = inr (_, refl);
        kept = λ k h.
            any-keep (has_key k) (λ d. not (is_removable row.document_id d)) t.documents
              (not-removable row.document_id k) h;
      })

  removed_with_files-IsRecorded {ℓ κ} :
      {B : Type ℓ} {Content : Type κ} (ops : Bucket B Content) (desk : Desk B)
      (r : Result (Tables × List Text))
      → Removed desk.tables r
      → IsRecorded desk.tables ((removed_with_files ops r desk).0).tables
  removed_with_files-IsRecorded ops desk (ok left) (done h) = h
  removed_with_files-IsRecorded ops desk (err e) thrown = unchanged-IsRecorded desk.tables

  remove_from_review-IsRecorded {ℓ κ} :
      {B : Type ℓ} {Content : Type κ} (ops : Bucket B Content) (id : ReviewId) (reads desk : Desk B)
      → IsRecorded desk.tables ((remove_from_review ops now admin_id reason id reads desk).0).tables
  unfolding remove_from_review
  remove_from_review-IsRecorded ops (ReviewId.pending id) reads desk =
      removed_with_files-IsRecorded ops desk _ (remove_item-Removed id reads.tables desk.tables)
  remove_from_review-IsRecorded ops (ReviewId.document id) reads desk =
      removed_with_files-IsRecorded ops desk _ (remove_document-Removed id reads.tables desk.tables)
  remove_from_review-IsRecorded ops (ReviewId.failed id) reads desk =
      removed_with_files-IsRecorded ops desk _ (remove_document-Removed id reads.tables desk.tables)

module _ {ℓ κ} {B : Type ℓ} {Content : Type κ} (ops : Bucket B Content) (naming : Naming) where
  -- An admin action either leaves the tables as they are, or adds exactly one audit entry; and every
  -- document that was settled (VERIFIED or SUPERSEDED) stays on record with its key, client, type,
  -- path and checksum, and stays settled.
  pub Step-IsRecorded : {a b : Desk B} → Step ops naming a b → IsRecorded a.tables b.tables
  Step-IsRecorded (approves fails q reads) = approve_pending-IsRecorded ops naming fails q reads _
  Step-IsRecorded (replaces fails q reads) =
      replace_verified_document-IsRecorded ops naming fails q reads _
  Step-IsRecorded (keeps_version fails q reads) =
      keep_document_as_version-IsRecorded ops naming fails q reads _
  Step-IsRecorded (approves_document {desk} now admin_id reason id date reads) =
      Recorded-applied desk _
        (approve_document-Recorded now admin_id reason id date reads desk.tables)
  Step-IsRecorded (keeps_pending {desk} now admin_id reason id reads) =
      Recorded-applied desk _
        (keep_review_item_pending-Recorded now admin_id reason id reads desk.tables)
  Step-IsRecorded (removes now admin_id reason id reads) =
      remove_from_review-IsRecorded now admin_id reason ops id reads _
  Step-IsRecorded (retries {desk} now admin_id reason id reads) =
      Recorded-applied desk _
        (retry_failed_submission-Recorded now admin_id reason ops id reads desk.tables)
  Step-IsRecorded (sets_type {desk} now admin_id reason id t reads) =
      Recorded-applied desk _
        (set_document_type-Recorded now admin_id reason id t reads desk.tables)
  Step-IsRecorded (assigns {desk} now admin_id reason id passport_id reads) =
      Recorded-applied desk _
        (assign_client-Recorded now admin_id reason id passport_id reads desk.tables)
  Step-IsRecorded (sets_date {desk} now admin_id reason id date reads) =
      Recorded-applied desk _
        (set_police_submitted_date-Recorded now admin_id reason id date reads desk.tables)
