-- ===== src/Admin/Verified/Decisions.antt =====
-- The actions that store no file keep one VERIFIED document of a type at most
-- (services/adminReviewActionService.js, adminCorrectionService.js).
use emlynk_wabot.Prelude.{
  ℕ, ◌≡◌, inl, inr, Bool, true, false, ◌&&◌, not, Option, none, some, List, Text, text_eq,
  text_eq_iff, find_sound, keep, arith, refl, subst, if◌then◌else◌, Option-cases,
}
use emlynk_wabot.Classification.{DocumentType}
use emlynk_wabot.Storage.World.{Bucket}
use emlynk_wabot.Admin.Tables.{
  Filed, ItemType, Tables, is_verified_of_type, is_review_required, find_verified_of_type,
  find_pending, find_review_document, update_document,
}
use emlynk_wabot.Admin.Checks.{Result, ok, err, ◌>>=◌, Result-cases, approval_blocker}
use emlynk_wabot.Admin.Filing.{Desk}
use emlynk_wabot.Admin.Decisions.{
  ReviewId, approve_document, document_to_approve, keep_review_item_pending,
}
use emlynk_wabot.Admin.Removal.{
  is_removable, is_text, forget_submission, without_submission, unlinked, removed_with_files,
  remove_from_review, remove_item, remove_document, retry_failed_submission, requeue,
}
use emlynk_wabot.Admin.Corrections.{
  set_document_type, assign_client, set_police_submitted_date, dated,
}
use emlynk_wabot.Admin.System.{applied}
use emlynk_wabot.Admin.Verified.{IsSingle}
use emlynk_wabot.Admin.Verified.Changes.{map-IsSingle, keep-IsSingle, approved-IsSingle}

-- The answer of a transaction on the tables leaves the documents as they are.
abbrev pub SameDocuments : Tables → Result Tables → Type 0
SameDocuments t (ok u) = u.documents ≡ t.documents
SameDocuments t (err e) = Unit

pub same-IsSingle {ℓ} :
    {B : Type ℓ} (desk : Desk B) (r : Result Tables)
    → SameDocuments desk.tables r
    → IsSingle desk.tables.documents
    → IsSingle (applied desk r).tables.documents
same-IsSingle desk (ok u) same s = rw same s
same-IsSingle desk (err e) same s = s

review_document-id :
    (id : Text) (documents : List Filed) {row : Filed}
    → find_review_document id documents ≡ some row
    → row.document_id ≡ id
unfolding find_review_document
review_document-id id documents {row} h =
    let hit =
      find_sound
        (λ (d : Filed). text_eq d.document_id id && is_review_required d.verification_status)
        documents h in
    (text_eq_iff row.document_id id).0 (ground (arith, hit))

-- The row waits for a review, and no other document of its client and type is VERIFIED.
to_approve-free :
    (id : Text) (given : Option Text) (t : Tables) (found : Filed × Option Text)
    → document_to_approve id given t ≡ ok found
    → (find_review_document id t.documents ≡ some found.0)
      × (find_verified_of_type found.0.passport_id
            (ItemType.typed found.0.document_type)
            (some id)
            t.documents
          ≡ none)
unfolding document_to_approve approval_blocker ◌>>=◌
to_approve-free id given t found h =
    let row : find_review_document id t.documents ≡ some found.0 = ground arith in
    let free : find_verified_of_type found.0.passport_id (ItemType.typed found.0.document_type)
          (some found.0.document_id) t.documents
        ≡ none =
      ground arith in
    (
      row,
      subst
          (λ i.
            find_verified_of_type found.0.passport_id (ItemType.typed found.0.document_type)
              (some i) t.documents
            ≡ none)
          (review_document-id id t.documents row) free,
    )

dated-IsSingle :
    (id date : Text) (documents : List Filed)
    → IsSingle documents
    → IsSingle (update_document id (dated date) documents)
unfolding update_document
dated-IsSingle id date documents s =
    map-IsSingle (λ (d : Filed). if text_eq d.document_id id then dated date d else d) documents
      (λ p t d. same_count p t d (text_eq d.document_id id))
      (λ d. same_id d (text_eq d.document_id id)) s
  where
    same_count :
        (p : Text) (t : ItemType) (d : Filed) (hit : Bool)
        → is_verified_of_type p t (if hit then dated date d else d) ≡ is_verified_of_type p t d
    same_count p t d true = refl
    same_count p t d false = refl

    same_id :
        (d : Filed) (hit : Bool) → (if hit then dated date d else d).document_id ≡ d.document_id
    same_id d true = refl
    same_id d false = refl

module _ (now : ℕ) (admin_id : Text) (reason : Option Text) where
  pub keep_review_item_pending-same :
      (id : ReviewId) (reads t : Tables)
      → SameDocuments t (keep_review_item_pending now admin_id reason id reads t)
  unfolding keep_review_item_pending ◌>>=◌
  keep_review_item_pending-same (ReviewId.pending id) reads t = ground arith
  keep_review_item_pending-same (ReviewId.document id) reads t = ground arith
  keep_review_item_pending-same (ReviewId.failed id) reads t = ground arith

  pub set_document_type-same :
      (id : ReviewId) (type_ : DocumentType) (reads t : Tables)
      → SameDocuments t (set_document_type now admin_id reason id type_ reads t)
  unfolding set_document_type ◌>>=◌
  set_document_type-same id type_ reads t = ground arith

  pub assign_client-same :
      (id : ReviewId) (passport_id : Text) (reads t : Tables)
      → SameDocuments t (assign_client now admin_id reason id passport_id reads t)
  unfolding assign_client ◌>>=◌
  assign_client-same id passport_id reads t = ground arith

  pub retry_failed_submission-same {ℓ κ} :
      {B : Type ℓ} {Content : Type κ} (ops : Bucket B Content) (id : Text) (reads : Desk B)
      (t : Tables)
      → SameDocuments t (retry_failed_submission ops now admin_id reason id reads t)
  unfolding retry_failed_submission requeue ◌>>=◌
  retry_failed_submission-same ops id reads t = ground arith

  pub set_police_submitted_date-IsSingle {ℓ} :
      {B : Type ℓ} (desk : Desk B) (id date : Text) (reads : Tables)
      → IsSingle desk.tables.documents
      → IsSingle
          (applied desk (
            set_police_submitted_date now admin_id reason id date reads
              desk.tables)).tables.documents
  unfolding set_police_submitted_date ◌>>=◌
  set_police_submitted_date-IsSingle desk id date reads s =
      ground (arith, dated-IsSingle id date desk.tables.documents s)

  pub approve_document-IsSingle {ℓ} :
      {B : Type ℓ} (desk : Desk B) (id : Text) (date : Option Text) (reads : Tables)
      → IsSingle desk.tables.documents
      → IsSingle
          (applied desk
            (approve_document now admin_id reason id date reads desk.tables)).tables.documents
  unfolding approve_document ◌>>=◌
  approve_document-IsSingle desk id date reads s =
      elim (Result-cases (document_to_approve id date desk.tables)) [
        | inr (e, refused) ↦ ground (arith, refused)
        | inl (found, checked) ↦
            let (row, free) = to_approve-free id date desk.tables found checked in
            ground (
              arith,
              checked,
              approved-IsSingle id found.1 desk.tables.documents found.0 row free s,
            )
      ]

forgotten-IsSingle :
    (id : Text) (documents : List Filed)
    → IsSingle documents
    → IsSingle (forget_submission id documents)
unfolding forget_submission
forgotten-IsSingle id documents s =
    map-IsSingle (without_submission id) documents
      (λ p t d. same_count p t d (is_text d.temporary_id id))
      (λ d. same_id d (is_text d.temporary_id id)) s
  where
    same_count :
        (p : Text) (t : ItemType) (d : Filed) (hit : Bool)
        → is_verified_of_type p t (if hit then unlinked d else d) ≡ is_verified_of_type p t d
    same_count p t d true = refl
    same_count p t d false = refl

    same_id : (d : Filed) (hit : Bool) → (if hit then unlinked d else d).document_id ≡ d.document_id
    same_id d true = refl
    same_id d false = refl

module _ (now : ℕ) (admin_id : Text) (reason : Option Text) (id : Text) (reads t : Tables)
    (left : Tables × List Text) where
  removed_item-IsSingle :
      remove_item now admin_id reason id reads t ≡ ok left
      → IsSingle t.documents
      → IsSingle left.0.documents
  unfolding remove_item ◌>>=◌
  removed_item-IsSingle h s = elim (Option-cases (find_pending id t.items)) [
    | inl gone ↦ absurd (ground (arith, gone))
    | inr (row, found) ↦
        let e : left.0.documents ≡ forget_submission row.temporary_id t.documents =
          ground (arith, found) in
        rw e (forgotten-IsSingle row.temporary_id t.documents s)
  ]

  removed_document-IsSingle :
      remove_document now admin_id reason id reads t ≡ ok left
      → IsSingle t.documents
      → IsSingle left.0.documents
  unfolding remove_document ◌>>=◌
  removed_document-IsSingle h s = elim (Option-cases (find_review_document id t.documents)) [
    | inl gone ↦ absurd (ground (arith, gone))
    | inr (row, found) ↦
        let e : left.0.documents ≡ keep (λ d. not (is_removable row.document_id d)) t.documents =
          ground (arith, found) in
        rw e (keep-IsSingle (λ d. not (is_removable row.document_id d)) t.documents s)
  ]

module _ {ℓ κ} {B : Type ℓ} {Content : Type κ} (ops : Bucket B Content) (now : ℕ) (admin_id : Text)
    (reason : Option Text) where
  document_removed :
      (id : Text) (reads desk : Desk B)
      → IsSingle desk.tables.documents
      → IsSingle
          ((removed_with_files ops
              (remove_document now admin_id reason id reads.tables desk.tables)
              desk).0
            ).tables.documents
  document_removed id reads desk s =
      elim (Result-cases (remove_document now admin_id reason id reads.tables desk.tables)) [
        | inr (e, refused) ↦ rw refused s
        | inl (left, removed) ↦ rw removed (
            removed_document-IsSingle now admin_id reason id reads.tables desk.tables left removed
              s)
      ]

  pub remove_from_review-IsSingle :
      (id : ReviewId) (reads desk : Desk B)
      → IsSingle desk.tables.documents
      → IsSingle ((remove_from_review ops now admin_id reason id reads desk).0).tables.documents
  unfolding remove_from_review
  remove_from_review-IsSingle (ReviewId.pending id) reads desk s =
      elim (Result-cases (remove_item now admin_id reason id reads.tables desk.tables)) [
        | inr (e, refused) ↦ rw refused s
        | inl (left, removed) ↦
            rw removed
              (removed_item-IsSingle now admin_id reason id reads.tables desk.tables left removed s)
      ]
  remove_from_review-IsSingle (ReviewId.document id) reads desk s = document_removed id reads desk s
  remove_from_review-IsSingle (ReviewId.failed id) reads desk s = document_removed id reads desk s
