-- ===== src/Admin/Undated.antt =====
-- approvePending decides about the date of a slip before its transaction
-- (services/adminReviewActionService.js).
use emlynk_wabot.Prelude.{◌≡◌, Bool, false, none, some, ◌∷◌, Text, arith, refl, ap}
use emlynk_wabot.Classification.{DocumentType}
use emlynk_wabot.Storage.Documents.{VerificationStatus}
use emlynk_wabot.Storage.Copy.{CopyResult}
use emlynk_wabot.Storage.World.{Bucket}
use emlynk_wabot.Admin.Tables.{Filed, Item, ItemType, Tables, find_pending, create}
use emlynk_wabot.Admin.Checks.{
  Result, ok, err, ◌>>=◌, is_slip, police_date_for_approval, read_waiting_file, Naming, Prepared,
  pending_path,
}
use emlynk_wabot.Admin.Filing.{
  Desk, Request, filed, settle, attempt, prepare_approval, approval_row, approve_changes,
  approve_pending, store_standard,
}
use emlynk_wabot.Admin.Files.Actions.{same-row, prepare_approval-before, approval_row-reread}

-- An action that answers with a path has come to its last step.
attempt-ok {ℓ κ} :
    {B : Type ℓ} {A : Type κ} (desk : Desk B) (r : Result A) (act : A → Desk B × Result Text)
    {path : Text}
    → (attempt desk r act).1 ≡ ok path
    → (a : A) × (r ≡ ok a) × (attempt desk r act ≡ act a)
unfolding attempt
attempt-ok desk (ok a) act h = (a, refl, refl)
attempt-ok desk (err e) act h = absurd (cc h)

-- And has created its document.
settle-created {ℓ κ} :
    {B : Type ℓ} {Content : Type κ} (ops : Bucket B Content) (fails : Bool) (pending : Text)
    (document : Text → Filed) (change : Tables → Tables) (desk : Desk B) (copied : B × CopyResult)
    {path : Text}
    → (settle ops fails pending document change desk copied).1 ≡ ok path
    → ((settle ops fails pending document change desk copied).0).tables
      ≡ change (record desk.tables { documents = document path ∷ desk.tables.documents })
unfolding settle create
settle-created ops fails pending document change desk (b, CopyResult.claim_lost) h = absurd (cc h)
settle-created ops fails pending document change desk (b, CopyResult.storage_error) h =
    absurd (cc h)
settle-created ops fails pending document change desk (b, CopyResult.no_free_name) h = absurd (cc h)
settle-created ops fails pending document change desk (b, CopyResult.placed path n reused) h =
    ground arith

module _ {ℓ κ} {B : Type ℓ} {Content : Type κ} (ops : Bucket B Content) (naming : Naming) where
  prepared-undated :
      (q : Request) (reads : Desk B) {p : Prepared}
      → prepare_approval ops naming q reads ≡ ok p
      → is_slip p.before.document_type ≡ false
      → p.date ≡ none
  unfolding prepare_approval police_date_for_approval read_waiting_file ◌>>=◌
  prepared-undated q reads h other = ground arith

  -- A file that another admin makes a police slip after the approval has first read it is stored as a
  -- VERIFIED police slip with no submitted date, for which policeDateForApproval asks otherwise.
  pub retyped-undated :
      (fails : Bool) (q : Request) (reads desk : Desk B) (before row : Item) (path : Text)
      → find_pending q.temporary_id reads.tables.items ≡ some before
      → is_slip before.document_type ≡ false
      → find_pending q.temporary_id desk.tables.items ≡ some row
      → row.document_type ≡ ItemType.typed DocumentType.police_slip
      → (approve_pending ops naming fails q reads desk).1 ≡ ok path
      → (d : Filed) × ((((approve_pending ops naming fails q reads desk).0).tables).documents
          ≡ d ∷ desk.tables.documents)
        × (d.document_type ≡ DocumentType.police_slip)
        × (d.verification_status ≡ VerificationStatus.verified)
        × (d.police_submitted_date ≡ none)
  unfolding approve_pending
  retyped-undated fails q reads desk before row path first other found slip answer =
      let (p, prepared, e) = attempt-ok desk (prepare_approval ops naming q reads) _ answer in
      let (again, checked, e') = attempt-ok desk (approval_row p desk.tables) _ (rw e at answer) in
      let created =
        settle-created ops fails (pending_path again)
          (filed q p again VerificationStatus.verified p.date) (approve_changes q p again) desk
          (store_standard ops naming p again desk) (rw e' at (rw e at answer)) in
      let read_first = prepare_approval-before ops naming q reads prepared in
      let same_before : p.before ≡ before = cc (read_first, first) in
      let same_now : again ≡ row =
        same-row q.temporary_id p.before reads.tables desk.tables read_first
          (approval_row-reread p desk.tables checked) found in
      (
        filed q p again VerificationStatus.verified p.date path,
        rw e (rw e' (ap (λ (t : Tables). t.documents) created)),
        rw same_now (rw slip refl),
        refl,
        prepared-undated q reads prepared (rw same_before other),
      )
