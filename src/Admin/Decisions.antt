-- ===== src/Admin/Decisions.antt =====
-- services/adminReviewActionService.js: the actions that store no file, approveDocument,
-- keepReviewItemPending, removeFromReview and retryFailedSubmission, on the tables. `reads` are the
-- tables that an action sees before its transaction.
use emlynk_wabot.Prelude.{
  ℕ, ◌-◌, Bool, true, false, ◌&&◌, not, Option, none, some, List, ◌∷◌, Text, text_eq, find, is_some,
  if◌then◌else◌, ltb,
}
use emlynk_wabot.Storage.Documents.{VerificationStatus}
use emlynk_wabot.Admin.Tables.{
  Filed, Item, ItemType, Tables, ReviewAction, Status, Audit, find_pending, find_review_document,
  duplicate_match_of, update_document, with_status,
}
use emlynk_wabot.Admin.Checks.{
  ReviewError, Result, ok, ◌>>=◌, ◌>>◌, guard, some_or, approval_blocker, police_date_for_approval,
}

-- REVIEW_KIND with the id: parseReviewId
pub data ReviewId : Type 0 where
  pending document failed : Text → ReviewId

-- createAudit with the arguments that every action gives; the others are null.
abbrev pub entry : ℕ → Text → Option Text → ReviewAction → Status → Status → Audit
entry now admin_id reason action previous new_ = record {
  admin_id = admin_id;
  action = action;
  temporary_id = none;
  document_id = none;
  passport_id = none;
  previous_status = previous;
  new_status = new_;
  reason = reason;
  police_submitted_date = none;
  document_type = none;
  file_sha256 = none;
  previous_value = none;
  new_value = none;
  created_date = now;
}

abbrev pub review_required : Status
review_required = Status.verification VerificationStatus.review_required

-- The document with the status VERIFIED, and the date if it had none.
abbrev pub approved : Option Text → Filed → Filed
approved date d = record (with_status VerificationStatus.verified d) {
  police_submitted_date =
      if is_some date && not (is_some d.police_submitted_date)
      then date
      else d.police_submitted_date;
}

abbrev same_text : Option Text → Option Text → Bool
same_text none none = true
same_text (some a) (some b) = text_eq a b
same_text _ _ = false

abbrev is_keep_pending : ReviewAction → Bool
is_keep_pending ReviewAction.keep_pending = true
is_keep_pending _ = false

-- DUPLICATE_ACTION_WINDOW_MS
abbrev pub duplicate_action_window_ms : ℕ
duplicate_action_window_ms = 60_000

abbrev about_item : Text → Audit → Bool
about_item id a = elim a.temporary_id [ none ↦ false | some t ↦ text_eq t id ]

abbrev about_document : Text → Audit → Bool
about_document id a = elim a.document_id [ none ↦ false | some d ↦ text_eq d id ]

-- The checks in the transaction of approveDocument: the row, and the date that is stored.
unfoldable pub document_to_approve : Text → Option Text → Tables → Result (Filed × Option Text)
document_to_approve document_id given t = do
  row ← some_or (find_review_document document_id t.documents) ReviewError.already_resolved
  approval_blocker t.documents (some row.passport_id) (ItemType.typed row.document_type)
      (some row.document_id) none
  date ← police_date_for_approval (ItemType.typed row.document_type) row.police_submitted_date given
  ok (row, date)

module _ (now : ℕ) (admin_id : Text) (reason : Option Text) where
  abbrev approval_of : Text → Option Text → Filed → Tables → Tables
  approval_of document_id date row t = record t {
    documents = update_document document_id (approved date) t.documents;
    audit =
        record (entry now admin_id reason ReviewAction.approve review_required
          (Status.verification VerificationStatus.verified)) {
            temporary_id = row.temporary_id;
            document_id = some document_id;
            passport_id = some row.passport_id;
            police_submitted_date = date;
          }
        ∷ t.audit;
  }

  -- approveDocument
  unfoldable pub approve_document : Text → Option Text → Tables → Tables → Result Tables
  approve_document document_id given reads t = do
    before ← some_or (find_review_document document_id reads.documents) ReviewError.not_found
    _ ←
        police_date_for_approval (ItemType.typed before.document_type) before.police_submitted_date
          given
    found ← document_to_approve document_id given t
    ok (approval_of document_id found.1 found.0 t)

  -- `repeated`, of the latest entry about the item
  unfoldable pub is_repeated : Option Audit → Bool
  is_repeated none = false
  is_repeated (some latest) =
      is_keep_pending latest.action
      && text_eq latest.admin_id admin_id
      && same_text latest.reason reason
      && ltb (now - latest.created_date) duplicate_action_window_ms

  -- The entry for a waiting file; a kept duplicate names the document that it copies.
  abbrev kept_item : List Filed → Item → Audit
  kept_item documents row =
      let match = duplicate_match_of documents row in
      let kept =
        record (entry now admin_id reason ReviewAction.keep_pending (Status.processing row.status)
          (Status.processing row.status)) {
            temporary_id = some row.temporary_id;
            passport_id = row.passport_id;
          } in
      elim match [
        | none ↦ kept
        | some d ↦ record kept {
          document_id = some d.document_id;
          document_type = some row.document_type;
          file_sha256 = row.file_sha256;
        }
      ]

  abbrev kept_document : Filed → Audit
  kept_document row =
      record (entry now admin_id reason ReviewAction.keep_pending
        (Status.verification row.verification_status)
        (Status.verification row.verification_status)) {
          temporary_id = row.temporary_id;
          document_id = some row.document_id;
          passport_id = some row.passport_id;
        }

  abbrev with_entry : Audit → Tables → Tables
  with_entry a t = record t { audit = a ∷ t.audit }

  abbrev keep_document : Text → Tables → Tables → Result Tables
  keep_document id reads t = do
    _ ← some_or (find_review_document id reads.documents) ReviewError.not_found
    row ← some_or (find_review_document id t.documents) ReviewError.already_resolved
    guard (not (is_repeated (find (about_document row.document_id) t.audit)))
        ReviewError.duplicate_action
    ok (with_entry (kept_document row) t)

  -- keepReviewItemPending; an id of another kind than PENDING is taken for a document's.
  unfoldable pub keep_review_item_pending : ReviewId → Tables → Tables → Result Tables
  unfolding is_repeated
  keep_review_item_pending (ReviewId.pending id) reads t = do
    _ ← some_or (find_pending id reads.items) ReviewError.not_found
    row ← some_or (find_pending id t.items) ReviewError.already_resolved
    guard (not (is_repeated (find (about_item row.temporary_id) t.audit)))
        ReviewError.duplicate_action
    ok (with_entry (kept_item t.documents row) t)
  keep_review_item_pending (ReviewId.document id) reads t = keep_document id reads t
  keep_review_item_pending (ReviewId.failed id) reads t = keep_document id reads t
