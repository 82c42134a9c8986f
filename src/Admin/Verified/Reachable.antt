-- ===== src/Admin/Verified/Reachable.antt =====
-- Every interleaving of admin actions keeps one VERIFIED document of a type at most
-- (services/adminReviewActionService.js).
use emlynk_wabot.Storage.World.{Bucket}
use emlynk_wabot.Admin.Checks.{Naming}
use emlynk_wabot.Admin.Filing.{Desk}
use emlynk_wabot.Admin.System.{
  Step, approves, replaces, keeps_version, approves_document, keeps_pending, removes, retries,
  sets_type, assigns, sets_date, Reach, here, next,
}
use emlynk_wabot.Admin.Verified.{IsSingle}
use emlynk_wabot.Admin.Verified.Filing.{
  approve_pending-IsSingle, replace_verified_document-IsSingle, keep_document_as_version-IsSingle,
}
use emlynk_wabot.Admin.Verified.Decisions.{
  same-IsSingle, keep_review_item_pending-same, set_document_type-same, assign_client-same,
  retry_failed_submission-same, set_police_submitted_date-IsSingle, approve_document-IsSingle,
  remove_from_review-IsSingle,
}

module _ {ℓ κ} {B : Type ℓ} {Content : Type κ} (ops : Bucket B Content) (naming : Naming) where
  Step-IsSingle :
      {a b : Desk B}
      → Step ops naming a b
      → IsSingle a.tables.documents
      → IsSingle b.tables.documents
  Step-IsSingle (approves fails q reads) s = approve_pending-IsSingle ops naming fails q reads _ s
  Step-IsSingle (replaces fails q reads) s =
      replace_verified_document-IsSingle ops naming fails q reads _ s
  Step-IsSingle (keeps_version fails q reads) s =
      keep_document_as_version-IsSingle ops naming fails q reads _ s
  Step-IsSingle (approves_document now admin_id reason id date reads) s =
      approve_document-IsSingle now admin_id reason _ id date reads s
  Step-IsSingle (keeps_pending {desk} now admin_id reason id reads) s =
      same-IsSingle desk _ (keep_review_item_pending-same now admin_id reason id reads desk.tables)
        s
  Step-IsSingle (removes now admin_id reason id reads) s =
      remove_from_review-IsSingle ops now admin_id reason id reads _ s
  Step-IsSingle (retries {desk} now admin_id reason id reads) s =
      same-IsSingle desk _
        (retry_failed_submission-same now admin_id reason ops id reads desk.tables) s
  Step-IsSingle (sets_type {desk} now admin_id reason id t reads) s =
      same-IsSingle desk _ (set_document_type-same now admin_id reason id t reads desk.tables) s
  Step-IsSingle (assigns {desk} now admin_id reason id passport_id reads) s =
      same-IsSingle desk _ (assign_client-same now admin_id reason id passport_id reads desk.tables)
        s
  Step-IsSingle (sets_date {desk} now admin_id reason id date reads) s =
      set_police_submitted_date-IsSingle now admin_id reason desk id date reads s

  -- However the actions of the admins interleave, whatever each has read before its transaction, and
  -- whether or not the database fails: if at the start no client has two VERIFIED documents of one
  -- type, none ever has.
  pub Reach-IsSingle :
      {start desk : Desk B}
      → Reach ops naming start desk
      → IsSingle start.tables.documents
      → IsSingle desk.tables.documents
  Reach-IsSingle here s = s
  Reach-IsSingle (next r step) s = Step-IsSingle step (Reach-IsSingle r s)
