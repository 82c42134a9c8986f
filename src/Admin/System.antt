-- ===== src/Admin/System.antt =====
-- What admins do together: the actions of services/adminReviewActionService.js and
-- adminCorrectionService.js as steps, in any order. Each transaction runs at one state of the desk; the
-- state that its action has read before is any other.
use emlynk_wabot.Prelude.{ℕ, Bool, Option, Text}
use emlynk_wabot.Classification.{DocumentType}
use emlynk_wabot.Storage.World.{Bucket}
use emlynk_wabot.Admin.Tables.{Tables}
use emlynk_wabot.Admin.Checks.{Result, ok, err, Naming}
use emlynk_wabot.Admin.Filing.{Desk, Request, approve_pending}
use emlynk_wabot.Admin.Versions.{replace_verified_document, keep_document_as_version}
use emlynk_wabot.Admin.Decisions.{ReviewId, approve_document, keep_review_item_pending}
use emlynk_wabot.Admin.Removal.{remove_from_review, retry_failed_submission}
use emlynk_wabot.Admin.Corrections.{set_document_type, assign_client, set_police_submitted_date}

-- A transaction that throws changes nothing.
abbrev pub applied {ℓ} : {B : Type ℓ} → Desk B → Result Tables → Desk B
applied desk (ok t) = record desk { tables = t }
applied desk (err e) = desk

module _ {ℓ κ} {B : Type ℓ} {Content : Type κ} (ops : Bucket B Content) (naming : Naming) where
  pub data Step : Desk B → Desk B → Type (ℓ ⊔ κ) where
    approves :
        {desk : Desk B} (fails : Bool) (q : Request) (reads : Desk B)
        → Step desk (approve_pending ops naming fails q reads desk).0
    replaces :
        {desk : Desk B} (fails : Bool) (q : Request) (reads : Desk B)
        → Step desk (replace_verified_document ops naming fails q reads desk).0
    keeps_version :
        {desk : Desk B} (fails : Bool) (q : Request) (reads : Desk B)
        → Step desk (keep_document_as_version ops naming fails q reads desk).0
    approves_document :
        {desk : Desk B} (now : ℕ) (admin_id : Text) (reason : Option Text) (id : Text)
        (date : Option Text) (reads : Tables)
        → Step desk (applied desk (approve_document now admin_id reason id date reads desk.tables))
    keeps_pending :
        {desk : Desk B} (now : ℕ) (admin_id : Text) (reason : Option Text) (id : ReviewId)
        (reads : Tables)
        → Step desk
            (applied desk (keep_review_item_pending now admin_id reason id reads desk.tables))
    removes :
        {desk : Desk B} (now : ℕ) (admin_id : Text) (reason : Option Text) (id : ReviewId)
        (reads : Desk B)
        → Step desk (remove_from_review ops now admin_id reason id reads desk).0
    retries :
        {desk : Desk B} (now : ℕ) (admin_id : Text) (reason : Option Text) (id : Text)
        (reads : Desk B)
        → Step desk
            (applied desk (retry_failed_submission ops now admin_id reason id reads desk.tables))
    sets_type :
        {desk : Desk B} (now : ℕ) (admin_id : Text) (reason : Option Text) (id : ReviewId)
        (t : DocumentType) (reads : Tables)
        → Step desk (applied desk (set_document_type now admin_id reason id t reads desk.tables))
    assigns :
        {desk : Desk B} (now : ℕ) (admin_id : Text) (reason : Option Text) (id : ReviewId)
        (passport_id : Text) (reads : Tables)
        → Step desk
            (applied desk (assign_client now admin_id reason id passport_id reads desk.tables))
    sets_date :
        {desk : Desk B} (now : ℕ) (admin_id : Text) (reason : Option Text) (id date : Text)
        (reads : Tables)
        → Step desk
            (applied desk (set_police_submitted_date now admin_id reason id date reads desk.tables))

  pub data Reach (start : Desk B) : Desk B → Type (ℓ ⊔ κ) where
    here : Reach start start
    next : {a b : Desk B} → Reach start a → Step a b → Reach start b
