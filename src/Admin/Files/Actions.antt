-- ===== src/Admin/Files/Actions.antt =====
-- The actions that store a waiting file lose no file (services/adminReviewActionService.js).
use emlynk_wabot.Prelude.{
  ℕ, ◌≡◌, ◌&&◌, Bool, Option, some, List, Text, text_eq, text_eq_iff, find_sound, is_some, arith,
  refl, subst,
}
use emlynk_wabot.Storage.Copy.{copy_to_free_name}
use emlynk_wabot.Storage.Copy.Keeps.{copy_to_free_name-IsCopy}
use emlynk_wabot.Storage.World.{Bucket}
use emlynk_wabot.Storage.Client.Sound.{IsBucket}
use emlynk_wabot.Admin.Tables.{Filed, Item, Tables, find_pending}
use emlynk_wabot.Admin.Checks.{
  ReviewError, Result, ok, err, ◌>>=◌, Naming, Prepared, pending_path, read_waiting_file, reread,
}
use emlynk_wabot.Admin.Filing.{
  Desk, Request, plain_port, settle, attempt, prepare_approval, approval_row, approve_pending,
}
use emlynk_wabot.Admin.Versions.{
  prepare_replacement, replacement_row, replace_verified_document, prepare_version, version_row,
  keep_document_as_version,
}
use emlynk_wabot.Admin.Files.{IsMove, thrown-IsMove, settle-IsMove, plain-IsStorage}

find_pending-id :
    (id : Text) (items : List Item) {row : Item}
    → find_pending id items ≡ some row
    → row.temporary_id ≡ id
unfolding find_pending
find_pending-id id items {row} h =
    let hit =
      find_sound (λ (i : Item). text_eq i.temporary_id id && is_some i.pending_storage_path) items
        h in
    (text_eq_iff row.temporary_id id).0 (ground (arith, hit))

reread-found :
    (before : Item) (t : Tables) {row : Item}
    → reread before t ≡ ok row
    → find_pending before.temporary_id t.items ≡ some row
unfolding reread ◌>>=◌
reread-found before t h = ground arith

-- The row of the transaction is the one with the key of the request.
pub same-row :
    (id : Text) (before : Item) (reads t : Tables) {row other : Item}
    → find_pending id reads.items ≡ some before
    → reread before t ≡ ok row
    → find_pending id t.items ≡ some other
    → row ≡ other
same-row id before reads t {row} {other} first again found =
    let e : find_pending id t.items ≡ some row =
      subst (λ i. find_pending i t.items ≡ some row) (find_pending-id id reads.items first)
        (reread-found before t again) in
    cc (e, found)

attempt-answers {ℓ κ ι} :
    {B : Type ℓ} {A : Type κ} (P : Desk B × Result Text → Type ι) (desk : Desk B) (r : Result A)
    (act : A → Desk B × Result Text)
    → ((e : ReviewError) → P (desk, err e))
    → ((a : A) → r ≡ ok a → P (act a))
    → P (attempt desk r act)
unfolding attempt
attempt-answers P desk (err e) act h k = h e
attempt-answers P desk (ok a) act h k = k a refl

module _ {ℓ κ} {B : Type ℓ} {Content : Type κ} (ops : Bucket B Content) (naming : Naming) where
  pub prepare_approval-before :
      (q : Request) (reads : Desk B) {p : Prepared}
      → prepare_approval ops naming q reads ≡ ok p
      → find_pending q.temporary_id reads.tables.items ≡ some p.before
  unfolding prepare_approval read_waiting_file ◌>>=◌
  prepare_approval-before q reads h = ground arith

  prepare_replacement-before :
      (q : Request) (reads : Desk B) {p : Prepared}
      → prepare_replacement ops naming q reads ≡ ok p
      → find_pending q.temporary_id reads.tables.items ≡ some p.before
  unfolding prepare_replacement read_waiting_file ◌>>=◌
  prepare_replacement-before q reads h = ground arith

  prepare_version-before :
      (q : Request) (reads : Desk B) {p : Prepared}
      → prepare_version ops naming q reads ≡ ok p
      → find_pending q.temporary_id reads.tables.items ≡ some p.before
  unfolding prepare_version read_waiting_file ◌>>=◌
  prepare_version-before q reads h = ground arith

pub approval_row-reread :
    (p : Prepared) (t : Tables) {row : Item}
    → approval_row p t ≡ ok row
    → reread p.before t ≡ ok row
unfolding approval_row ◌>>=◌
approval_row-reread p t h = ground arith

replacement_row-reread :
    (q : Request) (p : Prepared) (t : Tables) (found : Item × Filed)
    → replacement_row q p t ≡ ok found
    → reread p.before t ≡ ok found.0
unfolding replacement_row ◌>>=◌
replacement_row-reread q p t found h = ground arith

version_row-reread :
    (p : Prepared) (t : Tables) {row : Item} → version_row p t ≡ ok row → reread p.before t ≡ ok row
unfolding version_row ◌>>=◌
version_row-reread p t h = ground arith

module _ {ℓ κ} {B : Type ℓ} {Content : Type κ} (ops : Bucket B Content)
    (object : B → Text → Option Content) (laws : IsBucket ops object) (naming : Naming)
    (fails : Bool) (q : Request) (reads desk : Desk B) (row : Item) (x : Content)
    (found : find_pending q.temporary_id desk.tables.items ≡ some row)
    (waiting : object desk.bucket (pending_path row) ≡ some x) where
  abbrev Moves : Desk B × Result Text → Type κ
  Moves r = IsMove ops object laws (pending_path row) x desk r

  thrown : (e : ReviewError) → Moves (desk, err e)
  thrown e = thrown-IsMove ops object laws (pending_path row) x desk desk e waiting (λ p y had. had)

  -- A row that the transaction has found is the waiting one; then the copy and what follows it.
  moved_row :
      (before other : Item)
      → find_pending q.temporary_id reads.tables.items ≡ some before
      → reread before desk.tables ≡ ok other
      → (folder : Text) (name : ℕ → Text) (first : ℕ) (document : Text → Filed)
        (change : Tables → Tables)
      → Moves (
          settle ops fails
            (pending_path other)
            document
            change
            desk
            (copy_to_free_name (plain_port ops) (pending_path other) folder name first desk.bucket))
  moved_row before other first_read again folder name first document change =
      let same = same-row q.temporary_id before reads.tables desk.tables first_read again found in
      rw same (
        settle-IsMove ops object laws fails (pending_path row) folder name first document change
          desk x _ waiting refl
          (copy_to_free_name-IsCopy (plain_port ops) object (plain-IsStorage ops object laws)
            (pending_path row) folder name first desk.bucket))

  approve_pending-IsMove : Moves (approve_pending ops naming fails q reads desk)
  unfolding approve_pending
  approve_pending-IsMove =
      attempt-answers Moves desk (prepare_approval ops naming q reads) _ thrown λ p prepared.
        attempt-answers Moves desk (approval_row p desk.tables) _ thrown λ other checked.
          moved_row p.before other (prepare_approval-before ops naming q reads prepared)
            (approval_row-reread p desk.tables checked) _ _ _ _ _

  replace_verified_document-IsMove : Moves (replace_verified_document ops naming fails q reads desk)
  unfolding replace_verified_document
  replace_verified_document-IsMove =
      attempt-answers Moves desk (prepare_replacement ops naming q reads) _ thrown λ p prepared.
        attempt-answers Moves desk (replacement_row q p desk.tables) _ thrown λ other checked.
          moved_row p.before other.0 (prepare_replacement-before ops naming q reads prepared)
            (replacement_row-reread q p desk.tables other checked) _ _ _ _ _

  keep_document_as_version-IsMove : Moves (keep_document_as_version ops naming fails q reads desk)
  unfolding keep_document_as_version
  keep_document_as_version-IsMove =
      attempt-answers Moves desk (prepare_version ops naming q reads) _ thrown λ p prepared.
        attempt-answers Moves desk (version_row p desk.tables) _ thrown λ other checked.
          moved_row p.before other (prepare_version-before ops naming q reads prepared)
            (version_row-reread p desk.tables checked) _ _ _ _ _

  -- Approving a waiting file, replacing a VERIFIED document by it and keeping it as a version lose no
  -- file, however they end: every object but the waiting one stays; after success the file stands
  -- under the returned name, which had no object; after an error it still waits. The waiting file is
  -- in the bucket when the transaction runs.
  pub filing-IsMove :
      Moves (approve_pending ops naming fails q reads desk)
      × Moves (replace_verified_document ops naming fails q reads desk)
      × Moves (keep_document_as_version ops naming fails q reads desk)
  filing-IsMove =
      (approve_pending-IsMove, replace_verified_document-IsMove, keep_document_as_version-IsMove)
