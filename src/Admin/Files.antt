-- ===== src/Admin/Files.antt =====
-- The files of the bucket under the actions that store a waiting file
-- (services/adminReviewActionService.js).
pub mod Actions
use emlynk_wabot.Prelude.{
  ℕ, zero, suc, ◌≡◌, ◌≢◌, ◌⊎◌, inl, inr, Bool, true, false, Option, none, some, List, ◌∷◌, Text,
  arith, refl, ap, sym, subst, ◌∙◌, Bool-cases, Option-cases, if◌then◌else◌,
}
use emlynk_wabot.Storage.Documents.{VerificationStatus}
use emlynk_wabot.Storage.Copy.{
  Exists, Copied, CopyResult, Port, copy_tries, copy_to_free_name, path_of,
}
use emlynk_wabot.Storage.Copy.Keeps.{
  IsStorage, IsCopy, Exists-cases, Copied-cases, copy_to_free_name-IsCopy,
}
use emlynk_wabot.Storage.World.{Bucket}
use emlynk_wabot.Storage.Client.Sound.{IsBucket}
use emlynk_wabot.Admin.Tables.{Filed, Item, Tables, find_pending, create}
use emlynk_wabot.Admin.Checks.{
  ReviewError, Result, ok, err, ◌>>=◌, Naming, Prepared, pending_path, reread,
}
use emlynk_wabot.Admin.Filing.{
  Desk, Request, plain_port, filed, settle, attempt, prepare_approval, approval_row,
  approve_changes, approve_pending,
}

module _ {ℓ κ} {B : Type ℓ} {Content : Type κ} (ops : Bucket B Content)
    (object : B → Text → Option Content) (laws : IsBucket ops object) where
  plain-IsStorage : IsStorage (plain_port ops) object
  plain-IsStorage = record {
    copy_keeps = laws.copy_keeps;
    copy_makes = laws.copy_makes;
    hook_keeps = λ to path b. refl;
  }

  -- Without a hook no object is reused.
  tries-not_reused :
      (from folder : Text) (name : ℕ → Text) (tries first : ℕ) (b : B) {path : Text} {n : ℕ}
      {reused : Bool}
      → (copy_tries (plain_port ops) from folder name tries first b).1
        ≡ CopyResult.placed path n reused
      → reused ≡ false
  unfolding copy_tries
  tries-not_reused from folder name zero first b h = absurd (cc h)
  tries-not_reused from folder name (suc tries) first b {path} {n} {reused} h = ground (
    arith,
    tries-not_reused from folder name tries (suc first) b {path = path} {n = n} {reused = reused},
    tries-not_reused from folder name tries (suc first)
        (ops.copy from (path_of (plain_port ops) from folder name first) b).0 {path = path} {n = n}
        {reused = reused},
  )

  -- How an action on the file under `pending` leaves the bucket: every other object stays; if it
  -- answers with a path, the file is there, under a name that had no object; if not, it is still waiting.
  pub record IsMove (pending : Text) (x : Content) (desk : Desk B) (r : Desk B × Result Text)
      : Type κ where
    pub others :
        (path : Text) (y : Content)
        → path ≢ pending
        → object desk.bucket path ≡ some y
        → object (r.0).bucket path ≡ some y
    pub moved :
        (path : Text)
        → r.1 ≡ ok path
        → (object desk.bucket path ≡ none) × (object (r.0).bucket path ≡ some x)
    pub waits : (e : ReviewError) → r.1 ≡ err e → object (r.0).bucket pending ≡ some x

  -- An error that leaves every object.
  thrown-IsMove :
      (pending : Text) (x : Content) (desk after : Desk B) (e : ReviewError)
      → object desk.bucket pending ≡ some x
      → ((path : Text) (y : Content)
          → object desk.bucket path ≡ some y
          → object after.bucket path ≡ some y)
      → IsMove pending x desk (after, err e)
  thrown-IsMove pending x desk after e h kept = record {
    others = λ path y _ had. kept path y had;
    moved = λ path ok_. absurd (cc ok_);
    waits = λ _ _. kept pending x h;
  }

  -- The object of a name that has none is removed: the others stay.
  removed-keeps :
      (path other : Text) (before b : B) (y : Content)
      → object before path ≡ none
      → object before other ≡ some y
      → object b other ≡ some y
      → object (ops.remove path b).0 other ≡ some y
  removed-keeps path other before b y free had h =
      laws.remove_others path other b (λ same.
        let e : object before other ≡ none = subst (λ p. object before p ≡ none) same free in
        cc (e, had))
      ∙ h

  not_reused :
      (from folder : Text) (name : ℕ → Text) (first : ℕ) (b : B) {path : Text} {n : ℕ}
      {reused : Bool}
      → (copy_to_free_name (plain_port ops) from folder name first b).1
        ≡ CopyResult.placed path n reused
      → reused ≡ false
  not_reused from folder name first b h =
      unfold copy_to_free_name in tries-not_reused from folder name 20 first b h

  -- The clean-up after a transaction that failed, and the removal after one that was committed.
  cleaned :
      (pending : Text) (x : Content) (path : Text) (desk : Desk B) (b : B) (e : ReviewError)
      → object desk.bucket pending ≡ some x
      → object desk.bucket path ≡ none
      → ((p : Text) (y : Content) → object desk.bucket p ≡ some y → object b p ≡ some y)
      → IsMove pending x desk (record desk { bucket = (ops.remove path b).0 }, err e)
  cleaned pending x path desk b e h free kept =
      thrown-IsMove pending x desk _ e h
        (λ p y had. removed-keeps path p desk.bucket b y free had (kept p y had))

  stored :
      (pending : Text) (x : Content) (path : Text) (desk : Desk B) (b : B) (t : Tables)
      → object desk.bucket pending ≡ some x
      → object desk.bucket path ≡ none
      → object b path ≡ some x
      → ((p : Text) (y : Content) → object desk.bucket p ≡ some y → object b p ≡ some y)
      → IsMove pending x desk (record { bucket = (ops.remove pending b).0; tables = t }, ok path)
  stored pending x path desk b t h free made kept = record {
    others =
        λ p y apart had. laws.remove_others pending p b (λ same. apart (sym same)) ∙ kept p y had;
    moved = λ p answer.
        let same : path ≡ p = cc answer in
        rw (← same) (free, laws.remove_others pending path b apart_ ∙ made);
    waits = λ e answer. absurd (cc answer);
  }
    where
      apart_ : pending ≢ path
      apart_ same =
          let e : object desk.bucket path ≡ some x =
            subst (λ p. object desk.bucket p ≡ some x) same h in
          cc (e, free)

  settle-IsMove :
      (fails : Bool) (pending folder : Text) (name : ℕ → Text) (first : ℕ) (document : Text → Filed)
      (change : Tables → Tables) (desk : Desk B) (x : Content) (copied : B × CopyResult)
      → object desk.bucket pending ≡ some x
      → copy_to_free_name (plain_port ops) pending folder name first desk.bucket ≡ copied
      → IsCopy (plain_port ops) object pending folder name first 20 desk.bucket copied
      → IsMove pending x desk (settle ops fails pending document change desk copied)
  unfolding settle
  settle-IsMove fails pending folder name first document change desk x (b, CopyResult.claim_lost) h
        e c =
      thrown-IsMove pending x desk _ _ h c.kept
  settle-IsMove fails pending folder name first document change desk x (b, CopyResult.storage_error)
        h e c =
      thrown-IsMove pending x desk _ _ h c.kept
  settle-IsMove fails pending folder name first document change desk x (b, CopyResult.no_free_name)
        h e c =
      thrown-IsMove pending x desk _ _ h c.kept
  settle-IsMove fails pending folder name first document change desk x
        (b, CopyResult.placed path n reused) h e c =
      let new_name : CopyResult.placed path n reused ≡ CopyResult.placed path n false =
        ap (λ t. CopyResult.placed path n t)
          (not_reused pending folder name first desk.bucket (ap (λ r. r.1) e)) in
      let (free, made) = c.made path n x new_name h in
      elim (Option-cases (create (document path) desk.tables.documents)) [
        | inl taken ↦ rw (taken, settle) (cleaned pending x path desk b _ h free c.kept)
        | inr (after, created) ↦
            rw (created, settle)
              (elim (Bool-cases fails) [
                | inl broken ↦ rw broken (cleaned pending x path desk b _ h free c.kept)
                | inr works ↦ rw works (stored pending x path desk b _ h free made c.kept)
              ])
      ]
