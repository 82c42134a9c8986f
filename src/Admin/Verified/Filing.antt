-- ===== src/Admin/Verified/Filing.antt =====
-- The actions that store a waiting file keep one VERIFIED document of a type at most
-- (services/adminReviewActionService.js).
use emlynk_wabot.Prelude.{
  ◌+◌, ◌≡◌, ◌≤◌, inl, inr, Bool, true, false, Option, none, some, List, [], ◌∷◌, Text, text_eq,
  text_eq_iff, find, find_sound, or_else, arith, refl, sym, subst, if◌then◌else◌, Bool-cases,
  Option-cases,
}
use emlynk_wabot.Storage.Documents.{VerificationStatus}
use emlynk_wabot.Storage.Copy.{CopyResult}
use emlynk_wabot.Storage.World.{Bucket}
use emlynk_wabot.Admin.Tables.{
  Filed, Item, ItemType, Tables, is_verified_of_type, find_verified_of_type, create,
  update_document, with_status,
}
use emlynk_wabot.Admin.Checks.{
  Result, ok, err, ◌>>=◌, has_client_folder, approval_blocker, reread, Naming, Prepared,
  pending_path,
}
use emlynk_wabot.Admin.Filing.{
  Desk, Request, stored_type, filed, attempt, settle, approval_row, approve_changes,
  approve_pending, prepare_approval, verify_replacement_target,
}
use emlynk_wabot.Admin.Versions.{
  replacement_row, replace_changes, replace_verified_document, prepare_replacement, version_row,
  version_changes, keep_document_as_version, prepare_version,
}
use emlynk_wabot.Admin.Verified.{
  verified_count, IsSingle, HasUniqueDocuments, counted-same, create-IsSingle, free-count,
  create-new, supersede-count, supersede-target,
}
use emlynk_wabot.Admin.Verified.Changes.{map-HasUniqueDocuments}

-- What is left to show of an action that copies the file: its changes after a document was created.
pub settle-IsSingle {ℓ κ} :
    {B : Type ℓ} {Content : Type κ} (ops : Bucket B Content) (fails : Bool) (pending : Text)
    (document : Text → Filed) (change : Tables → Tables) (desk : Desk B) (copied : B × CopyResult)
    → ((path : Text) (after : List Filed)
        → create (document path) desk.tables.documents ≡ some after
        → IsSingle (change (record desk.tables { documents = after })).documents)
    → IsSingle desk.tables.documents
    → IsSingle (((settle ops fails pending document change desk copied).0).tables).documents
unfolding settle
settle-IsSingle ops fails pending document change desk (b, CopyResult.claim_lost) h s = s
settle-IsSingle ops fails pending document change desk (b, CopyResult.storage_error) h s = s
settle-IsSingle ops fails pending document change desk (b, CopyResult.no_free_name) h s = s
settle-IsSingle ops fails pending document change desk (b, CopyResult.placed path n reused) h s =
    elim (Option-cases (create (document path) desk.tables.documents)) [
      | inl taken ↦ rw (taken, settle) s
      | inr (after, made) ↦
          rw (made, settle)
            (elim (Bool-cases fails) [
              | inl broken ↦ rw broken s
              | inr works ↦ rw works (h path after made)
            ])
    ]

-- A predicate that an action keeps where it does not stop before.
pub attempt-holds {ℓ κ ι} :
    {B : Type ℓ} {A : Type κ} (P : Desk B → Type ι) (desk : Desk B) (r : Result A)
    (act : A → Desk B × Result Text)
    → P desk
    → ((a : A) → r ≡ ok a → P (act a).0)
    → P (attempt desk r act).0
unfolding attempt
attempt-holds P desk (err e) act h k = h
attempt-holds P desk (ok a) act h k = k a refl

abbrev pub IsSingleDesk {ℓ} : {B : Type ℓ} → Desk B → Type 0
IsSingleDesk desk = IsSingle desk.tables.documents

has_client_folder-typed :
    (t : ItemType) → has_client_folder t ≡ true → ItemType.typed (stored_type t) ≡ t
has_client_folder-typed ItemType.unclassified h = ground arith
has_client_folder-typed (ItemType.typed t) h = refl

-- The approval's checks: a type with a folder, and no VERIFIED document of the client and type.
approval_row-free :
    (p : Prepared) (t : Tables) {row : Item}
    → approval_row p t ≡ ok row
    → (has_client_folder row.document_type ≡ true)
      × (find_verified_of_type (or_else row.passport_id []) row.document_type none t.documents
          ≡ none)
unfolding approval_row reread approval_blocker ◌>>=◌
approval_row-free p t h = (ground arith, ground arith)

approved-first :
    (p : Prepared) (t : Tables) (row : Item)
    → approval_row p t ≡ ok row
    → verified_count
        (or_else row.passport_id [])
        (ItemType.typed (stored_type row.document_type))
        t.documents
      ≡ 0
approved-first p t row h =
    let (folder, free) = approval_row-free p t h in
    rw (has_client_folder-typed row.document_type folder) (free-count _ _ t.documents free)

update-HasUniqueDocuments :
    (id : Text) (documents : List Filed)
    → HasUniqueDocuments documents
    → HasUniqueDocuments (update_document id (with_status VerificationStatus.superseded) documents)
unfolding update_document
update-HasUniqueDocuments id documents u =
    map-HasUniqueDocuments _ documents (λ d. keeps-id d (text_eq d.document_id id)) u
  where
    keeps-id :
        (d : Filed) (hit : Bool)
        → (if hit then with_status VerificationStatus.superseded d else d).document_id
          ≡ d.document_id
    keeps-id d true = refl
    keeps-id d false = refl

head-count :
    (id p : Text) (t : ItemType) (d : Filed) (documents : List Filed)
    → verified_count p t
        (update_document id (with_status VerificationStatus.superseded) (d ∷ documents))
      ≤ (if is_verified_of_type p t d then 1 else 0)
        + verified_count p t
            (update_document id (with_status VerificationStatus.superseded) documents)
unfolding update_document
head-count id p t d documents = ground arith

replaced-single :
    (d target : Filed) (documents : List Filed)
    → find (λ (e : Filed). text_eq e.document_id target.document_id) documents ≡ some target
    → is_verified_of_type d.passport_id (ItemType.typed d.document_type) target ≡ true
    → ((p : Text) (t : ItemType) → verified_count p t documents ≤ 1)
    → (p : Text) (t : ItemType)
    → verified_count p t (
        update_document target.document_id
          (with_status VerificationStatus.superseded)
          (d ∷ documents))
      ≤ 1
replaced-single d target documents found h single p t =
    elim (Bool-cases (is_verified_of_type p t d)) [
      | inl counted ↦
          let (client, type_) = counted-same p t d counted in
          let hit : is_verified_of_type p t target ≡ true = rw client (rw type_ h) in
          omega (
            arith,
            rw counted at (head-count target.document_id p t d documents),
            supersede-target target.document_id p t documents found hit,
            single p t,
          )
      | inr other ↦ omega (
        arith,
        rw other at (head-count target.document_id p t d documents),
        supersede-count target.document_id p t documents,
        single p t,
      )
    ]

-- A document that replaces the VERIFIED one of its client and type, which becomes SUPERSEDED.
replaced-IsSingle :
    (d target : Filed) (documents after : List Filed)
    → create d documents ≡ some after
    → find (λ (e : Filed). text_eq e.document_id target.document_id) documents ≡ some target
    → is_verified_of_type d.passport_id (ItemType.typed d.document_type) target ≡ true
    → IsSingle documents
    → IsSingle
        (update_document target.document_id (with_status VerificationStatus.superseded) after)
replaced-IsSingle d target documents after made found h s =
    let (same, unique) = create-new d documents after made s.unique in
    subst
      (λ l.
        IsSingle (update_document target.document_id (with_status VerificationStatus.superseded) l))
      (sym same)
      (record {
        single = replaced-single d target documents found h s.single;
        unique = update-HasUniqueDocuments target.document_id (d ∷ documents) unique;
      })

typed-counted :
    (p : Text) (t : ItemType) (d : Filed)
    → is_verified_of_type p t d ≡ true
    → is_verified_of_type p (ItemType.typed (stored_type t)) d ≡ true
typed-counted p ItemType.unclassified d h = ground arith
typed-counted p (ItemType.typed t) d h = h

verify-ok :
    (id passport : Option Text) (t : ItemType) (documents : List Filed) {target : Filed}
    → verify_replacement_target id passport t documents ≡ ok target
    → (i : Text) × (find (λ (e : Filed). text_eq e.document_id i) documents ≡ some target)
      × (is_verified_of_type (or_else passport []) t target ≡ true)
unfolding verify_replacement_target ◌>>=◌
verify-ok none passport t documents h = absurd (cc h)
verify-ok (some i) passport t documents h = (i, ground arith, ground arith)

-- The document to replace is VERIFIED, of the client and the type, and found by its key.
target-found :
    (id passport : Option Text) (t : ItemType) (documents : List Filed) {target : Filed}
    → verify_replacement_target id passport t documents ≡ ok target
    → (find (λ (e : Filed). text_eq e.document_id target.document_id) documents ≡ some target)
      × (is_verified_of_type (or_else passport []) (ItemType.typed (stored_type t)) target ≡ true)
target-found id passport t documents {target} h =
    let (i, found, counted) = verify-ok id passport t documents h in
    let same =
      (text_eq_iff target.document_id i).0
        (find_sound (λ (e : Filed). text_eq e.document_id i) documents found) in
    (
      subst (λ j. find (λ (e : Filed). text_eq e.document_id j) documents ≡ some target) (sym same)
          found,
      typed-counted (or_else passport []) t target counted,
    )

replacement_row-target :
    (q : Request) (p : Prepared) (t : Tables) (row : Item) (target : Filed)
    → replacement_row q p t ≡ ok (row, target)
    → verify_replacement_target q.document_id row.passport_id row.document_type t.documents
      ≡ ok target
unfolding replacement_row ◌>>=◌
replacement_row-target q p t row target h = ground arith

module _ {ℓ κ} {B : Type ℓ} {Content : Type κ} (ops : Bucket B Content) (naming : Naming)
    (fails : Bool) where
  pub approve_pending-IsSingle :
      (q : Request) (reads desk : Desk B)
      → IsSingle desk.tables.documents
      → IsSingle ((approve_pending ops naming fails q reads desk).0).tables.documents
  unfolding approve_pending
  approve_pending-IsSingle q reads desk s =
      attempt-holds IsSingleDesk desk (prepare_approval ops naming q reads) _ s λ p _.
        attempt-holds IsSingleDesk desk (approval_row p desk.tables) _ s λ row h.
          settle-IsSingle ops fails (pending_path row)
            (filed q p row VerificationStatus.verified p.date) (approve_changes q p row) desk _
            (λ path after made.
              create-IsSingle (filed q p row VerificationStatus.verified p.date path) _ after made s
                λ _. approved-first p desk.tables row h)
            s

  pub replace_verified_document-IsSingle :
      (q : Request) (reads desk : Desk B)
      → IsSingle desk.tables.documents
      → IsSingle ((replace_verified_document ops naming fails q reads desk).0).tables.documents
  unfolding replace_verified_document
  replace_verified_document-IsSingle q reads desk s =
      attempt-holds IsSingleDesk desk (prepare_replacement ops naming q reads) _ s λ p _.
        attempt-holds IsSingleDesk desk (replacement_row q p desk.tables) _ s λ found h.
          let (named, counted) =
            target-found q.document_id found.0.passport_id found.0.document_type
              desk.tables.documents (replacement_row-target q p desk.tables found.0 found.1 h) in
          settle-IsSingle ops fails (pending_path found.0)
            (filed q p found.0 VerificationStatus.verified p.date)
            (replace_changes q p found.0 found.1) desk _
            (λ path after made.
              replaced-IsSingle (filed q p found.0 VerificationStatus.verified p.date path) found.1
                desk.tables.documents after made named counted s)
            s

  pub keep_document_as_version-IsSingle :
      (q : Request) (reads desk : Desk B)
      → IsSingle desk.tables.documents
      → IsSingle ((keep_document_as_version ops naming fails q reads desk).0).tables.documents
  unfolding keep_document_as_version
  keep_document_as_version-IsSingle q reads desk s =
      attempt-holds IsSingleDesk desk (prepare_version ops naming q reads) _ s λ p _.
        attempt-holds IsSingleDesk desk (version_row p desk.tables) _ s λ row _.
          settle-IsSingle ops fails (pending_path row)
            (filed q p row VerificationStatus.review_required none) (version_changes q p row) desk _
            (λ path after made.
              create-IsSingle (filed q p row VerificationStatus.review_required none path)
                desk.tables.documents after made s (λ verified. absurd (cc verified)))
            s
