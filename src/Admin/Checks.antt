-- ===== src/Admin/Checks.antt =====
-- services/adminReviewActionService.js: what stands in the way of an action, and the reading of the
-- waiting file before the transaction. The texts of the errors are not modelled.
use emlynk_wabot.Prelude.{
  ℕ, ◌≡◌, ◌⊎◌, inl, inr, refl, Bool, true, false, ◌&&◌, not, Option, none, some, List, [], ◌∷◌,
  Text, text_eq, is_some, is_truthy, or_else, if◌then◌else◌,
}
use emlynk_wabot.Classification.{DocumentType}
use emlynk_wabot.Storage.World.{Bucket}
use emlynk_wabot.Admin.Tables.{Filed, Item, ItemType, Tables, find_pending, find_verified_of_type}

-- ReviewActionError by its code; `internal` is any other error that is thrown.
pub data ReviewError : Type 0 where
  not_found already_resolved client_not_identified duplicate_file no_client_folder : ReviewError
  verified_document_exists police_date_not_applicable police_date_already_set : ReviewError
  police_date_required unsupported_file storage_unavailable file_changed : ReviewError
  document_id_required verified_document_changed not_applicable duplicate_action : ReviewError
  not_failed file_missing not_correctable same_document_type same_client : ReviewError
  client_not_found not_a_police_slip same_police_date internal : ReviewError

-- What an action returns or throws.
pub data Result {ℓ} (A : Type ℓ) : Type ℓ where
  err : ReviewError → Result A
  ok : A → Result A

-- `if (!a) throw error`
abbrev pub some_or {ℓ} : {A : Type ℓ} → Option A → ReviewError → Result A
some_or none error = err error
some_or (some a) error = ok a

-- `if (!holds) throw error`
abbrev pub guard : Bool → ReviewError → Result (Unit {0})
guard holds error = elim holds [ false ↦ err error | true ↦ ok tt ]

infixl 5 ◌>>=◌ ◌>>◌
unfoldable pub ◌>>=◌ {ℓ κ} : {A : Type ℓ} {R : Type κ} → Result A → (A → Result R) → Result R
step >>= next = elim step [ err error ↦ err error | ok a ↦ next a ]

abbrev pub ◌>>◌ {κ} : {R : Type κ} → Result (Unit {0}) → Result R → Result R
check >> rest = check >>= λ _. rest

pub Result-cases {ℓ} :
    {A : Type ℓ} (r : Result A) → ((a : A) × (r ≡ ok a)) ⊎ ((e : ReviewError) × (r ≡ err e))
Result-cases (err e) = inr (e, refl)
Result-cases (ok a) = inl (a, refl)

abbrev pub is_slip : ItemType → Bool
is_slip (ItemType.typed DocumentType.police_slip) = true
is_slip _ = false

-- DOCUMENT_STORAGE_TYPES has the type.
abbrev pub has_client_folder : ItemType → Bool
has_client_folder ItemType.unclassified = false
has_client_folder (ItemType.typed DocumentType.unknown) = false
has_client_folder (ItemType.typed _) = true

-- approvalBlocker, as the error that is thrown
unfoldable pub approval_blocker :
    List Filed → Option Text → ItemType → Option Text → Option Filed → Result (Unit {0})
approval_blocker documents passport_id document_type except duplicate = do
  guard (is_truthy passport_id) ReviewError.client_not_identified
  guard (not (is_some duplicate)) ReviewError.duplicate_file
  guard (has_client_folder document_type) ReviewError.no_client_folder
  guard
      (not
        (is_some (find_verified_of_type (or_else passport_id []) document_type except documents)))
      ReviewError.verified_document_exists

abbrev same_date : Option Text → Option Text → Bool
same_date (some a) (some b) = text_eq a b
same_date _ _ = false

-- policeDateForApproval
unfoldable pub police_date_for_approval :
    ItemType → Option Text → Option Text → Result (Option Text)
police_date_for_approval document_type stored given =
    if not (is_slip document_type)
    then (if is_truthy given then err ReviewError.police_date_not_applicable else ok none)
    else if is_truthy stored
    then (if is_truthy given && not (same_date given stored)
        then err ReviewError.police_date_already_set
        else ok stored)
    else if is_truthy given
    then ok given
    else err ReviewError.police_date_required

-- Paths and names: clientFolderPath, standardFileName with the extension of a MIME type, the name
-- that a version keeps, and mimeTypeForPath.
pub record Naming : Type 0 where
  pub folder : Text → DocumentType → Text
  pub standard_name : DocumentType → Text → ℕ → Text
  pub kept_name : Text → Text → ℕ → ℕ → Text
  pub mime_type_for_path : Text → Option Text

-- What an action has at hand when its transaction starts: the waiting file as it was first read, its
-- MIME type and checksum, and the date to store.
pub record Prepared : Type 0 where
  pub before : Item
  pub mime_type : Text
  pub sha : Text
  pub date : Option Text

abbrev pub pending_path : Item → Text
pending_path i = or_else i.pending_storage_path []

-- before.fileSha256 && before.fileSha256 !== fileSha256
abbrev is_changed : Option Text → Text → Bool
is_changed none sha = false
is_changed (some []) sha = false
is_changed (some (c ∷ s)) sha = not (text_eq (c ∷ s) sha)

module _ {ℓ κ} {B : Type ℓ} {Content : Type κ} (ops : Bucket B Content) (naming : Naming) where
  -- The file of a waiting item: its type, the download and the comparison with the checksum on record.
  unfoldable pub read_waiting_file : B → Item → Option Text → Result Prepared
  read_waiting_file bucket before date = do
    mime_type ←
        some_or (naming.mime_type_for_path (pending_path before)) ReviewError.unsupported_file
    buffer ← some_or (ops.download (pending_path before) bucket) ReviewError.storage_unavailable
    guard (not (is_changed before.file_sha256 (ops.sha256_hex buffer))) ReviewError.file_changed
    ok (record { before = before; mime_type = mime_type; sha = ops.sha256_hex buffer; date = date })

abbrev same_path : Option Text → Option Text → Bool
same_path (some a) (some b) = text_eq a b
same_path none none = true
same_path _ _ = false

-- The first steps of a transaction on a waiting file: the row again, under its lock.
unfoldable pub reread : Item → Tables → Result Item
reread before t = do
  row ← some_or (find_pending before.temporary_id t.items) ReviewError.already_resolved
  guard (same_path row.pending_storage_path before.pending_storage_path)
      ReviewError.already_resolved
  ok row
