-- ===== src/Admin/Verified.antt =====
-- The VERIFIED documents of a client: how many of one type there are, and what a row of documents
-- that is added or changed makes of that number (services/adminReviewActionService.js).
pub mod Changes
pub mod Filing
pub mod Decisions
pub mod Reachable
use emlynk_wabot.Prelude.{
  ℕ, suc, ◌+◌, ◌≡◌, ◌≢◌, ◌≤◌, ◌⊎◌, inl, inr, Bool, true, false, ◌&&◌, ◌||◌, not, Option, none, some,
  List, [], ◌∷◌, Text, text_eq, text_eq_iff, text_eq_refl, any, find, keep, length, map, All,
  All-map, arith, refl, sym, subst, ◌∙◌, if◌then◌else◌, Bool-cases, is_some,
}
use emlynk_wabot.Classification.{DocumentType, same_type}
use emlynk_wabot.Storage.Documents.{VerificationStatus, is_verified}
use emlynk_wabot.Admin.Tables.{
  Filed, ItemType, has_type, is_verified_of_type, same_file, find_verified_of_type, create,
  update_document, with_status,
}

abbrev pub verified_count : Text → ItemType → List Filed → ℕ
verified_count passport_id document_type documents =
    length (keep (is_verified_of_type passport_id document_type) documents)

-- document_id is the primary key.
abbrev pub HasUniqueDocuments : List Filed → Type 0
HasUniqueDocuments [] = Unit
HasUniqueDocuments (d ∷ rest) =
    All (λ (e : Filed). d.document_id ≢ e.document_id) rest × HasUniqueDocuments rest

-- No client has two VERIFIED documents of one type.
pub record IsSingle (documents : List Filed) : Type 0 where
  pub single : (passport_id : Text) (t : ItemType) → verified_count passport_id t documents ≤ 1
  pub unique : HasUniqueDocuments documents

has_type_sound : (t : DocumentType) (u : ItemType) → has_type t u ≡ true → u ≡ ItemType.typed t
has_type_sound t ItemType.unclassified h = ground arith
has_type_sound DocumentType.passport (ItemType.typed u) h = ground arith
has_type_sound DocumentType.police_slip (ItemType.typed u) h = ground arith
has_type_sound DocumentType.police_report (ItemType.typed u) h = ground arith
has_type_sound DocumentType.medical (ItemType.typed u) h = ground arith
has_type_sound DocumentType.unknown (ItemType.typed u) h = ground arith

-- A document that counts for a client and a type is of that client and type.
pub counted-same :
    (p : Text) (t : ItemType) (d : Filed)
    → is_verified_of_type p t d ≡ true
    → (p ≡ d.passport_id) × (t ≡ ItemType.typed d.document_type)
counted-same p t d h = (
  sym ((text_eq_iff d.passport_id p).0 (ground arith)),
  has_type_sound d.document_type t (ground arith),
)

any-none :
    (q : Filed → Bool) (documents : List Filed)
    → any q documents ≡ false
    → All (λ d. q d ≡ false) documents
any-none q [] h = tt
any-none q (d ∷ rest) h = (ground arith, any-none q rest (ground arith))

fresh-ids :
    (d : Filed) (documents : List Filed)
    → All
        (λ (e : Filed).
          (text_eq e.document_id d.document_id || same_file d.passport_id d.file_sha256 e) ≡ false)
        documents
    → All (λ (e : Filed). d.document_id ≢ e.document_id) documents
fresh-ids d [] h = tt
fresh-ids d (e ∷ rest) (h, hs) = (
  λ same.
      let hit = (text_eq_iff e.document_id d.document_id).1 (sym same) in
      let impossible : false ≡ true = ground arith in cc impossible,
  fresh-ids d rest hs,
)

-- A row that is created is new, by its key.
pub create-new :
    (d : Filed) (documents after : List Filed)
    → create d documents ≡ some after
    → HasUniqueDocuments documents
    → (after ≡ d ∷ documents) × HasUniqueDocuments (d ∷ documents)
unfolding create
create-new d documents after h u =
    let free : any
          (λ (e : Filed).
            text_eq e.document_id d.document_id || same_file d.passport_id d.file_sha256 e)
          documents
        ≡ false =
      ground arith in
    (ground arith, (fresh-ids d documents (any-none _ documents free), u))

-- A document that is not VERIFIED, or the first one of its client and type, leaves the numbers at one.
pub insert-single :
    (d : Filed) (documents : List Filed)
    → ((p : Text) (t : ItemType) → verified_count p t documents ≤ 1)
    → (is_verified d.verification_status ≡ true
        → verified_count d.passport_id (ItemType.typed d.document_type) documents ≡ 0)
    → (p : Text) (t : ItemType) → verified_count p t (d ∷ documents) ≤ 1
insert-single d documents single first p t = elim (Bool-cases (is_verified_of_type p t d)) [
  | inr other ↦ rw other (single p t)
  | inl same ↦
      let (client, type_) = counted-same p t d same in
      let zero_ : verified_count p t documents ≡ 0 = rw client (rw type_ (first (ground arith))) in
      rw same (omega (arith, zero_))
]

pub create-IsSingle :
    (d : Filed) (documents after : List Filed)
    → create d documents ≡ some after
    → IsSingle documents
    → (is_verified d.verification_status ≡ true
        → verified_count d.passport_id (ItemType.typed d.document_type) documents ≡ 0)
    → IsSingle after
create-IsSingle d documents after made s first =
    let (same, unique) = create-new d documents after made s.unique in
    subst IsSingle (sym same)
      (record { single = insert-single d documents s.single first; unique = unique })

pub free-count :
    (p : Text) (t : ItemType) (documents : List Filed)
    → find_verified_of_type p t none documents ≡ none
    → verified_count p t documents ≡ 0
unfolding find_verified_of_type
free-count p t [] h = refl
free-count p t (d ∷ rest) h = elim (Bool-cases (is_verified_of_type p t d)) [
  | inl hit ↦ let e : some d ≡ none = rw hit at h in absurd (cc e)
  | inr miss ↦ rw miss (free-count p t rest (rw miss at h))
]

-- Marking documents SUPERSEDED raises no number.
pub supersede-count :
    (id p : Text) (t : ItemType) (documents : List Filed)
    → verified_count p t (update_document id (with_status VerificationStatus.superseded) documents)
      ≤ verified_count p t documents
unfolding update_document
supersede-count id p t [] = omega arith
supersede-count id p t (d ∷ rest) = ground (arith, supersede-count id p t rest)

-- It lowers the number of the document's own client and type.
pub supersede-target :
    (id p : Text) (t : ItemType) (documents : List Filed) {target : Filed}
    → find (λ (d : Filed). text_eq d.document_id id) documents ≡ some target
    → is_verified_of_type p t target ≡ true
    → suc (
        verified_count p t
          (update_document id (with_status VerificationStatus.superseded) documents))
      ≤ verified_count p t documents
unfolding update_document
supersede-target id p t [] found h = ground arith
supersede-target id p t (d ∷ rest) {target} found h = elim (Bool-cases (text_eq d.document_id id)) [
  | inl hit ↦
      let e : some d ≡ some target = rw hit at found in
      let same : d ≡ target = cc e in
      let counted : is_verified_of_type p t d ≡ true = rw same h in
      rw hit (ground (arith, supersede-count id p t rest))
  | inr miss ↦
      let found_rest : find (λ (d : Filed). text_eq d.document_id id) rest ≡ some target =
        rw miss at found in
      ground (arith, supersede-target id p t rest found_rest h)
]
