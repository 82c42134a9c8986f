-- ===== src/Admin/Verified/Changes.antt =====
-- Changes of the documents table that keep one VERIFIED document of a type at most: keys under map
-- and keep, and approveDocument (services/adminReviewActionService.js).
use emlynk_wabot.Prelude.{
  ◌+◌, ◌≡◌, ◌≢◌, ◌≤◌, inl, inr, Bool, true, false, Option, none, some, List, [], ◌∷◌, Text, text_eq,
  text_eq_iff, keep, map, All, All-keep, arith, refl, ap, sym, subst, ◌∙◌, if◌then◌else◌,
  Bool-cases,
}
use emlynk_wabot.Storage.Documents.{VerificationStatus, is_verified}
use emlynk_wabot.Admin.Tables.{
  Filed, ItemType, is_verified_of_type, is_review_required, find_review_document,
  find_verified_of_type, update_document, with_status,
}
use emlynk_wabot.Admin.Decisions.{approved}
use emlynk_wabot.Admin.Verified.{verified_count, IsSingle, HasUniqueDocuments, counted-same}

map-others :
    (f : Filed → Filed) (id : Text) (documents : List Filed)
    → ((d : Filed) → (f d).document_id ≡ d.document_id)
    → All (λ (d : Filed). id ≢ d.document_id) documents
    → All (λ (d : Filed). id ≢ d.document_id) (map f documents)
map-others f id [] same h = tt
map-others f id (d ∷ rest) same (h, hs) = (λ e. h (e ∙ same d), map-others f id rest same hs)

pub map-HasUniqueDocuments :
    (f : Filed → Filed) (documents : List Filed)
    → ((d : Filed) → (f d).document_id ≡ d.document_id)
    → HasUniqueDocuments documents
    → HasUniqueDocuments (map f documents)
map-HasUniqueDocuments f [] same u = tt
map-HasUniqueDocuments f (d ∷ rest) same (h, u) = (
  subst (λ i. All (λ (e : Filed). i ≢ e.document_id) (map f rest)) (sym (same d))
      (map-others f d.document_id rest same h),
  map-HasUniqueDocuments f rest same u,
)

keep-HasUniqueDocuments :
    (q : Filed → Bool) (documents : List Filed)
    → HasUniqueDocuments documents
    → HasUniqueDocuments (keep q documents)
keep-HasUniqueDocuments q [] u = tt
keep-HasUniqueDocuments q (d ∷ rest) (h, u) = elim (Bool-cases (q d)) [
  | inl kept ↦ rw kept (
    All-keep (λ (e : Filed). d.document_id ≢ e.document_id) q rest h,
    keep-HasUniqueDocuments q rest u,
  )
  | inr dropped ↦ rw dropped (keep-HasUniqueDocuments q rest u)
]

map-count :
    (f : Filed → Filed) (p : Text) (t : ItemType) (documents : List Filed)
    → ((d : Filed) → is_verified_of_type p t (f d) ≡ is_verified_of_type p t d)
    → verified_count p t (map f documents) ≡ verified_count p t documents
map-count f p t [] same = refl
map-count f p t (d ∷ rest) same = rw (same d) (ground (arith, map-count f p t rest same))

keep-count :
    (q : Filed → Bool) (p : Text) (t : ItemType) (documents : List Filed)
    → verified_count p t (keep q documents) ≤ verified_count p t documents
keep-count q p t [] = omega arith
keep-count q p t (d ∷ rest) = ground (arith, keep-count q p t rest)

pub map-IsSingle :
    (f : Filed → Filed) (documents : List Filed)
    → ((p : Text) (t : ItemType) (d : Filed)
        → is_verified_of_type p t (f d) ≡ is_verified_of_type p t d)
    → ((d : Filed) → (f d).document_id ≡ d.document_id)
    → IsSingle documents
    → IsSingle (map f documents)
map-IsSingle f documents same_count same_id s = record {
  single = λ p t. omega (arith, map-count f p t documents (λ d. same_count p t d), s.single p t);
  unique = map-HasUniqueDocuments f documents same_id s.unique;
}

pub keep-IsSingle :
    (q : Filed → Bool) (documents : List Filed) → IsSingle documents → IsSingle (keep q documents)
keep-IsSingle q documents s = record {
  single = λ p t. omega (arith, keep-count q p t documents, s.single p t);
  unique = keep-HasUniqueDocuments q documents s.unique;
}

-- No document has the key: the update changes nothing.
update-absent :
    (id : Text) (f : Filed → Filed) (documents : List Filed)
    → All (λ (d : Filed). id ≢ d.document_id) documents
    → update_document id f documents ≡ documents
unfolding update_document
update-absent id f [] h = refl
update-absent id f (d ∷ rest) (h, hs) = elim (Bool-cases (text_eq d.document_id id)) [
  | inl hit ↦ absurd (h (sym ((text_eq_iff d.document_id id).0 hit)))
  | inr miss ↦ rw miss (ground (arith, update-absent id f rest hs))
]

find-absent :
    (id : Text) (documents : List Filed)
    → All (λ (d : Filed). id ≢ d.document_id) documents
    → find_review_document id documents ≡ none
unfolding find_review_document
find-absent id [] h = refl
find-absent id (d ∷ rest) (h, hs) = elim (Bool-cases (text_eq d.document_id id)) [
  | inl hit ↦ absurd (h (sym ((text_eq_iff d.document_id id).0 hit)))
  | inr miss ↦ rw miss (find-absent id rest hs)
]

update-first :
    (id : Text) (f : Filed → Filed) (d : Filed) (rest : List Filed)
    → text_eq d.document_id id ≡ true
    → update_document id f (d ∷ rest) ≡ f d ∷ update_document id f rest
unfolding update_document
update-first id f d rest hit = rw hit refl

update-later :
    (id : Text) (f : Filed → Filed) (d : Filed) (rest : List Filed)
    → text_eq d.document_id id ≡ false
    → update_document id f (d ∷ rest) ≡ d ∷ update_document id f rest
unfolding update_document
update-later id f d rest miss = rw miss refl

no-row : (id : Text) {row : Filed} → find_review_document id [] ≢ some row
unfolding find_review_document
no-row id h = cc h

not-both :
    (p : Text) (t : ItemType) (d : Filed)
    → is_verified_of_type p t d ≡ true
    → is_review_required d.verification_status ≢ true
not-both p t d counted waits =
    let v : is_verified d.verification_status ≡ true = ground arith in
    let e : false ≡ true = ground arith in cc e

update-hit :
    (id : Text) (f : Filed → Filed) (d : Filed) (rest : List Filed)
    → text_eq d.document_id id ≡ true
    → All (λ (e : Filed). id ≢ e.document_id) rest
    → update_document id f (d ∷ rest) ≡ f d ∷ rest
update-hit id f d rest hit absent =
    update-first id f d rest hit ∙ ap (λ l. f d ∷ l) (update-absent id f rest absent)

absent-others :
    (id : Text) (d : Filed) (rest : List Filed)
    → text_eq d.document_id id ≡ true
    → All (λ (e : Filed). d.document_id ≢ e.document_id) rest
    → All (λ (e : Filed). id ≢ e.document_id) rest
absent-others id d rest hit h =
    subst (λ i. All (λ (e : Filed). i ≢ e.document_id) rest) ((text_eq_iff d.document_id id).0 hit)
      h

-- The row that is found is the only one with its key.
found-first :
    (id : Text) (d : Filed) (rest : List Filed) {row : Filed}
    → text_eq d.document_id id ≡ true
    → All (λ (e : Filed). d.document_id ≢ e.document_id) rest
    → find_review_document id (d ∷ rest) ≡ some row
    → (d ≡ row) × (is_review_required d.verification_status ≡ true)
unfolding find_review_document
found-first id d rest hit h found = elim (Bool-cases (is_review_required d.verification_status)) [
  | inl waits ↦ (cc (rw waits at (rw hit at found)), waits)
  | inr other ↦
      let later : find_review_document id rest ≡ some _ = rw other at (rw hit at found) in
      absurd (cc (later, find-absent id rest (absent-others id d rest hit h)))
]

found-later :
    (id : Text) (d : Filed) (rest : List Filed) {row : Filed}
    → text_eq d.document_id id ≡ false
    → find_review_document id (d ∷ rest) ≡ some row
    → find_review_document id rest ≡ some row
unfolding find_review_document
found-later id d rest miss found = rw miss at found

module _ (id : Text) (p : Text) (t : ItemType) where
  approve-count :
      (date : Option Text) (documents : List Filed) {row : Filed}
      → HasUniqueDocuments documents
      → find_review_document id documents ≡ some row
      → verified_count p t (update_document id (approved date) documents)
        ≤ verified_count p t documents
          + (if is_verified_of_type p t (with_status VerificationStatus.verified row) then 1 else 0)
  approve-count date [] u found = absurd (no-row id found)
  approve-count date (d ∷ rest) {row} (h, u) found = elim (Bool-cases (text_eq d.document_id id)) [
    | inr miss ↦
        rw (update-later id (approved date) d rest miss)
          (ground (arith, approve-count date rest u (found-later id d rest miss found)))
    | inl hit ↦
        let (same, waits) = found-first id d rest hit h found in
        rw (update-hit id (approved date) d rest hit (absent-others id d rest hit h))
          (rw (← same) (ground (arith, waits)))
  ]

  absent-none :
      (documents : List Filed)
      → All (λ (e : Filed). id ≢ e.document_id) documents
      → find_verified_of_type p t (some id) documents ≡ none
      → verified_count p t documents ≡ 0
  unfolding find_verified_of_type
  absent-none [] absent h = refl
  absent-none (d ∷ rest) (a, absent) h = elim (Bool-cases (text_eq d.document_id id)) [
    | inl hit ↦ absurd (a (sym ((text_eq_iff d.document_id id).0 hit)))
    | inr miss ↦ elim (Bool-cases (is_verified_of_type p t d)) [
      | inl counted ↦ let e : some d ≡ none = rw counted at (rw miss at h) in absurd (cc e)
      | inr other ↦ rw other (absent-none rest absent (rw other at h))
    ]
  ]

  -- With no other VERIFIED document of the client and type, there was none.
  no-other-count :
      (documents : List Filed) {row : Filed}
      → HasUniqueDocuments documents
      → find_review_document id documents ≡ some row
      → find_verified_of_type p t (some id) documents ≡ none
      → verified_count p t documents ≡ 0
  unfolding find_verified_of_type
  no-other-count [] u found h = refl
  no-other-count (d ∷ rest) {row} (fresh, u) found h =
      elim (Bool-cases (is_verified_of_type p t d)) [
        | inl counted ↦ elim (Bool-cases (text_eq d.document_id id)) [
          | inl hit ↦
              let (same, waits) = found-first id d rest hit fresh found in
              absurd (not-both p t d counted waits)
          | inr miss ↦ let e : some d ≡ none = rw counted at (rw miss at h) in absurd (cc e)
        ]
        | inr other ↦ elim (Bool-cases (text_eq d.document_id id)) [
          | inl hit ↦
              rw other (absent-none rest (absent-others id d rest hit fresh) (rw other at h))
          | inr miss ↦
              rw other (no-other-count rest u (found-later id d rest miss found) (rw other at h))
        ]
      ]

-- What approveDocument does: the row becomes VERIFIED.
pub approved-IsSingle :
    (id : Text) (date : Option Text) (documents : List Filed) (row : Filed)
    → find_review_document id documents ≡ some row
    → find_verified_of_type row.passport_id (ItemType.typed row.document_type) (some id) documents
      ≡ none
    → IsSingle documents
    → IsSingle (update_document id (approved date) documents)
approved-IsSingle id date documents row found free s = record {
  single = λ p t.
      let bound = approve-count id p t date documents s.unique found in
      elim (Bool-cases (is_verified_of_type p t (with_status VerificationStatus.verified row))) [
        | inr other ↦ omega (arith, rw other at bound, s.single p t)
        | inl counted ↦
            let (client, type_) =
              counted-same p t (with_status VerificationStatus.verified row) counted in
            let none_before : verified_count p t documents ≡ 0 = rw client (
              rw type_ (
                no-other-count id row.passport_id (ItemType.typed row.document_type) documents
                  s.unique found free)) in
            omega (arith, rw counted at bound, none_before)
      ];
  unique = approved-unique;
}
  where
    same_id :
        (d : Filed) (hit : Bool) → (if hit then approved date d else d).document_id ≡ d.document_id
    same_id d true = refl
    same_id d false = refl

    approved-unique : HasUniqueDocuments (update_document id (approved date) documents)
    approved-unique =
        unfold update_document in
        map-HasUniqueDocuments
          (λ (d : Filed). if text_eq d.document_id id then approved date d else d) documents
          (λ d. same_id d (text_eq d.document_id id)) s.unique
