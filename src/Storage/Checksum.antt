-- ===== src/Storage/Checksum.antt =====
-- services/documentChecksumService.js. `findFirst` is modelled as the first row in the table's order:
-- a client has one row at most with a checksum, since the pair is unique.
use emlynk_wabot.Prelude.{
  ◌≡◌, ◌≢◌, ◌↔◌, inl, inr, Bool, false, ◌&&◌, not, Option, none, some, List, [], ◌∷◌, Text, text_eq,
  text_eq_iff, find, All, All-map, is_some, if◌then◌else◌, arith, refl, Bool-cases,
}
use emlynk_wabot.Placement.{ChecksumOutcome}
use emlynk_wabot.Pipeline.Plan.{Checksum}
use emlynk_wabot.Storage.Documents.{Document, is_verified}

abbrev same_client : Text → Text → Document → Bool
same_client passport_id sha d = text_eq d.passport_id passport_id && text_eq d.file_sha256 sha

abbrev other_client : Text → Text → Document → Bool
other_client passport_id sha d =
    text_eq d.file_sha256 sha && not (text_eq d.passport_id passport_id)

-- sameClient.temporaryId === temporaryId, with a submission at hand
abbrev pub is_own : Option Text → Document → Bool
is_own none d = false
is_own (some []) d = false
is_own (some (c ∷ id)) d = elim d.temporary_id [ none ↦ false | some t ↦ text_eq t (c ∷ id) ]

-- The answer with the document that an interrupted attempt has stored.
pub record Checked : Type 0 where
  pub checksum : Checksum
  pub existing_document : Option Document

abbrev checked : ChecksumOutcome → Bool → Option Document → Checked
checked outcome verified existing = record {
  checksum = record { outcome = outcome; existing_verified = verified };
  existing_document = existing;
}

-- checkClientChecksum, with a passport number and a checksum
unfoldable pub check_client_checksum : List Document → Text → Text → Option Text → Checked
check_client_checksum documents passport_id sha temporary_id =
    elim (find (same_client passport_id sha) documents) [
      | some d ↦
          if is_own temporary_id d
          then checked ChecksumOutcome.already_stored (is_verified d.verification_status) (some d)
          else checked ChecksumOutcome.duplicate (is_verified d.verification_status) none
      | none ↦
          if is_some (find (other_client passport_id sha) documents)
          then checked ChecksumOutcome.cross_client_conflict false none
          else checked ChecksumOutcome.new false none
    ]

find-none :
    (p : Document → Bool) (documents : List Document)
    → find p documents ≡ none
    → All (λ d. p d ≡ false) documents
find-none p [] h = tt
find-none p (d ∷ rest) h = elim (Bool-cases (p d)) [
  | inl hit ↦ let e : some d ≡ none = rw hit at h in absurd (cc e)
  | inr miss ↦ (miss, find-none p rest (rw miss at h))
]

none-find :
    (p : Document → Bool) (documents : List Document)
    → All (λ d. p d ≡ false) documents
    → find p documents ≡ none
none-find p [] h = refl
none-find p (d ∷ rest) (miss, h) = rw miss (none-find p rest h)

module _ (documents : List Document) (passport_id sha : Text) (temporary_id : Option Text) where
  abbrev outcome : ChecksumOutcome
  outcome = (check_client_checksum documents passport_id sha temporary_id).checksum.outcome

  both-none :
      outcome ≡ ChecksumOutcome.new
      → (find (same_client passport_id sha) documents ≡ none)
        × (find (other_client passport_id sha) documents ≡ none)
  unfolding check_client_checksum
  both-none h = ground arith

  none-new :
      find (same_client passport_id sha) documents ≡ none
      → find (other_client passport_id sha) documents ≡ none
      → outcome ≡ ChecksumOutcome.new
  unfolding check_client_checksum
  none-new a b = rw (outcome, a) (rw b refl)

differs :
    (passport_id sha : Text) (d : Document)
    → same_client passport_id sha d ≡ false
    → other_client passport_id sha d ≡ false
    → d.file_sha256 ≢ sha
differs passport_id sha d a b e =
    let same = (text_eq_iff d.file_sha256 sha).1 e in ground (arith, same)

apart :
    (passport_id sha : Text) (d : Document)
    → d.file_sha256 ≢ sha
    → (same_client passport_id sha d ≡ false) × (other_client passport_id sha d ≡ false)
apart passport_id sha d n = elim (Bool-cases (text_eq d.file_sha256 sha)) [
  | inl same ↦ absurd (n ((text_eq_iff d.file_sha256 sha).0 same))
  | inr other ↦ (ground arith, rw other refl)
]

All-zip :
    (passport_id sha : Text) (documents : List Document)
    → All (λ d. same_client passport_id sha d ≡ false) documents
    → All (λ d. other_client passport_id sha d ≡ false) documents
    → All (λ d. d.file_sha256 ≢ sha) documents
All-zip passport_id sha [] a b = tt
All-zip passport_id sha (d ∷ rest) (a, a_rest) (b, b_rest) =
    (differs passport_id sha d a b, All-zip passport_id sha rest a_rest b_rest)

-- A file is taken for new exactly if no document of any client has its checksum.
pub check_client_checksum-new_iff :
    (documents : List Document) (passport_id sha : Text) (temporary_id : Option Text)
    → ((check_client_checksum documents passport_id sha temporary_id).checksum.outcome
        ≡ ChecksumOutcome.new)
      ↔ All (λ d. d.file_sha256 ≢ sha) documents
check_client_checksum-new_iff documents passport_id sha temporary_id = (
  λ h.
      let (a, b) = both-none documents passport_id sha temporary_id h in
      All-zip passport_id sha documents (find-none (same_client passport_id sha) documents a)
        (find-none (other_client passport_id sha) documents b),
  λ h.
      none-new documents passport_id sha temporary_id
        (none-find (same_client passport_id sha) documents (
          All-map (λ d. d.file_sha256 ≢ sha) (λ d. same_client passport_id sha d ≡ false) documents
            (λ d n. (apart passport_id sha d n).0) h))
        (none-find (other_client passport_id sha) documents (
          All-map (λ d. d.file_sha256 ≢ sha) (λ d. other_client passport_id sha d ≡ false) documents
            (λ d n. (apart passport_id sha d n).1) h)),
)
