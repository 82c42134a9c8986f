-- ===== src/Classification/Resolve.antt =====
-- When services/documentClassificationService.js takes the document type from the file name.
use emlynk_wabot.Prelude.{
  ◌≡◌, ◌≢◌, ◌<◌, ◌↔◌, true, false, Option, some, arith, refl, Bool-cases, inl, inr, ltb, ℕ, List,
  [], ◌∷◌,
}
use emlynk_wabot.Classification.Types.{
  DocumentType, Source, Reason, ContentClassification, is_unknown,
}
use emlynk_wabot.Classification.{resolve_document_type}
use emlynk_wabot.Classification.Scoring.{
  Evidence, Ranked, finish, classify_document_content, pick_winner, ranked, sort_ranked,
  classify_police_subtype, unknown_because, Topic,
}

finish-reason :
    (t : Topic) (score : ℕ) (subtype : Option DocumentType)
    → (finish t score subtype).reason ≢ some Reason.no_text
unfolding unknown_because
finish-reason t score subtype h = ground arith

pick-reason :
    (subtype : Option DocumentType) (l : List (Ranked Topic))
    → (pick_winner subtype l).reason ≢ some Reason.no_text
unfolding unknown_because
pick-reason subtype [] h = cc h
pick-reason subtype (a ∷ []) h = cc h
pick-reason subtype (a ∷ b ∷ rest) h =
    ground (arith, finish-reason a.candidate a.value.score subtype)

-- The reason "no text" is given exactly for a short text, which has no type.
no_text-short :
    (e : Evidence)
    → e.normalized_length < 20
    → classify_document_content e ≡ unknown_because Reason.no_text
unfolding classify_document_content
no_text-short e h = let short : ltb e.normalized_length 20 ≡ true = ground arith in rw short refl

no_text-long :
    (e : Evidence)
    → (classify_document_content e).reason ≡ some Reason.no_text
    → e.normalized_length < 20
unfolding classify_document_content
no_text-long e h = elim (Bool-cases (ltb e.normalized_length 20)) [
  | inl short ↦ ground arith
  | inr long ↦ absurd (
      pick-reason (classify_police_subtype e)
        (sort_ranked
          (ranked Topic.passport e ∷ ranked Topic.police e ∷ ranked Topic.medical e ∷ []))
        (rw long at h))
]

filename-parts :
    (guess : DocumentType) (c : ContentClassification)
    → (resolve_document_type (some guess) (some c)).source ≡ Source.filename
    → (c.reason ≡ some Reason.no_text) × (is_unknown guess ≡ false)
unfolding resolve_document_type
filename-parts guess c h = ground arith

-- The type comes from the file name exactly if the text has fewer than twenty characters and the file
-- name has a known type.
pub resolve-filename_iff :
    (guess : DocumentType) (e : Evidence)
    → ((resolve_document_type (some guess) (some (classify_document_content e))).source
        ≡ Source.filename)
      ↔ ((e.normalized_length < 20) × (is_unknown guess ≡ false))
unfolding resolve_document_type unknown_because
resolve-filename_iff guess e = (
  λ h. (
    no_text-long e (filename-parts guess (classify_document_content e) h).0,
    (filename-parts guess (classify_document_content e) h).1,
  ),
  λ h. rw (no_text-short e h.0) (ground arith),
)
