-- ===== src/Classification/Scoring.antt =====
-- services/documentClassificationService.js: indicator scores, and the winner that leads clearly.
-- Whether an indicator's regular expression matches the normalized text is an input, by its id.
pub mod Winner
use emlynk_wabot.Prelude.{
  ℕ, ◌+◌, ◌-◌, String, Bool, true, false, not, ◌&&◌, ◌||◌, Option, none, some, List, [], ◌∷◌, ltb,
  leb, if◌then◌else◌,
}
use emlynk_wabot.Classification.Types.{DocumentType, Reason, ContentClassification}

-- The keys of CONTENT_INDICATORS, POLICE_FAMILY among them.
pub data Topic : Type 0 where
  passport police medical : Topic

-- What the classifier sees of a text.
pub record Evidence : Type 0 where
  pub normalized_length : ℕ
  pub matches : String → Bool
  pub mrz_line1 : Bool
  pub mrz_line2 : Bool

-- An indicator: its id and its weight.
abbrev pub Indicator : Type 0
Indicator = String × ℕ

abbrev pub content_indicators : Topic → List Indicator
content_indicators Topic.passport =
    ("passport", 1)
    ∷ ("passport_number", 1)
    ∷ ("nationality", 1)
    ∷ ("surname", 1)
    ∷ ("given_names", 1)
    ∷ ("place_of_birth", 1)
    ∷ ("date_of_expiry", 1)
    ∷ []
content_indicators Topic.police =
    ("police", 1)
    ∷ ("police_clearance", 2)
    ∷ ("clearance_certificate", 2)
    ∷ ("criminal_record", 2)
    ∷ ("police_office", 1)
    ∷ ("inspector_general", 1)
    ∷ ("conviction", 1)
    ∷ ("character_certificate", 1)
    ∷ []
content_indicators Topic.medical =
    ("medical", 1)
    ∷ ("medical_report", 2)
    ∷ ("gcc_medical", 2)
    ∷ ("fitness", 1)
    ∷ ("health", 1)
    ∷ ("medical_facility", 1)
    ∷ ("doctor", 1)
    ∷ ("lab_tests", 1)
    ∷ []

abbrev pub slip_indicators : List Indicator
slip_indicators =
    ("slip_receipt", 2)
    ∷ ("slip_submitted", 2)
    ∷ ("slip_application_number", 2)
    ∷ ("slip_clearance_application", 2)
    ∷ ("slip_application", 1)
    ∷ ("slip_received", 1)
    ∷ ("slip_reference_number", 1)
    ∷ []

abbrev pub report_indicators : List Indicator
report_indicators =
    ("report_clearance_certificate", 2)
    ∷ ("report_no_criminal_record", 2)
    ∷ ("report_certify", 2)
    ∷ ("report_criminal_record", 1)
    ∷ ("report_inspector_general", 1)
    ∷ ("report_police_headquarters", 1)
    ∷ ("report_date_of_issue", 1)
    ∷ []

-- The sum of the matched weights, and how many indicators matched.
pub record Score : Type 0 where
  pub score : ℕ
  pub indicators : ℕ

abbrev add_match : Bool → ℕ → Score → Score
add_match true weight s = record { score = weight + s.score; indicators = 1 + s.indicators }
add_match false weight s = s

unfoldable pub score_indicators : (String → Bool) → List Indicator → Score
score_indicators matches [] = record { score = 0; indicators = 0 }
score_indicators matches ((id, weight) ∷ rest) =
    add_match (matches id) weight (score_indicators matches rest)

-- scoreDocumentType: a passport also counts its two MRZ lines
unfoldable pub score_document_type : Topic → Evidence → Score
score_document_type Topic.passport e =
    add_match e.mrz_line1 2
      (add_match e.mrz_line2 2 (score_indicators e.matches (content_indicators Topic.passport)))
score_document_type topic e = score_indicators e.matches (content_indicators topic)

-- A candidate of a ranking.
pub record Ranked {ℓ} (A : Type ℓ) : Type ℓ where
  pub candidate : A
  pub value : Score

-- `.sort((a, b) => b.score - a.score)`, which keeps the order of equal scores
module _ {ℓ} {A : Type ℓ} where
  unfoldable pub insert_ranked : Ranked A → List (Ranked A) → List (Ranked A)
  insert_ranked x [] = x ∷ []
  insert_ranked x (y ∷ ys) =
      if leb y.value.score x.value.score then x ∷ y ∷ ys else y ∷ insert_ranked x ys

  unfoldable pub sort_ranked : List (Ranked A) → List (Ranked A)
  unfolding insert_ranked
  sort_ranked [] = []
  sort_ranked (x ∷ xs) = insert_ranked x (sort_ranked xs)

-- MIN_SCORE and POLICE_SUBTYPE_MIN_SCORE, and so on: the two tables agree.
abbrev pub min_score : ℕ
min_score = 3

abbrev pub min_indicators : ℕ
min_indicators = 2

abbrev pub min_lead : ℕ
min_lead = 2

abbrev min_text_length : ℕ
min_text_length = 20

-- classifyPoliceSubtype's documentType, `none` for null; the two scores are numbers with
-- best >= runner-up, so that their difference is not negative
abbrev police_subtype_of : List (Ranked DocumentType) → Option DocumentType
police_subtype_of (best ∷ runner_up ∷ rest) =
    if leb min_score best.value.score
      && leb min_indicators best.value.indicators
      && leb min_lead (best.value.score - runner_up.value.score)
    then some best.candidate
    else none
police_subtype_of _ = none

unfoldable pub classify_police_subtype : Evidence → Option DocumentType
unfolding sort_ranked
classify_police_subtype e = police_subtype_of (
    sort_ranked (
      record {
        candidate = DocumentType.police_slip;
        value = score_indicators e.matches slip_indicators;
      }
      ∷ record {
        candidate = DocumentType.police_report;
        value = score_indicators e.matches report_indicators;
      }
      ∷ []))

unfoldable pub unknown_because : Reason → ContentClassification
unknown_because reason = record {
  document_type = DocumentType.unknown;
  score = 0;
  reason = some reason;
}

abbrev classified : DocumentType → ℕ → ContentClassification
classified t score = record { document_type = t; score = score; reason = none }

-- The end of classifyDocumentContent, for the winning topic.
abbrev pub finish : Topic → ℕ → Option DocumentType → ContentClassification
finish Topic.passport score subtype = classified DocumentType.passport score
finish Topic.medical score subtype = classified DocumentType.medical score
finish Topic.police score none = unknown_because Reason.police_type_unclear
finish Topic.police score (some t) = classified t score

abbrev pub pick_winner : Option DocumentType → List (Ranked Topic) → ContentClassification
pick_winner subtype (best ∷ runner_up ∷ rest) =
    if not (leb min_score best.value.score) || not (leb min_indicators best.value.indicators)
    then unknown_because Reason.insufficient_evidence
    else if not (leb min_lead (best.value.score - runner_up.value.score))
    then unknown_because Reason.ambiguous_content
    else finish best.candidate best.value.score subtype
pick_winner subtype _ = unknown_because Reason.insufficient_evidence

abbrev pub ranked : Topic → Evidence → Ranked Topic
ranked topic e = record { candidate = topic; value = score_document_type topic e }

unfoldable pub classify_document_content : Evidence → ContentClassification
unfolding sort_ranked unknown_because
classify_document_content e =
    if ltb e.normalized_length min_text_length
    then unknown_because Reason.no_text
    else pick_winner (classify_police_subtype e) (
        sort_ranked (ranked Topic.passport e ∷ ranked Topic.police e ∷ ranked Topic.medical e ∷ []))
