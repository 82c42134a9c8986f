-- ===== src/Classification/Scoring/Winner.antt =====
-- services/documentClassificationService.js: the winner of the ranking.
use emlynk_wabot.Prelude.{
  ◌+◌, ◌≤◌, ◌≡◌, ◌≢◌, ◌⊎◌, inl, inr, Option, none, some, arith, refl, List, [], ◌∷◌, Bool-cases,
  ltb,
}
use emlynk_wabot.Classification.Types.{DocumentType, Reason, ContentClassification}
use emlynk_wabot.Classification.Scoring.{
  Topic, Evidence, Score, Ranked, score_document_type, classify_police_subtype,
  classify_document_content, unknown_because, sort_ranked, pick_winner,
}

abbrev pub topic_of : DocumentType → Option Topic
topic_of DocumentType.passport = some Topic.passport
topic_of DocumentType.police_slip = some Topic.police
topic_of DocumentType.police_report = some Topic.police
topic_of DocumentType.medical = some Topic.medical
topic_of DocumentType.unknown = none

-- Enough evidence, and a clear lead over every other topic.
pub record IsWinner (e : Evidence) (t : Topic) : Type 0 where
  pub enough : 3 ≤ (score_document_type t e).score
  pub several : 2 ≤ (score_document_type t e).indicators
  pub leads :
      (u : Topic) → u ≢ t → (score_document_type u e).score + 2 ≤ (score_document_type t e).score

-- The ranking of the three topics by their scores.
abbrev ranking : Score → Score → Score → List (Ranked Topic)
ranking p q m = sort_ranked (
    record { candidate = Topic.passport; value = p }
    ∷ record { candidate = Topic.police; value = q }
    ∷ record { candidate = Topic.medical; value = m }
    ∷ [])

-- `a` has enough evidence and leads `b` and `c`.
abbrev Leads : Score → Score → Score → Type 0
Leads a b c = (3 ≤ a.score) × (2 ≤ a.indicators) × (b.score + 2 ≤ a.score) × (c.score + 2 ≤ a.score)

abbrev IsPoliceOrNone : Option DocumentType → Type 0
IsPoliceOrNone none = Unit
IsPoliceOrNone (some t) = topic_of t ≡ some Topic.police

subtype-IsPolice : (e : Evidence) → IsPoliceOrNone (classify_police_subtype e)
unfolding classify_police_subtype sort_ranked
subtype-IsPolice e = ground arith

module _ (s : Option DocumentType) (p q m : Score) (known : IsPoliceOrNone s) where
  abbrev result : ContentClassification
  result = pick_winner s (ranking p q m)

  pick-passport :
      topic_of result.document_type ≡ some Topic.passport → Leads p q m × (result.score ≡ p.score)
  unfolding sort_ranked unknown_because
  pick-passport h = ground arith

  pick-police :
      topic_of result.document_type ≡ some Topic.police → Leads q p m × (result.score ≡ q.score)
  unfolding sort_ranked unknown_because
  pick-police h = ground arith

  pick-medical :
      topic_of result.document_type ≡ some Topic.medical → Leads m p q × (result.score ≡ m.score)
  unfolding sort_ranked unknown_because
  pick-medical h = ground arith

-- A known type is the ranking's.
classify-eq-pick :
    (e : Evidence) (t : Topic)
    → topic_of (classify_document_content e).document_type ≡ some t
    → classify_document_content e
      ≡ result
          (classify_police_subtype e)
          (score_document_type Topic.passport e)
          (score_document_type Topic.police e)
          (score_document_type Topic.medical e)
          (subtype-IsPolice e)
unfolding classify_document_content sort_ranked unknown_because
classify-eq-pick e t h = elim (Bool-cases (ltb e.normalized_length 20)) [
  | inl short ↦ cc (let n : none ≡ some t = rw short at h in n)
  | inr long ↦ rw long
]

module _ (e : Evidence) where
  abbrev score_of : Topic → Score
  score_of t = score_document_type t e

  IsWinner-passport :
      Leads (score_of Topic.passport) (score_of Topic.police) (score_of Topic.medical)
      → IsWinner e Topic.passport
  IsWinner-passport l = record {
    enough = l.0;
    several = l.1;
    leads = elim [
      | Topic.passport ↦ λ n. absurd (n refl)
      | Topic.police ↦ λ _. l.2
      | Topic.medical ↦ λ _. l.3
    ];
  }

  IsWinner-police :
      Leads (score_of Topic.police) (score_of Topic.passport) (score_of Topic.medical)
      → IsWinner e Topic.police
  IsWinner-police l = record {
    enough = l.0;
    several = l.1;
    leads = elim [
      | Topic.passport ↦ λ _. l.2
      | Topic.police ↦ λ n. absurd (n refl)
      | Topic.medical ↦ λ _. l.3
    ];
  }

  IsWinner-medical :
      Leads (score_of Topic.medical) (score_of Topic.passport) (score_of Topic.police)
      → IsWinner e Topic.medical
  IsWinner-medical l = record {
    enough = l.0;
    several = l.1;
    leads = elim [
      | Topic.passport ↦ λ _. l.2
      | Topic.police ↦ λ _. l.3
      | Topic.medical ↦ λ n. absurd (n refl)
    ];
  }

-- A topic that the classifier returns has enough evidence and leads every other topic clearly, and
-- the returned score is its score.
pub classify-IsWinner :
    (e : Evidence) (t : Topic)
    → topic_of (classify_document_content e).document_type ≡ some t
    → IsWinner e t × ((classify_document_content e).score ≡ (score_document_type t e).score)
unfolding classify_document_content sort_ranked unknown_because
classify-IsWinner e Topic.passport h =
    let r = classify-eq-pick e Topic.passport h in
    let (l, n) = pick-passport _ _ _ _ (subtype-IsPolice e) (rw r at h) in
    (IsWinner-passport e l, rw r n)
classify-IsWinner e Topic.police h =
    let r = classify-eq-pick e Topic.police h in
    let (l, n) = pick-police _ _ _ _ (subtype-IsPolice e) (rw r at h) in
    (IsWinner-police e l, rw r n)
classify-IsWinner e Topic.medical h =
    let r = classify-eq-pick e Topic.medical h in
    let (l, n) = pick-medical _ _ _ _ (subtype-IsPolice e) (rw r at h) in
    (IsWinner-medical e l, rw r n)

-- A text of at least twenty characters with a winning topic is classified as that topic; only a
-- police document that is clearly neither a slip nor a report stays without a type.
pub winner-classified :
    (e : Evidence) (t : Topic)
    → 20 ≤ e.normalized_length
    → IsWinner e t
    → (topic_of (classify_document_content e).document_type ≡ some t)
      ⊎ ((t ≡ Topic.police)
          × (classify_police_subtype e ≡ none)
          × ((classify_document_content e).reason ≡ some Reason.police_type_unclear))
unfolding classify_document_content sort_ranked unknown_because
winner-classified e Topic.passport n w =
    ground (arith, w.leads Topic.police (cc), w.leads Topic.medical (cc), subtype-IsPolice e)
winner-classified e Topic.police n w =
    ground (arith, w.leads Topic.passport (cc), w.leads Topic.medical (cc), subtype-IsPolice e)
winner-classified e Topic.medical n w =
    ground (arith, w.leads Topic.police (cc), w.leads Topic.passport (cc), subtype-IsPolice e)
