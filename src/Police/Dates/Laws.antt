-- ===== src/Police/Dates/Laws.antt =====
-- What a resolved date of services/policeReportDateService.js rests on.
use emlynk_wabot.Prelude.{
  ◌≡◌, ◌⊎◌, Bool, true, not, some, List, [], ◌∷◌, Text, text_eq, text_eq_iff, All, arith, refl,
  keep, map, inl, inr, Bool-cases, Option-cases, subst, All-keep,
}
use emlynk_wabot.Police.Dates.{
  DateStatus, DateKind, LabelledDate, Candidate, same_kind, distinct, dates_of_kind, choose_kind,
  candidates_of, extract_police_report_date, is_plausible_report_date,
}

restored {ℓ} :
    (P : Text → Type ℓ) (d : Text) (l : List Text)
    → P d
    → All P (keep (λ e. not (text_eq d e)) l)
    → All P l
restored P d [] one h = tt
restored P d (e ∷ rest) one h = elim (Bool-cases (text_eq d e)) [
  | inl same ↦ (subst P ((text_eq_iff d e).0 same) one, restored P d rest one (rw same at h))
  | inr other ↦
      let k : P e × All P (keep (λ x. not (text_eq d x)) rest) = rw other at h in
      (k.0, restored P d rest one k.1)
]

-- What holds of the distinct dates holds of all dates.
distinct-All {ℓ} : (P : Text → Type ℓ) (dates : List Text) → All P (distinct dates) → All P dates
distinct-All P [] h = tt
distinct-All P (d ∷ rest) (one, h) = (one, distinct-All P rest (restored P d (distinct rest) one h))

-- A list with one distinct date has no other date.
distinct-one : (d : Text) (dates : List Text) → distinct dates ≡ d ∷ [] → All (λ e. e ≡ d) dates
distinct-one d dates h = distinct-All (λ e. e ≡ d) dates (rw h (refl, tt))

dates-All {ℓ} :
    (P : Text → Type ℓ) (l : List Candidate)
    → All P (map (λ (c : Candidate). c.date) l)
    → All (λ (c : Candidate). P c.date) l
dates-All P [] h = tt
dates-All P (c ∷ l) (one, h) = (one, dates-All P l h)

All-dates {ℓ} :
    (P : Text → Type ℓ) (l : List Candidate)
    → All (λ (c : Candidate). P c.date) l
    → All P (map (λ (c : Candidate). c.date) l)
All-dates P [] h = tt
All-dates P (c ∷ l) (one, h) = (one, All-dates P l h)

All-distinct {ℓ} : (P : Text → Type ℓ) (dates : List Text) → All P dates → All P (distinct dates)
All-distinct P [] h = tt
All-distinct P (d ∷ rest) (one, h) =
    (one, All-keep P (λ e. not (text_eq d e)) (distinct rest) (All-distinct P rest h))

-- What holds of the items that are kept holds, if kept, of each item.
kept-All {ℓ κ} :
    {A : Type ℓ} (P : A → Type κ) (p : A → Bool) (l : List A)
    → All P (keep p l)
    → All (λ x. p x ≡ true → P x) l
kept-All P p [] h = tt
kept-All P p (x ∷ l) h = elim (Bool-cases (p x)) [
  | inl kept ↦ let k : P x × All P (keep p l) = rw kept at h in ((λ _. k.0), kept-All P p l k.1)
  | inr dropped ↦ ((λ e. absurd (cc (e, dropped))), kept-All P p l (rw dropped at h))
]

-- The candidates of one kind all have its one distinct date.
of_kind :
    (k : DateKind) (d : Text) (valid : List Candidate)
    → dates_of_kind k valid ≡ d ∷ []
    → All (λ (c : Candidate). same_kind c.kind k ≡ true → c.date ≡ d) valid
unfolding dates_of_kind
of_kind k d valid h =
    kept-All (λ (c : Candidate). c.date ≡ d) (λ (c : Candidate). same_kind c.kind k) valid
      (dates-All (λ e. e ≡ d) (keep (λ (c : Candidate). same_kind c.kind k) valid)
        (distinct-one d _ h))

-- What all plausible candidates' dates are, the one date is.
one-All {ℓ} :
    (P : Text → Type ℓ) (k : DateKind) (d : Text) (valid : List Candidate)
    → dates_of_kind k valid ≡ d ∷ []
    → All (λ (c : Candidate). P c.date) valid
    → P d
unfolding dates_of_kind
one-All P k d valid h all =
    let kept = All-distinct P _ (
      All-dates P _ (
        All-keep (λ (c : Candidate). P c.date) (λ (c : Candidate). same_kind c.kind k) valid
          all)) in
    (subst (λ l. All P l) h kept).0

-- The valid candidates are plausible.
candidates-plausible :
    (today : Text) (found : List LabelledDate)
    → All
        (λ (c : Candidate). is_plausible_report_date c.date today ≡ true)
        (keep (λ (c : Candidate). c.valid) (candidates_of today found))
unfolding candidates_of
candidates-plausible today [] = tt
candidates-plausible today (l ∷ found) = elim (Option-cases l.kind) [
  | inl excluded ↦ rw excluded (candidates-plausible today found)
  | inr (k, kind) ↦ elim (Bool-cases (is_plausible_report_date l.date today)) [
    | inl valid ↦ rw kind (rw valid (valid, candidates-plausible today found))
    | inr invalid ↦ rw kind (rw invalid (candidates-plausible today found))
  ]
]

-- A date that the text supports: it is plausible, and every plausible date found with the same kind of
-- label is the same date.
pub record IsAgreed (today : Text) (found : List LabelledDate) (d : Text) (k : DateKind)
    : Type 0 where
  pub plausible : is_plausible_report_date d today ≡ true
  pub agreed :
      All
        (λ (c : Candidate). c.valid ≡ true → same_kind c.kind k ≡ true → c.date ≡ d)
        (candidates_of today found)

list-cases :
    (l : List Text)
    → (l ≡ [])
      ⊎ ((d : Text) × (l ≡ d ∷ []))
      ⊎ ((d e : Text) × (rest : List Text) × (l ≡ d ∷ e ∷ rest))
list-cases [] = inl refl
list-cases (d ∷ []) = inr (inl (d, refl))
list-cases (d ∷ e ∷ rest) = inr (inr (d, e, rest, refl))

choose-agreed :
    (kinds : List DateKind) (valid candidates : List Candidate)
    → (choose_kind kinds valid candidates).status ≡ DateStatus.resolved
    → (d : Text) × (k : DateKind) × ((choose_kind kinds valid candidates).date ≡ some d)
      × ((choose_kind kinds valid candidates).kind ≡ some k)
      × (dates_of_kind k valid ≡ d ∷ [])
unfolding choose_kind
choose-agreed [] valid candidates h = absurd (cc h)
choose-agreed (k ∷ kinds) valid candidates h = elim (list-cases (dates_of_kind k valid)) [
  | inl empty ↦
      rw (choose_kind, empty) (choose-agreed kinds valid candidates (rw (choose_kind, empty) at h))
  | inr (inl (d, one)) ↦ (d, k, rw (choose_kind, one) refl, rw (choose_kind, one) refl, one)
  | inr (inr (d, e, rest, many)) ↦
      let n : DateStatus.ambiguous ≡ DateStatus.resolved = rw (choose_kind, many) at h in
      absurd (cc n)
]

extract-choose :
    (today : Text) (found : List LabelledDate)
    → (extract_police_report_date today found).status ≡ DateStatus.resolved
    → extract_police_report_date today found
      ≡ choose_kind
          (DateKind.submitted ∷ DateKind.issued ∷ DateKind.unlabelled ∷ [])
          (keep (λ (c : Candidate). c.valid) (candidates_of today found))
          (candidates_of today found)
unfolding extract_police_report_date
extract-choose today found h = ground arith

-- A resolved date is plausible (not before the year 2000 and not after today), and all plausible dates
-- in the text with its kind of label agree on it.
pub extract-IsAgreed :
    (today : Text) (found : List LabelledDate)
    → (extract_police_report_date today found).status ≡ DateStatus.resolved
    → (d : Text) × (k : DateKind) × ((extract_police_report_date today found).date ≡ some d)
      × ((extract_police_report_date today found).kind ≡ some k)
      × IsAgreed today found d k
extract-IsAgreed today found h =
    let r = extract-choose today found h in
    let candidates = candidates_of today found in
    let valid = keep (λ (c : Candidate). c.valid) candidates in
    let (d, k, date, kind, one) = choose-agreed _ valid candidates (rw r at h) in
    (
      d,
      k,
      rw r date,
      rw r kind,
      record {
        plausible =
            one-All (λ e. is_plausible_report_date e today ≡ true) k d valid one
              (candidates-plausible today found);
        agreed =
            kept-All (λ (c : Candidate). same_kind c.kind k ≡ true → c.date ≡ d)
              (λ (c : Candidate). c.valid) candidates (of_kind k d valid one);
      },
    )
