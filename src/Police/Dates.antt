-- ===== src/Police/Dates.antt =====
-- services/policeReportDateService.js: extractPoliceReportDate, from the dates and labels that were
-- found in the text. A date is its text "YYYY-MM-DD".
pub mod Laws
use emlynk_wabot.Prelude.{
  ℕ, ◌+◌, ◌-◌, ◌*◌, Bool, true, false, ◌&&◌, ◌||◌, not, Option, none, some, List, [], ◌∷◌, Text,
  text_eq, ltb, leb, ◌==◌, any, keep, map, if◌then◌else◌,
}
use emlynk_wabot.Confidence.{percent}

-- POLICE_DATE_STATUS
pub data DateStatus : Type 0 where
  resolved ambiguous invalid not_found : DateStatus

-- POLICE_DATE_KIND
pub data DateKind : Type 0 where
  submitted issued unlabelled : DateKind

-- A date that findLabelledDates found: `kind` is null, `none`, for a birth or expiry date, and such
-- a date is excluded.
pub record LabelledDate : Type 0 where
  pub date : Text
  pub kind : Option DateKind

pub record Candidate : Type 0 where
  pub date : Text
  pub kind : DateKind
  pub valid : Bool

pub record PoliceDate : Type 0 where
  pub status : DateStatus
  pub date : Option Text
  pub kind : Option DateKind
  pub confidence : ℕ
  pub candidates : List Candidate

-- KIND_CONFIDENCE
abbrev pub kind_confidence : DateKind → ℕ
kind_confidence DateKind.submitted = percent 95
kind_confidence DateKind.issued = percent 90
kind_confidence DateKind.unlabelled = percent 60

abbrev pub earliest_valid_year : ℕ
earliest_valid_year = 2000

-- `a <= b` on strings: code units from the left
unfoldable pub text_leb : Text → Text → Bool
text_leb [] t = true
text_leb (a ∷ s) [] = false
text_leb (a ∷ s) (b ∷ t) = ltb a b || (a == b && text_leb s t)

-- Number(isoDate.slice(0, 4)), for a date that begins with four digits
unfoldable pub year_of : Text → ℕ
year_of (a ∷ b ∷ c ∷ d ∷ rest) = (a - b'0') * 1000 + (b - b'0') * 100 + (c - b'0') * 10 + (d - b'0')
year_of _ = 0

unfoldable pub is_plausible_report_date : Text → Text → Bool
unfolding text_leb year_of
is_plausible_report_date iso_date today =
    leb earliest_valid_year (year_of iso_date) && text_leb iso_date today

abbrev pub same_kind : DateKind → DateKind → Bool
same_kind DateKind.submitted DateKind.submitted = true
same_kind DateKind.issued DateKind.issued = true
same_kind DateKind.unlabelled DateKind.unlabelled = true
same_kind _ _ = false

-- The dates that are not excluded, with their plausibility.
unfoldable pub candidates_of : Text → List LabelledDate → List Candidate
candidates_of today [] = []
candidates_of today (d ∷ rest) = elim d.kind [
  | none ↦ candidates_of today rest
  | some kind ↦
      record { date = d.date; kind = kind; valid = is_plausible_report_date d.date today }
      ∷ candidates_of today rest
]

-- `[...new Set(dates)]` keeps the first of equal dates.
abbrev pub distinct : List Text → List Text
distinct [] = []
distinct (d ∷ rest) = d ∷ keep (λ e. not (text_eq d e)) (distinct rest)

-- The distinct dates of one kind among the plausible candidates.
unfoldable pub dates_of_kind : DateKind → List Candidate → List Text
dates_of_kind kind valid =
    distinct (map (λ (c : Candidate). c.date) (keep (λ c. same_kind c.kind kind) valid))

unfoldable pub unresolved : DateStatus → List Candidate → PoliceDate
unresolved status candidates = record {
  status = status;
  date = none;
  kind = none;
  confidence = 0;
  candidates = candidates;
}

-- The loop over the kinds, the most specific first.
unfoldable pub choose_kind : List DateKind → List Candidate → List Candidate → PoliceDate
unfolding unresolved
choose_kind [] valid candidates = unresolved DateStatus.not_found candidates
choose_kind (kind ∷ kinds) valid candidates = elim (dates_of_kind kind valid) [
  | [] ↦ choose_kind kinds valid candidates
  | d ∷ more ↦ elim more [
    | [] ↦ record {
      status = DateStatus.resolved;
      date = some d;
      kind = some kind;
      confidence = kind_confidence kind;
      candidates = candidates;
    }
    | e ∷ rest ↦ unresolved DateStatus.ambiguous candidates
  ]
]

abbrev is_empty : List Candidate → Bool
is_empty [] = true
is_empty (c ∷ rest) = false

unfoldable pub extract_police_report_date : Text → List LabelledDate → PoliceDate
unfolding choose_kind
extract_police_report_date today found =
    let candidates = candidates_of today found in
    let valid = keep (λ (c : Candidate). c.valid) candidates in
    if is_empty candidates
    then unresolved DateStatus.not_found candidates
    else if is_empty valid
    then unresolved DateStatus.invalid candidates
    else choose_kind (DateKind.submitted ∷ DateKind.issued ∷ DateKind.unlabelled ∷ []) valid
        candidates
