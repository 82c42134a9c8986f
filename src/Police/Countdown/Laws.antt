-- ===== src/Police/Countdown/Laws.antt =====
-- The status of policeCountdown (services/policeCountdownService.js), from the documents and the day.
use emlynk_wabot.Prelude.{
  ℕ, ◌+◌, ◌≡◌, ◌≤◌, inl, inr, Bool, true, false, ◌||◌, not, Option, none, some, List, [], ◌∷◌, keep,
  any, length, leb, ltb, ◌==◌, is_some, arith, refl, ◌∙◌, ap, if◌then◌else◌, Bool-cases,
  Option-cases,
}
use emlynk_wabot.Storage.Documents.{is_verified}
use emlynk_wabot.Police.Countdown.{
  PoliceStatus, police_report_due_days, due_soon_days, police_status_order, PoliceDocument,
  DatedSlip, dated_slips, is_later, is_newer, insert, sort, first, submitted_of,
  police_report_due_date, days_between, status_for_days_left, police_status, days_left,
  police_countdown,
}

abbrev later_of : ℕ → Option ℕ → Option ℕ
later_of a none = some a
later_of a (some b) = some (if leb b a then a else b)

-- The latest of the submitted dates.
unfoldable pub latest_date : List PoliceDocument → Option ℕ
latest_date [] = none
latest_date (s ∷ rest) =
    let later = latest_date rest in
    elim s.police_submitted_date [ none ↦ later | some day ↦ later_of day later ]

-- What the status means: a final report, the time to the due date, or what is missing.
abbrev pub meaning : Bool → Option ℕ → Bool → ℕ → PoliceStatus
meaning true latest has_slip today = PoliceStatus.completed
meaning false none has_slip today =
    if has_slip then PoliceStatus.date_missing else PoliceStatus.not_uploaded
meaning false (some day) has_slip today =
    let due = day + police_report_due_days in
    if ltb due today
    then PoliceStatus.overdue
    else if today == due
    then PoliceStatus.due_today
    else if leb due (today + due_soon_days)
    then PoliceStatus.due_soon
    else PoliceStatus.pending

insert-later :
    (x : DatedSlip) (xs : List DatedSlip)
    → submitted_of (first (insert is_later x xs)) ≡ later_of x.submitted (submitted_of (first xs))
unfolding insert
insert-later x [] = refl
insert-later x (y ∷ ys) = ground arith

sorted-latest :
    (slips : List PoliceDocument)
    → submitted_of (first (sort is_later (dated_slips slips))) ≡ latest_date slips
unfolding sort dated_slips latest_date
sorted-latest [] = refl
sorted-latest (s ∷ rest) = elim (Option-cases s.police_submitted_date) [
  | inl gone ↦ rw gone (sorted-latest rest)
  | inr (day, dated) ↦ rw dated (
      insert-later (record { submitted = day; slip = s }) (sort is_later (dated_slips rest))
      ∙ ap (λ o. later_of day o) (sorted-latest rest))
]

module _ {ℓ} {A : Type ℓ} (before : A → A → Bool) where
  insert-some : (x : A) (xs : List A) → is_some (first (insert before x xs)) ≡ true
  unfolding insert
  insert-some x [] = refl
  insert-some x (y ∷ ys) = elim (Bool-cases (before x y)) [ inl e ↦ rw e refl | inr e ↦ rw e refl ]

  sorted-any : (q : A → Bool) (xs : List A) → is_some (first (sort before (keep q xs))) ≡ any q xs
  unfolding sort
  sorted-any q [] = refl
  sorted-any q (x ∷ xs) = elim (Bool-cases (q x)) [
    | inl hit ↦ rw hit (insert-some x (sort before (keep q xs)))
    | inr miss ↦ rw miss (sorted-any q xs)
  ]

days-meaning :
    (day today : ℕ) (has_slip : Bool)
    → status_for_days_left (days_between today (police_report_due_date day))
      ≡ meaning false (some day) has_slip today
days-meaning day today has_slip = ground arith

status-meaning :
    (report : Option PoliceDocument) (latest : Option ℕ) (slips : List PoliceDocument)
    (pending_slips today : ℕ)
    → police_status report (days_left today latest) slips pending_slips
      ≡ meaning (is_some report) latest (not (length slips == 0) || ltb 0 pending_slips) today
status-meaning (some report) latest slips pending_slips today = refl
status-meaning none none slips pending_slips today = refl
status-meaning none (some day) slips pending_slips today =
    days-meaning day today (not (length slips == 0) || ltb 0 pending_slips)

-- The status of a client is COMPLETED if and only if a report is VERIFIED; otherwise it compares the
-- day with the due date of the latest submitted date among the slips, or says that the date or the
-- slip is missing.
pub police_countdown-meaning :
    (slips reports : List PoliceDocument) (pending_slips today : ℕ)
    → (police_countdown slips reports pending_slips today).status
      ≡ meaning
          (any (λ (r : PoliceDocument). is_verified r.verification_status) reports)
          (latest_date slips)
          (not (length slips == 0) || ltb 0 pending_slips)
          today
unfolding police_countdown
police_countdown-meaning slips reports pending_slips today =
    let verified : PoliceDocument → Bool = λ r. is_verified r.verification_status in
    status-meaning (first (sort is_newer (keep verified reports)))
      (submitted_of (first (sort is_later (dated_slips slips)))) slips pending_slips today
    ∙ cc (sorted-any is_newer verified reports, sorted-latest slips)

meaning-urgent :
    (has_report : Bool) (latest : Option ℕ) (has_slip : Bool) (today later : ℕ)
    → today ≤ later
    → police_status_order (meaning has_report latest has_slip later)
      ≤ police_status_order (meaning has_report latest has_slip today)
meaning-urgent true latest has_slip today later h = omega arith
meaning-urgent false none has_slip today later h = omega arith
meaning-urgent false (some day) has_slip today later h = ground (arith, h)

-- With the same documents, the status of a client never becomes less urgent as the days go by.
pub police_countdown-urgent :
    (slips reports : List PoliceDocument) (pending_slips today later : ℕ)
    → today ≤ later
    → police_status_order (police_countdown slips reports pending_slips later).status
      ≤ police_status_order (police_countdown slips reports pending_slips today).status
police_countdown-urgent slips reports pending_slips today later h =
    rw (police_countdown-meaning slips reports pending_slips today) (
      rw (police_countdown-meaning slips reports pending_slips later) (
        meaning-urgent (any (λ (r : PoliceDocument). is_verified r.verification_status) reports)
          (latest_date slips) (not (length slips == 0) || ltb 0 pending_slips) today later h))
