-- ===== src/Police/Countdown.antt =====
-- services/policeCountdownService.js and policeWorkflowService.js. A date is the number of its day, and
-- a number of days may be negative.
pub mod Laws
use emlynk_wabot.Prelude.{
  ℕ, ◌+◌, ◌-◌, Bool, true, false, ◌&&◌, ◌||◌, not, Option, none, some, List, [], ◌∷◌, Text, keep,
  length, leb, ltb, ◌==◌, is_some, if◌then◌else◌,
}
use emlynk_wabot.Classification.{DocumentType, is_police_slip, is_police_report}
use emlynk_wabot.Police.Dates.{DateStatus}
use emlynk_wabot.Storage.Documents.{VerificationStatus, is_verified}

pub data ℤ : Type 0 where
  pos negsuc : ℕ → ℤ

-- POLICE_STATUS
pub data PoliceStatus : Type 0 where
  completed pending due_soon due_today overdue date_missing not_uploaded : PoliceStatus

-- POLICE_REPORT_DUE_DAYS of policeWorkflowService.js, and DUE_SOON_DAYS
abbrev pub police_report_due_days : ℕ
police_report_due_days = 21

abbrev pub due_soon_days : ℕ
due_soon_days = 7

-- The place of a status in POLICE_STATUS_ORDER, the most urgent first.
abbrev pub police_status_order : PoliceStatus → ℕ
police_status_order PoliceStatus.overdue = 0
police_status_order PoliceStatus.due_today = 1
police_status_order PoliceStatus.due_soon = 2
police_status_order PoliceStatus.pending = 3
police_status_order PoliceStatus.date_missing = 4
police_status_order PoliceStatus.not_uploaded = 5
police_status_order PoliceStatus.completed = 6

-- A stored police document.
pub record PoliceDocument : Type 0 where
  pub document_id : Text
  pub verification_status : VerificationStatus
  pub police_submitted_date : Option ℕ
  pub received_date : ℕ

-- policeReportDueDate of policeWorkflowService.js
abbrev pub police_report_due_date : ℕ → ℕ
police_report_due_date submitted = submitted + police_report_due_days

-- POLICE_WORKFLOW_EVENT: a slip with its submitted and due dates, or a report
pub data WorkflowEvent : Type 0 where
  slip_received : ℕ → ℕ → WorkflowEvent
  report_received : WorkflowEvent

abbrev pub slip_event : DateStatus → Option ℕ → Option WorkflowEvent
slip_event DateStatus.resolved (some date) =
    some (WorkflowEvent.slip_received date (police_report_due_date date))
slip_event DateStatus.resolved none = none
slip_event DateStatus.ambiguous date = none
slip_event DateStatus.invalid date = none
slip_event DateStatus.not_found date = none

-- policeWorkflowEvent of policeWorkflowService.js; a resolved date has its day.
unfoldable pub police_workflow_event :
    DocumentType → DateStatus → Option ℕ → Bool → Option WorkflowEvent
police_workflow_event document_type status date is_client =
    if not is_client
    then none
    else if is_police_slip document_type
    then slip_event status date
    else if is_police_report document_type
    then some WorkflowEvent.report_received
    else none

abbrev pub days_between : ℕ → ℕ → ℤ
days_between from to = if ltb to from then ℤ.negsuc (from - to - 1) else ℤ.pos (to - from)

abbrev pub status_for_days_left : ℤ → PoliceStatus
status_for_days_left (ℤ.negsuc n) = PoliceStatus.overdue
status_for_days_left (ℤ.pos n) =
    if n == 0
    then PoliceStatus.due_today
    else if leb n due_soon_days
    then PoliceStatus.due_soon
    else PoliceStatus.pending

-- newestFirst, not after
abbrev pub is_newer : PoliceDocument → PoliceDocument → Bool
is_newer a b = leb b.received_date a.received_date

pub record DatedSlip : Type 0 where
  pub submitted : ℕ
  pub slip : PoliceDocument

-- The slips that have a submitted date.
unfoldable pub dated_slips : List PoliceDocument → List DatedSlip
dated_slips [] = []
dated_slips (s ∷ rest) =
    let later = dated_slips rest in
    elim s.police_submitted_date [
      | none ↦ later
      | some day ↦ record { submitted = day; slip = s } ∷ later
    ]

-- Does the sort of the dated slips keep a before b?
abbrev pub is_later : DatedSlip → DatedSlip → Bool
is_later a b =
    if a.submitted == b.submitted then is_newer a.slip b.slip else ltb b.submitted a.submitted

-- `sort`, which keeps the order of equal items
module _ {ℓ} {A : Type ℓ} (before : A → A → Bool) where
  unfoldable pub insert : A → List A → List A
  insert x [] = x ∷ []
  insert x (y ∷ ys) = let rest = insert x ys in if before x y then x ∷ (y ∷ ys) else y ∷ rest

  unfoldable pub sort : List A → List A
  sort [] = []
  sort (x ∷ xs) = insert x (sort xs)

-- `xs[0] ?? null`
abbrev pub first {ℓ} : {A : Type ℓ} → List A → Option A
first [] = none
first (x ∷ xs) = some x

pub record Countdown : Type 0 where
  pub status : PoliceStatus
  pub submitted_date : Option ℕ
  pub due_date : Option ℕ
  pub days_remaining : Option ℤ
  pub slip : Option PoliceDocument
  pub report : Option PoliceDocument
  pub slip_awaiting_review : Bool

abbrev pub is_completed : PoliceStatus → Bool
is_completed PoliceStatus.completed = true
is_completed PoliceStatus.pending = false
is_completed PoliceStatus.due_soon = false
is_completed PoliceStatus.due_today = false
is_completed PoliceStatus.overdue = false
is_completed PoliceStatus.date_missing = false
is_completed PoliceStatus.not_uploaded = false

abbrev pub submitted_of : Option DatedSlip → Option ℕ
submitted_of none = none
submitted_of (some d) = some d.submitted

-- The latest slip: the one whose date counts, or the one received last.
abbrev pub latest_slip : Option DatedSlip → List PoliceDocument → Option PoliceDocument
latest_slip none slips = first (sort is_newer slips)
latest_slip (some d) slips = some d.slip

-- The status, from the report and the days that are left.
abbrev pub police_status : Option PoliceDocument → Option ℤ → List PoliceDocument → ℕ → PoliceStatus
police_status (some report) days slips pending_slips = PoliceStatus.completed
police_status none (some days) slips pending_slips = status_for_days_left days
police_status none none slips pending_slips =
    if not (length slips == 0) || ltb 0 pending_slips
    then PoliceStatus.date_missing
    else PoliceStatus.not_uploaded

abbrev pub days_left : ℕ → Option ℕ → Option ℤ
days_left today none = none
days_left today (some submitted) = some (days_between today (police_report_due_date submitted))

abbrev pub due_of : Option ℕ → Option ℕ
due_of none = none
due_of (some submitted) = some (police_report_due_date submitted)

-- policeCountdown
unfoldable pub police_countdown : List PoliceDocument → List PoliceDocument → ℕ → ℕ → Countdown
police_countdown slips reports pending_slips today =
    let latest = first (sort is_later (dated_slips slips)) in
    let final_report =
      first (
        sort is_newer (keep (λ (r : PoliceDocument). is_verified r.verification_status) reports)) in
    let submitted = submitted_of latest in
    let days = days_left today submitted in
    let status = police_status final_report days slips pending_slips in
    record {
      status = status;
      submitted_date = submitted;
      due_date = due_of submitted;
      days_remaining = if is_completed status then none else days;
      slip = latest_slip latest slips;
      report = final_report;
      slip_awaiting_review = length slips == 0 && ltb 0 pending_slips;
    }
