-- ===== src/Queue/System.antt =====
-- The workers of services/submissionQueue.js on one table, with the admin's retry
-- (services/adminReviewActionService.js: retryFailedSubmission): one step is one write, in any order.
use emlynk_wabot.Prelude.{
  ℕ, ◌≤◌, ◌<◌, ◌≡◌, ◌≢◌, Bool, true, false, ◌&&◌, not, is_some, Option, none, some, List, ◌∷◌, Text,
  text_eq, All, keep, ◌==◌, if◌then◌else◌,
}
use emlynk_wabot.Placement.{ProcessingStatus}
use emlynk_wabot.Review.Reasons.{ReviewReason}
use emlynk_wabot.Queue.Table.{Row, RowStatus, HasUniqueIds, update_many}
use emlynk_wabot.Queue.Claims.{
  Settings, Claim, is_claimable, is_unchanged, claimed, create_claim, renew, release, give_up,
  retry, update_record,
}

-- The claim that each worker holds.
abbrev pub Slots : Type 0
Slots = ℕ → Option Claim

abbrev pub set_slot : ℕ → Option Claim → Slots → Slots
set_slot w held slots v = if v == w then held else slots v

-- The time of the latest write, the table, and the claims.
pub record System : Type 0 where
  pub clock : ℕ
  pub rows : List Row
  pub slots : Slots

abbrev is_failed_status : RowStatus → Bool
is_failed_status RowStatus.received = false
is_failed_status (RowStatus.finished ProcessingStatus.failed) = true
is_failed_status (RowStatus.finished _) = false

-- FAILED_SUBMISSION_WHERE, with the key
abbrev is_failed : Text → Row → Bool
is_failed id r =
    text_eq r.temporary_id id && is_failed_status r.status && not (is_some r.pending_storage_path)

-- retryFailedSubmission, on the columns of `Row`
unfoldable pub put_back : Text → List Row → List Row
put_back id rows =
    (update_many (is_failed id)
      (λ r. record r {
        status = RowStatus.received;
        attempts = 0;
        started_at = none;
        review_reason = none;
      })
      rows).0

-- A worker keeps the claim that `renew` returns, and leaves the submission when its write was refused.
-- The times of the writes are in their order; those of a renewal and of a retry by an admin are later
-- than every write before.
pub data Step (settings : Settings) : System → System → Type 0 where
  -- createTemporaryDocumentRecord: the random key is new.
  arrive :
      {s : System} (r : Row)
      → All (λ q. r.temporary_id ≢ q.temporary_id) s.rows
      → ((w : ℕ) (c : Claim) → s.slots w ≡ some c → r.temporary_id ≢ c.temporary_id)
      → Step settings s (record s { rows = r ∷ s.rows })
  -- The write of claimNextSubmission has counted one row. The candidate was read earlier, at any time.
  claim :
      {s : System} (w now : ℕ) (candidate : Row)
      → s.clock ≤ now
      → is_claimable settings.lease_ms now candidate ≡ true
      → (update_many (is_unchanged candidate) (claimed now) s.rows).1 ≡ 1
      → Step settings s (record {
        clock = now;
        rows = (update_many (is_unchanged candidate) (claimed now) s.rows).0;
        slots = set_slot w (some (create_claim (claimed now candidate))) s.slots;
      })
  renews :
      {s : System} (w at : ℕ) (path : Option Text) (c : Claim)
      → s.clock < at
      → s.slots w ≡ some c
      → Step settings s (record {
        clock = at;
        rows = (renew at path c s.rows).0;
        slots = set_slot w (renew at path c s.rows).1 s.slots;
      })
  -- The run goes on after a release, and keeps its claim.
  releases :
      {s : System} (w at : ℕ) (c : Claim)
      → s.clock ≤ at
      → s.slots w ≡ some c
      → Step settings s (record s { clock = at; rows = (release settings at c s.rows).0 })
  gives_up :
      {s : System} (w : ℕ) (c : Claim)
      → s.slots w ≡ some c
      → Step settings s (record s { rows = (give_up c s.rows).0; slots = set_slot w none s.slots })
  puts_off :
      {s : System} (w now : ℕ) (c : Claim)
      → s.clock ≤ now
      → s.slots w ≡ some c
      → Step settings s (record {
        clock = now;
        rows = (retry settings now c s.rows).0;
        slots = set_slot w none s.slots;
      })
  finishes :
      {s : System} (w : ℕ) (c : Claim) (status : ProcessingStatus) (reason : Option ReviewReason)
      (pending : Option Text)
      → s.slots w ≡ some c
      → Step settings s (record s {
        rows = (update_record c status reason pending s.rows).0;
        slots = set_slot w none s.slots;
      })
  -- An admin retries a failed submission.
  retries :
      {s : System} (at : ℕ) (id : Text)
      → s.clock < at
      → Step settings s (record s { clock = at; rows = put_back id s.rows })
  -- A worker stops without a write: a crash.
  stops : {s : System} (w : ℕ) → Step settings s (record s { slots = set_slot w none s.slots })
  -- deleteTemporaryDocument, on any rows.
  deletes : {s : System} (p : Row → Bool) → Step settings s (record s { rows = keep p s.rows })

-- From a table with unique keys that no worker has a claim on.
pub data Reachable (settings : Settings) : System → Type 0 where
  start :
      {clock : ℕ} {rows : List Row}
      → HasUniqueIds rows
      → Reachable settings (record { clock = clock; rows = rows; slots = λ w. none })
  next : {s t : System} → Reachable settings s → Step settings s t → Reachable settings t
