-- ===== src/Queue/Claims.antt =====
-- services/submissionQueue.js: claimNextSubmission, createClaim, giveUp and
-- processClaimedSubmission.
use emlynk_wabot.Prelude.{
  ℕ, zero, suc, ◌+◌, ◌-◌, ◌*◌, Bool, true, false, ◌&&◌, ◌||◌, not, Option, none, some, List, [],
  ◌∷◌, Text, text_eq, ltb, leb, ◌==◌, if◌then◌else◌, is_truthy,
}
use emlynk_wabot.Placement.{ProcessingStatus}
use emlynk_wabot.Review.Reasons.{ReviewReason}
use emlynk_wabot.Queue.Table.{Row, RowStatus, is_received, update_many}

-- QUEUE_DEFAULTS: leaseMs, retryDelayMs and maxAttempts
pub record Settings : Type 0 where
  pub lease_ms : ℕ
  pub retry_delay_ms : ℕ
  pub max_attempts : ℕ

abbrev pub queue_defaults : Settings
queue_defaults = record { lease_ms = 10 * 60_000; retry_delay_ms = 60_000; max_attempts = 3 }

abbrev pub same_time : Option ℕ → Option ℕ → Bool
same_time none none = true
same_time (some a) (some b) = a == b
same_time _ _ = false

-- { processingStartedAt: null } or { lt: cutoff }, with cutoff = now - leaseMs
abbrev pub is_due : ℕ → ℕ → Option ℕ → Bool
is_due lease now none = true
is_due lease now (some t) = ltb (t + lease) now

unfoldable pub is_claimable : ℕ → ℕ → Row → Bool
is_claimable lease now r = is_received r.status && is_due lease now r.started_at

-- `a < b` on strings: code units from the left
unfoldable pub text_ltb : Text → Text → Bool
text_ltb [] [] = false
text_ltb [] (b ∷ t) = true
text_ltb (a ∷ s) [] = false
text_ltb (a ∷ s) (b ∷ t) = ltb a b || (a == b && text_ltb s t)

-- orderBy: [{ createdDate: "asc" }, { temporaryId: "asc" }]
unfoldable pub is_before : Row → Row → Bool
unfolding text_ltb
is_before a b =
    ltb a.created_date b.created_date
    || (a.created_date == b.created_date && text_ltb a.temporary_id b.temporary_id)

abbrev pub earlier : Row → Option Row → Row
earlier r none = r
earlier r (some s) = if is_before s r then s else r

-- findFirst over the claimable rows
unfoldable pub find_candidate : ℕ → ℕ → List Row → Option Row
unfolding is_claimable is_before
find_candidate lease now [] = none
find_candidate lease now (r ∷ rest) =
    let best = find_candidate lease now rest in
    if is_claimable lease now r then some (earlier r best) else best

-- The condition of the compare-and-swap.
unfoldable pub is_unchanged : Row → Row → Bool
is_unchanged candidate r =
    text_eq r.temporary_id candidate.temporary_id
    && is_received r.status
    && r.attempts == candidate.attempts
    && same_time r.started_at candidate.started_at

abbrev pub claimed : ℕ → Row → Row
claimed now r = record r { attempts = r.attempts + 1; started_at = some now }

-- claimNextSubmission. Between the search and the update other workers may have written: what they
-- did before each update is `others tries`.
module _ (others : ℕ → List Row → List Row) (lease now : ℕ) where
  unfoldable pub claim_tries : ℕ → List Row → List Row × Option Row
  unfolding find_candidate is_unchanged
  claim_tries zero rows = (rows, none)
  claim_tries (suc tries) rows = elim (find_candidate lease now rows) [
    | none ↦ (rows, none)
    | some candidate ↦
        let written = update_many (is_unchanged candidate) (claimed now) (others tries rows) in
        if written.1 == 1
        then (written.0, some (claimed now candidate))
        else claim_tries tries written.0
  ]

  unfoldable pub claim_next_submission : List Row → List Row × Option Row
  unfolding claim_tries
  claim_next_submission rows = claim_tries 5 rows

-- createClaim: what the closure holds
pub record Claim : Type 0 where
  pub temporary_id : Text
  pub attempt : ℕ
  pub earlier_placement_path : Option Text
  pub started_at : Option ℕ

unfoldable pub create_claim : Row → Claim
create_claim r = record {
  temporary_id = r.temporary_id;
  attempt = r.attempts;
  earlier_placement_path = r.placement_path;
  started_at = r.started_at;
}

-- where(): the row while the attempt still owns it
unfoldable pub owns : Claim → Row → Bool
owns c r =
    text_eq r.temporary_id c.temporary_id
    && is_received r.status
    && r.attempts == c.attempt
    && same_time r.started_at c.started_at

-- The data of renew({ placementPath })
abbrev pub renewed : ℕ → Option Text → Row → Row
renewed at placement_path r = record r {
  started_at = some at;
  placement_path = if is_truthy placement_path then placement_path else r.placement_path;
}

-- renew({ placementPath }); none is ClaimLostError
unfoldable pub renew : ℕ → Option Text → Claim → List Row → List Row × Option Claim
unfolding owns
renew at placement_path c rows =
    let written = update_many (owns c) (renewed at placement_path) rows in
    (written.0, if written.1 == 1 then some (record c { started_at = some at }) else none)

-- release(): at - leaseMs + retryDelayMs is the new lease start
unfoldable pub release : Settings → ℕ → Claim → List Row → List Row × Bool
unfolding owns
release s at c rows =
    let written =
      update_many (owns c)
        (λ r. record r {
          attempts = c.attempt - 1;
          started_at = some (at + s.retry_delay_ms - s.lease_ms);
        })
        rows in
    (written.0, written.1 == 1)

-- What processClaimedSubmission returns.
pub data Result : Type 0 where
  gave_up stale_discarded retry_later processed : Result

-- giveUp
unfoldable pub give_up : Claim → List Row → List Row × Result
unfolding owns
give_up c rows =
    let written =
      update_many (owns c)
        (λ r. record r {
          status = RowStatus.finished ProcessingStatus.failed;
          review_reason = some ReviewReason.processing_failed;
        })
        rows in
    (written.0, if written.1 == 1 then Result.gave_up else Result.stale_discarded)

unfoldable pub retry : Settings → ℕ → Claim → List Row → List Row × Result
unfolding owns
retry s now c rows =
    let written =
      update_many (owns c)
        (λ r. record r { started_at = some (now + s.retry_delay_ms - s.lease_ms) }) rows in
    (written.0, if written.1 == 1 then Result.retry_later else Result.stale_discarded)

-- The columns of `Row` that processDocument writes with updateTemporaryDocumentRecord; a pending path
-- is written when there is one.
abbrev pub recorded : ProcessingStatus → Option ReviewReason → Option Text → Row → Row
recorded status reason pending r = record r {
  status = RowStatus.finished status;
  review_reason = reason;
  pending_storage_path = if is_truthy pending then pending else r.pending_storage_path;
}

-- updateTemporaryDocumentRecord with a claim; false is ClaimLostError.
unfoldable pub update_record :
    Claim → ProcessingStatus → Option ReviewReason → Option Text → List Row → List Row × Bool
unfolding owns
update_record c status reason pending rows =
    let written = update_many (owns c) (recorded status reason pending) rows in
    (written.0, written.1 == 1)

-- The file of a row does not match: no type for its path, or another checksum than received. The
-- trim of the stored checksum is not modelled: it has no blanks.
abbrev pub is_wrong_file {ℓ} :
    {Buffer : Type ℓ} → (Buffer → Text) → (Text → Bool) → Row → Buffer → Bool
is_wrong_file sha256_hex has_mime_type row buffer =
    not (has_mime_type row.temporary_storage_path) || elim row.file_sha256 [
      | none ↦ false
      | some expected ↦ not (text_eq (sha256_hex buffer) expected)
    ]

-- processClaimedSubmission. `download` is the storage's answer, none for an error or no data;
-- `process` is processDocument with this claim, which returns whether its result was stale.
module _ {ℓ} {Buffer : Type ℓ} (sha256_hex : Buffer → Text) (has_mime_type : Text → Bool)
    (download : Text → Option Buffer) (process : Claim → Row → Buffer → List Row → List Row × Bool)
    (s : Settings) (now : ℕ) where
  abbrev run_pipeline : Claim → Row → Buffer → List Row → List Row × Result
  run_pipeline c row buffer rows =
      let (rows', stale) = process c row buffer rows in
      (rows', if stale then Result.stale_discarded else Result.processed)

  unfoldable pub process_claimed_submission : Row → List Row → List Row × Result
  unfolding create_claim give_up retry
  process_claimed_submission row rows =
      let c = create_claim row in
      if ltb s.max_attempts row.attempts
      then give_up c rows
      else elim (download row.temporary_storage_path) [
        | none ↦ if leb s.max_attempts row.attempts then give_up c rows else retry s now c rows
        | some buffer ↦
            if is_wrong_file sha256_hex has_mime_type row buffer
            then give_up c rows
            else run_pipeline c row buffer rows
      ]
