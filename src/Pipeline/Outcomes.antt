-- ===== src/Pipeline/Outcomes.antt =====
-- services/statusMapping.js: how the dashboard and the daily report count a submission.
use emlynk_wabot.Prelude.{◌≡◌, Bool, true, false, not, arith}
use emlynk_wabot.Confidence.{Confidence}
use emlynk_wabot.Placement.{ProcessingStatus, Place, Request, decide_placement, needs_person}
use emlynk_wabot.Placement.Laws.{client-IsFilable}
use emlynk_wabot.Review.{Findings, determine_processing_status}
use emlynk_wabot.Queue.Table.{RowStatus}

-- SUBMISSION_OUTCOME
pub data SubmissionOutcome : Type 0 where
  processing stored needs_review duplicate failed : SubmissionOutcome

-- OUTCOME_BY_STATUS and submissionOutcome
unfoldable pub submission_outcome : RowStatus → SubmissionOutcome
submission_outcome RowStatus.received = SubmissionOutcome.processing
submission_outcome (RowStatus.finished ProcessingStatus.verified) = SubmissionOutcome.stored
submission_outcome (RowStatus.finished ProcessingStatus.high_confidence) = SubmissionOutcome.stored
submission_outcome (RowStatus.finished ProcessingStatus.slightly_unclear) = SubmissionOutcome.stored
submission_outcome (RowStatus.finished ProcessingStatus.unclear) = SubmissionOutcome.stored
submission_outcome (RowStatus.finished ProcessingStatus.undefined) = SubmissionOutcome.needs_review
submission_outcome (RowStatus.finished ProcessingStatus.manual_review) =
    SubmissionOutcome.needs_review
submission_outcome (RowStatus.finished ProcessingStatus.conflict) = SubmissionOutcome.needs_review
submission_outcome (RowStatus.finished ProcessingStatus.duplicate) = SubmissionOutcome.duplicate
submission_outcome (RowStatus.finished ProcessingStatus.failed) = SubmissionOutcome.failed

abbrev is_open : SubmissionOutcome → Bool
is_open SubmissionOutcome.failed = true
is_open SubmissionOutcome.processing = true
is_open _ = false

unfoldable pub is_successfully_processed : RowStatus → Bool
unfolding submission_outcome
is_successfully_processed s = not (is_open (submission_outcome s))

-- The status of a request that comes from determineProcessingStatus.
abbrev pub IsDetermined : Request → Type 0
IsDetermined r =
    (c : Confidence) × (f : Findings) × (r.processing_status ≡ determine_processing_status c f)

determined-outcome :
    (c : Confidence) (f : Findings)
    → needs_person (determine_processing_status c f) ≡ false
    → submission_outcome (RowStatus.finished (determine_processing_status c f))
      ≡ SubmissionOutcome.stored
unfolding determine_processing_status submission_outcome
determined-outcome c f h = ground arith

kept_status :
    (r : Request)
    → (decide_placement r).placement ≡ Place.client
    → (decide_placement r).processing_status ≡ r.processing_status
unfolding decide_placement
kept_status r h = ground arith

-- A new document that the pipeline files under a client counts as stored.
pub filed-stored :
    (r : Request)
    → IsDetermined r
    → (decide_placement r).placement ≡ Place.client
    → (decide_placement r).already_stored ≡ false
    → submission_outcome (RowStatus.finished (decide_placement r).processing_status)
      ≡ SubmissionOutcome.stored
filed-stored r (c, f, e) h n =
    let usable : needs_person (determine_processing_status c f) ≡ false =
      rw e at (client-IsFilable r h n).usable in
    rw (kept_status r h) (rw e (determined-outcome c f usable))
