-- ===== src/Tests/Queue.antt =====
-- Workers on one waiting submission.
use emlynk_wabot.Prelude.{
  ◌≡◌, ◌≤◌, ◌<◌, refl, true, false, Bool, ◌&&◌, none, some, Option, List, [], ◌∷◌, codes, Text,
  text_eq, arith, All, inl, inr,
}
use emlynk_wabot.Placement.{ProcessingStatus}
use emlynk_wabot.Queue.Table.{Row, HasUniqueIds, update_many}
use emlynk_wabot.Queue.Claims.{
  Claim, Result, queue_defaults, is_claimable, is_unchanged, claimed, create_claim, owns, renew,
  release, give_up, retry, update_record, process_claimed_submission,
}
use emlynk_wabot.Queue.System.{System, set_slot, Step, Reachable}
use emlynk_wabot.Queue.Fencing.{IsStale, stale-unchanged}
use emlynk_wabot.Queue.Exclusion.{workers-disjoint}
use emlynk_wabot.Queue.Attempts.{IsRightFile, process-within_attempts}
use emlynk_wabot.Tests.Data.{waiting}

abbrev rows : List Row
rows = waiting ∷ []

abbrev taken : Row
taken = claimed 1000 waiting

rows-HasUniqueIds : HasUniqueIds rows
rows-HasUniqueIds = (tt, tt)

abbrev first_claim : Claim
first_claim = create_claim taken

-- A second attempt has taken the row: the first one is stale.
abbrev second_taken : Row
second_taken = claimed 700_000 taken

retaken-IsStale : All (IsStale first_claim) (second_taken ∷ [])
unfolding create_claim
retaken-IsStale = (inr (inr (inl (λ e. omega (arith, e)))), tt)

stale-unchanged_example :
    (renew 800_000 none first_claim (second_taken ∷ []) ≡ (second_taken ∷ [], none))
    × (release queue_defaults 800_000 first_claim (second_taken ∷ []) ≡ (second_taken ∷ [], false))
    × (give_up first_claim (second_taken ∷ []) ≡ (second_taken ∷ [], Result.stale_discarded))
    × (retry queue_defaults 800_000 first_claim (second_taken ∷ [])
        ≡ (second_taken ∷ [], Result.stale_discarded))
    × (update_record first_claim ProcessingStatus.verified none none (second_taken ∷ [])
        ≡ (second_taken ∷ [], false))
stale-unchanged_example =
    stale-unchanged queue_defaults 800_000 none ProcessingStatus.verified none first_claim
      (second_taken ∷ []) retaken-IsStale

-- Worker 0 claims the submission and releases it while its run goes on, and worker 1 claims it with
-- the same number of attempts.
abbrev first_system : System
first_system = record { clock = 0; rows = rows; slots = λ w. none }

abbrev claimed_system : System
claimed_system = record {
  clock = 1000;
  rows = (update_many (is_unchanged waiting) (claimed 1000) rows).0;
  slots = set_slot 0 (some first_claim) (λ w. none);
}

abbrev released_system : System
released_system = record claimed_system {
  clock = 2000;
  rows = (release queue_defaults 2000 first_claim claimed_system.rows).0;
}

abbrev released_row : Row
released_row = record taken { attempts = 0; started_at = some 0 }

abbrev second_claim : Claim
second_claim = create_claim (claimed 700_000 released_row)

abbrev both_system : System
both_system = record {
  clock = 700_000;
  rows = (update_many (is_unchanged released_row) (claimed 700_000) released_system.rows).0;
  slots = set_slot 1 (some second_claim) released_system.slots;
}

claims_first : Reachable queue_defaults claimed_system
unfolding update_many is_unchanged text_eq is_claimable
claims_first =
    Reachable.next (Reachable.start {clock = 0} rows-HasUniqueIds)
      (Step.claim {s = first_system} 0 1000 waiting (omega arith) refl refl)

releases_first : Reachable queue_defaults released_system
releases_first =
    Reachable.next claims_first
      (Step.releases {s = claimed_system} 0 2000 first_claim (omega arith) refl)

claims_second : Reachable queue_defaults both_system
unfolding update_many is_unchanged text_eq is_claimable release owns create_claim
claims_second =
    Reachable.next releases_first
      (Step.claim {s = released_system} 1 700_000 released_row (omega arith) refl refl)

workers-disjoint_example :
    (owns first_claim (claimed 700_000 released_row)
      && owns second_claim (claimed 700_000 released_row))
    ≡ false
workers-disjoint_example =
    workers-disjoint queue_defaults both_system claims_second 0 1 first_claim second_claim
      (omega arith) refl refl (claimed 700_000 released_row)

abbrev file : Text → Option Text
file path = some (codes "ff")

abbrev finished : Claim → Row → Text → List Row → List Row × Bool
finished c row buffer table = (table, false)

abbrev processed : Result
processed =
    (process_claimed_submission (λ s. s) (λ path. true) file finished queue_defaults 1000 taken
      rows).1

process-within_attempts_example :
    (processed ≡ Result.processed
      → (taken.attempts ≤ 3)
        × IsRightFile (λ s. s) (λ path. true) file finished queue_defaults 1000 taken rows)
    × (processed ≡ Result.retry_later
        → (taken.attempts < 3) × (file taken.temporary_storage_path ≡ none))
process-within_attempts_example =
    process-within_attempts (λ s. s) (λ path. true) file finished queue_defaults 1000 taken rows
