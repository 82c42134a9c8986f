-- ===== src/Pipeline/Process/Record.antt =====
-- What processDocument (services/documentProcessingService.js) writes to the users table.
use emlynk_wabot.Prelude.{
  ℕ, ◌≡◌, ◌⊎◌, inl, inr, Bool, true, false, Option, none, some, List, Text, refl, Bool-cases,
}
use emlynk_wabot.Users.{User}
use emlynk_wabot.Identity.{Identity}
use emlynk_wabot.Reconciliation.{Reconciled}
use emlynk_wabot.Reconciliation.Apply.{id_or_empty}
use emlynk_wabot.Reconciliation.Apply.Keeps.{AllFilled, apply_reconciliation_updates-AllFilled}
use emlynk_wabot.Review.{Findings}
use emlynk_wabot.Storage.Documents.{Document}
use emlynk_wabot.Storage.Checksum.{Checked}
use emlynk_wabot.Storage.World.{Bucket, World, renew_held}
use emlynk_wabot.Storage.Place.{Placed, PlaceResult}
use emlynk_wabot.Pipeline.Plan.{Read, Assessment, Checksum, assess, checksum_allows_writes}
use emlynk_wabot.Pipeline.Runs.{Stage, Submission, State, Processed, Written}
use emlynk_wabot.Pipeline.Process.{
  between, with_world, fail, checksum_of, write_record, record_result, after_placement, store,
  after_writes, reconciles, checks, decide, process_document,
}
use emlynk_wabot.Pipeline.Process.Completed.{
  asked, checked_state, checksum_state, identity_of, reconciled_of,
}
use emlynk_wabot.Pipeline.Process.Outcome.{checksum_answer}

-- What others do to the users table.
pub data Moves {ℓ} {B : Type ℓ} (others : Stage → State B → State B)
    : List User → List User → Type ℓ where
  still : {u : List User} → Moves others u u
  move :
      {u v : List User} (stage : Stage) (t : State B)
      → Moves others u v
      → v ≡ t.users
      → Moves others u (others stage t).users

joined {ℓ} :
    {B : Type ℓ} {others : Stage → State B → State B} {u v w : List User}
    → Moves others u v
    → Moves others v w
    → Moves others u w
joined before still = before
joined before (move stage t later e) = move stage t (joined before later) e

module _ {ℓ κ} {B : Type ℓ} {Content : Type κ} (ops : Bucket B Content) (clock : ℕ → ℕ)
    (fails : Document → Bool) (others : Stage → State B → State B) (breaks : Stage → Bool)
    (day_of : Text → Option Text) (today : Text) (sub : Submission) where
  moved :
      (stage : Stage) (s : State B)
      → Moves others s.users (between ops clock fails others breaks day_of today sub stage s).users
  moved stage s = move stage s still refl

  world-users :
      (s : State B) (wo : World B × Bool) (r : Processed)
      → ((with_world ops clock fails others breaks day_of today sub s wo r).0).users ≡ s.users
  world-users s (w, true) r = refl
  world-users s (w, false) r = refl

  fail-users :
      (stage : Stage) (pending : Option Text) (s : State B)
      → Moves others s.users
          ((fail ops clock fails others breaks day_of today sub stage pending s).0).users
  unfolding fail
  fail-users stage pending s = elim (Bool-cases (breaks Stage.catch_update)) [
    | inl broken ↦ rw (fail, broken) (moved Stage.catch_update s)
    | inr works ↦ rw (fail, works) (rw (world-users _ _ _) (moved Stage.catch_update s))
  ]

  result-users :
      (f : Findings) (p : Placed) (s : State B)
      → Moves others s.users
          ((record_result ops clock fails others breaks day_of today sub f p s).0).users
  unfolding record_result
  result-users f p s = elim (Bool-cases (breaks Stage.record_update)) [
    | inl broken ↦
        rw (record_result, broken) (fail-users Stage.record_update p.pending_storage_path s)
    | inr works ↦ rw (record_result, works) (rw (world-users _ _ _) (moved Stage.record_update s))
  ]

  placement-users :
      (f : Findings) (s : State B) (r : World B × PlaceResult)
      → Moves others s.users
          ((after_placement ops clock fails others breaks day_of today sub f s r).0).users
  placement-users f s (w, PlaceResult.done p) = result-users f p (record s { world = w })
  placement-users f s (w, PlaceResult.claim_lost) = still
  placement-users f s (w, PlaceResult.failed) =
      fail-users Stage.storage none (record s { world = w })

  store-users :
      (a : Assessment) (i : Identity) (r : Option Reconciled) (checked : Option Checked)
      (s : State B)
      → Moves others s.users
          ((store ops clock fails others breaks day_of today sub a i r checked s).0).users
  unfolding store
  store-users a i r checked s =
      let later = between ops clock fails others breaks day_of today sub Stage.placement s in
      joined (moved Stage.placement s) (placement-users _ later _)

  writes-users :
      (a : Assessment) (i : Identity) (r : Option Reconciled) (checked : Option Checked)
      (sb : State B × Written)
      → Moves others
          (sb.0).users
          ((after_writes ops clock fails others breaks day_of today sub a i r checked sb).0).users
  writes-users a i r checked (s, Written.lost) = still
  writes-users a i r checked (s, Written.broken) = fail-users Stage.reconciliation none s
  writes-users a i r checked (s, Written.written) = elim (Bool-cases (breaks Stage.storage)) [
    | inl broken ↦ rw broken (fail-users Stage.storage none s)
    | inr works ↦ rw works (joined (moved Stage.storage s) (store-users a i r checked _))
  ]

  -- Either nothing was written, or the values of one reconciliation for a file that allows it.
  abbrev IsRecorded : Identity → Option Checksum → List User → List User → Type 0
  IsRecorded i checksum before after =
      (after ≡ before)
      ⊎ ((checksum_allows_writes checksum ≡ true)
          × AllFilled (id_or_empty i.passport_id) before after)

  written :
      (i : Identity) (r : Option Reconciled) (checksum : Option Checksum) (s : State B)
      → IsRecorded i checksum s.users
          ((write_record ops clock fails others breaks day_of today sub i r checksum s).0).users
  unfolding write_record
  written i none checksum s = inl refl
  written i (some r) checksum s = elim (Bool-cases (checksum_allows_writes checksum)) [
    | inr held ↦ rw (write_record, held) (inl refl)
    | inl allows ↦ elim (Bool-cases (renew_held ops clock none s.world).1) [
      | inr lost ↦ rw (write_record, allows) (rw lost (inl refl))
      | inl owned ↦ elim (Bool-cases (breaks Stage.record_write)) [
        | inl broken ↦ rw (write_record, allows) (rw owned (rw broken (inl refl)))
        | inr works ↦
            rw (write_record, allows)
              (rw owned (
                rw works
                  (inr (refl, (apply_reconciliation_updates-AllFilled i r.updates s.users).0))))
      ]
    ]
  ]

  -- Others have led the table to one state, the run writes there, and others lead it to the last.
  abbrev pub IsWrittenOnce : Identity → Option Checksum → List User → List User → Type ℓ
  IsWrittenOnce i checksum before after =
      (seen : List User) × (own : List User) × Moves others before seen
      × IsRecorded i checksum seen own
      × Moves others own after

  once-still :
      (i : Identity) (checksum : Option Checksum) (before after : List User)
      → Moves others before after
      → IsWrittenOnce i checksum before after
  once-still i checksum before after moves = (before, before, still, inl refl, moves)

  reconciles-users :
      (a : Assessment) (i : Identity) (r : Option Reconciled) (checked : Option Checked)
      (s : State B)
      → IsWrittenOnce i
          (checksum_of ops clock fails others breaks day_of today sub checked)
          s.users
          ((reconciles ops clock fails others breaks day_of today sub a i r checked s).0).users
  unfolding reconciles
  reconciles-users a i r checked s = elim (Bool-cases (breaks Stage.reconciliation)) [
    | inl broken ↦
        rw (reconciles, broken) (once-still i _ s.users _ (fail-users Stage.reconciliation none s))
    | inr works ↦
        let checksum = checksum_of ops clock fails others breaks day_of today sub checked in
        let there = between ops clock fails others breaks day_of today sub Stage.reconciliation s in
        let out = write_record ops clock fails others breaks day_of today sub i r checksum there in
        rw (reconciles, works)
          (
            there.users,
            (out.0).users,
            moved Stage.reconciliation s,
            written i r checksum there,
            writes-users a i r checked out,
          )
  ]

  earlier-once :
      (i : Identity) (checksum : Option Checksum) (first before after : List User)
      → Moves others first before
      → IsWrittenOnce i checksum before after
      → IsWrittenOnce i checksum first after
  earlier-once i checksum first before after moves (seen, own, m, w, l) =
      (seen, own, joined moves m, w, l)

  decide-users :
      (a : Assessment) (s : State B)
      → IsWrittenOnce
          (identity_of ops clock fails others breaks day_of today sub a s)
          (checksum_of ops clock fails others breaks day_of today sub
            (checksum_state ops clock fails others breaks day_of today sub a s))
          s.users
          ((decide ops clock fails others breaks day_of today sub a s).0).users
  unfolding decide checks
  decide-users a s =
      let first = asked ops clock fails others breaks day_of today sub s in
      let second = checked_state ops clock fails others breaks day_of today sub s in
      let i = identity_of ops clock fails others breaks day_of today sub a s in
      let r = reconciled_of ops clock fails others breaks day_of today sub a s in
      let checked = checksum_state ops clock fails others breaks day_of today sub a s in
      elim (Bool-cases (breaks Stage.identity)) [
        | inl broken ↦
            rw (decide, broken) (once-still i _ s.users _ (fail-users Stage.identity none s))
        | inr a_works ↦ elim (Bool-cases (breaks Stage.duplicate_check)) [
          | inl broken ↦
              rw (decide, a_works)
                (rw broken (
                  once-still i _ s.users _ (
                    joined (moved Stage.identity s) (fail-users Stage.duplicate_check none first))))
          | inr b_works ↦
              rw (decide, a_works)
                (rw b_works (
                  earlier-once i _ s.users second.users _
                    (joined (moved Stage.identity s) (moved Stage.duplicate_check first))
                    (reconciles-users a i r checked second)))
        ]
      ]

-- However a run of the pipeline ends, what is not the doing of others in the users table is at most
-- one write: others have led the table to the state that the write finds, and lead it on from there;
-- and the write happens only if the text was read and no document has this file yet or no client was
-- identified, and only fills empty columns of the one client that was identified: every value on
-- record, every key and every first name stays.
pub process_document-AllFilled {ℓ κ} :
    {B : Type ℓ} {Content : Type κ} (ops : Bucket B Content) (clock : ℕ → ℕ)
    (fails : Document → Bool) (others : Stage → State B → State B) (breaks : Stage → Bool)
    (day_of : Text → Option Text) (today : Text) (extracted : Option Read) (sub : Submission)
    (s : State B)
    → (seen : List User) × (own : List User) × Moves others s.users seen
      × ((own ≡ seen)
          ⊎ ((read : Read) × (extracted ≡ some read)
              × (checksum_allows_writes (
                    checksum_answer ops clock fails others breaks day_of today extracted sub s read)
                  ≡ true)
              × AllFilled
                  (id_or_empty
                    (identity_of ops clock fails others breaks day_of today sub
                      (assess today sub.filename_classification read)
                      s).passport_id)
                  seen
                  own))
      × Moves others own
          ((process_document ops clock fails others breaks day_of today sub extracted s).0).users
unfolding process_document
process_document-AllFilled ops clock fails others breaks day_of today none sub s = (
  s.users,
  s.users,
  still,
  inl refl,
  fail-users ops clock fails others breaks day_of today sub Stage.text_extraction none s,
)
process_document-AllFilled ops clock fails others breaks day_of today (some read) sub s =
    let (seen, own, before, wrote, after) =
      decide-users ops clock fails others breaks day_of today sub
        (assess today sub.filename_classification read) s in
    (
      seen,
      own,
      before,
      elim wrote [
        | inl same ↦ inl same
        | inr (allowed, filled) ↦ inr (read, refl, allowed, filled)
      ],
      after,
    )
