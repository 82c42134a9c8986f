-- ===== src/Pipeline/Process/Completed.antt =====
-- What a completed run of processDocument (services/documentProcessingService.js) has decided.
use emlynk_wabot.Prelude.{
  ℕ, ◌≡◌, ◌≢◌, inl, inr, Bool, true, false, Option, none, some, List, Text, refl, sym, ap, ◌∙◌,
  subst, Bool-cases,
}
use emlynk_wabot.Identity.{Identity}
use emlynk_wabot.Reconciliation.{Reconciled}
use emlynk_wabot.Review.{Findings, derive_review_reason}
use emlynk_wabot.Review.Reasons.{ReviewReason}
use emlynk_wabot.Storage.Documents.{Document}
use emlynk_wabot.Storage.Checksum.{Checked}
use emlynk_wabot.Storage.World.{Bucket, World}
use emlynk_wabot.Storage.Place.{Placed, PlaceResult, place_document}
use emlynk_wabot.Pipeline.Plan.{Assessment, reconcile, findings, plan}
use emlynk_wabot.Pipeline.Runs.{Stage, Submission, State, Processed, Written, update_row}
use emlynk_wabot.Pipeline.Process.{
  between, with_world, write_failure, fail, passport_lookup_of, sender_of, checked_of, checksum_of,
  write_record, context_of, write_result, record_result, verified_exists, after_placement, store,
  after_writes, reconciles, checks, decide,
}
use emlynk_wabot.Pipeline.Process.Kept.{IsKept, update_row-IsKept}

module _ {ℓ κ} {B : Type ℓ} {Content : Type κ} (ops : Bucket B Content) (clock : ℕ → ℕ)
    (fails : Document → Bool) (others : Stage → State B → State B) (breaks : Stage → Bool)
    (day_of : Text → Option Text) (today : Text) (sub : Submission) where
  -- A completed write was done, and reports its result.
  kept_result :
      (s : State B) (wo : World B × Bool) (result : Processed) (p : Placed)
      (reason : Option ReviewReason)
      → (with_world ops clock fails others breaks day_of today sub s wo result).1
        ≡ Processed.completed p reason
      → (result ≡ Processed.completed p reason)
        × (wo.1 ≡ true)
        × ((with_world ops clock fails others breaks day_of today sub s wo result).0.world ≡ wo.0)
  kept_result s (w, true) result p reason h = (h, refl, refl)
  kept_result s (w, false) result p reason h = absurd (cc h)

  failure_incomplete :
      (stage : Stage) (pending : Option Text) (s : State B) (p : Placed)
      (reason : Option ReviewReason)
      → (write_failure ops clock fails others breaks day_of today sub stage pending s).1
        ≢ Processed.completed p reason
  failure_incomplete stage pending s p reason h = elim (Bool-cases (breaks Stage.catch_update)) [
    | inl broken ↦
        let e : Processed.failed_at stage false ≡ Processed.completed p reason = rw broken at h in
        cc e
    | inr writes ↦
        let (e, _, _) =
          kept_result s _ (Processed.failed_at stage true) p reason (rw writes at h) in
        cc e
  ]

  pub fail_incomplete :
      (stage : Stage) (pending : Option Text) (s : State B) (p : Placed)
      (reason : Option ReviewReason)
      → (fail ops clock fails others breaks day_of today sub stage pending s).1
        ≢ Processed.completed p reason
  unfolding fail
  fail_incomplete stage pending s p reason h = failure_incomplete stage pending _ p reason h

  abbrev pub reason_of : Findings → Placed → Option ReviewReason
  reason_of f q = derive_review_reason (some q.processing_status) f

  -- The row after a run has what the run reports.
  abbrev pub IsStored : Placed → Option ReviewReason → State B → Type 0
  IsStored p reason s = IsKept sub.temporary_id p reason s.world.held s.world.rows

  write-completed :
      (q : Placed) (given : Option ReviewReason) (s : State B) (p : Placed)
      (reason : Option ReviewReason)
      → (write_result ops clock fails others breaks day_of today sub q given s).1
        ≡ Processed.completed p reason
      → (q ≡ p)
        × (given ≡ reason)
        × IsStored p reason
            (write_result ops clock fails others breaks day_of today sub q given s).0
  write-completed q given s p reason h =
      let update =
        update_row sub.temporary_id q.processing_status given q.pending_storage_path s.world in
      let (e, one, same) = kept_result s update (Processed.completed q given) p reason h in
      let same_p : q ≡ p = cc e in
      let same_reason : given ≡ reason = cc e in
      let kept = update_row-IsKept sub.temporary_id q given s.world one in
      (
        same_p,
        same_reason,
        subst (λ w. IsKept sub.temporary_id p reason w.held w.rows) (sym same)
            (subst (λ x. IsKept sub.temporary_id x reason (update.0).held (update.0).rows) same_p
              (subst (λ x. IsKept sub.temporary_id q x (update.0).held (update.0).rows) same_reason
                kept)),
      )

  record-completed :
      (f : Findings) (q : Placed) (s : State B) (p : Placed) (reason : Option ReviewReason)
      → (record_result ops clock fails others breaks day_of today sub f q s).1
        ≡ Processed.completed p reason
      → (q ≡ p)
        × (reason_of f p ≡ reason)
        × IsStored p reason (record_result ops clock fails others breaks day_of today sub f q s).0
  unfolding record_result
  record-completed f q s p reason h = elim (Bool-cases (breaks Stage.record_update)) [
    | inl broken ↦ absurd (
        fail_incomplete Stage.record_update q.pending_storage_path s p reason
          (rw (record_result, broken) at h))
    | inr writes ↦
        let (same, why, kept) =
          write-completed q (reason_of f q) _ p reason (rw (record_result, writes) at h) in
        (same, ap (reason_of f) (sym same) ∙ why, rw (record_result, writes) kept)
  ]

  -- A completed run has placed its file as reported.
  abbrev pub IsPlaced :
      Assessment
      → Identity
      → Option Reconciled
      → Option Checked
      → List Document
      → World B
      → Placed
      → Option ReviewReason
      → Type 0
  IsPlaced a i r checked documents w p reason =
      let checksum = checksum_of ops clock fails others breaks day_of today sub checked in
      let verified =
        verified_exists ops clock fails others breaks day_of today sub a i r checksum documents in
      ((place_document ops clock fails (plan a i r checksum verified)
          (context_of ops clock fails others breaks day_of today sub a i r checked) w).1
        ≡ PlaceResult.done p)
      × (reason_of (findings a i r checksum verified) p ≡ reason)

  placement-cases :
      (f : Findings) (s : State B) (r : World B × PlaceResult) (p : Placed)
      (reason : Option ReviewReason)
      → (after_placement ops clock fails others breaks day_of today sub f s r).1
        ≡ Processed.completed p reason
      → (r.1 ≡ PlaceResult.done p)
        × (reason_of f p ≡ reason)
        × IsStored p reason (after_placement ops clock fails others breaks day_of today sub f s r).0
  placement-cases f s (w, PlaceResult.done q) p reason h =
      let (same, why, kept) = record-completed f q (record s { world = w }) p reason h in
      (ap PlaceResult.done same, why, kept)
  placement-cases f s (w, PlaceResult.claim_lost) p reason h = absurd (cc h)
  placement-cases f s (w, PlaceResult.failed) p reason h =
      absurd (fail_incomplete Stage.storage none (record s { world = w }) p reason h)

  -- The documents are read in one state, and the file is placed in a later one.
  abbrev IsFinished :
      Assessment
      → Identity
      → Option Reconciled
      → Option Checked
      → State B
      → Placed
      → Option ReviewReason
      → State B
      → Type ℓ
  IsFinished a i r checked s p reason end =
      (w : World B) × IsPlaced a i r checked s.world.documents w p reason × IsStored p reason end

  store-cases :
      (a : Assessment) (i : Identity) (r : Option Reconciled) (checked : Option Checked)
      (s : State B) (p : Placed) (reason : Option ReviewReason)
      → (store ops clock fails others breaks day_of today sub a i r checked s).1
        ≡ Processed.completed p reason
      → IsFinished a i r checked s p reason
          (store ops clock fails others breaks day_of today sub a i r checked s).0
  unfolding store
  store-cases a i r checked s p reason h =
      let later = between ops clock fails others breaks day_of today sub Stage.placement s in
      let (placed, why, kept) = placement-cases _ later _ p reason h in
      (later.world, (placed, why), kept)

  writes-cases :
      (a : Assessment) (i : Identity) (r : Option Reconciled) (checked : Option Checked)
      (sb : State B × Written) (p : Placed) (reason : Option ReviewReason)
      → (after_writes ops clock fails others breaks day_of today sub a i r checked sb).1
        ≡ Processed.completed p reason
      → IsFinished a i r checked
          (between ops clock fails others breaks day_of today sub Stage.storage sb.0)
          p
          reason
          (after_writes ops clock fails others breaks day_of today sub a i r checked sb).0
  writes-cases a i r checked (s, Written.lost) p reason h = absurd (cc h)
  writes-cases a i r checked (s, Written.broken) p reason h =
      absurd (fail_incomplete Stage.reconciliation none s p reason h)
  writes-cases a i r checked (s, Written.written) p reason h =
      elim (Bool-cases (breaks Stage.storage)) [
        | inl broken ↦ absurd (fail_incomplete Stage.storage none s p reason (rw broken at h))
        | inr works ↦ rw works (store-cases a i r checked _ p reason (rw works at h))
      ]

  -- The states in which the stages IDENTITY, DUPLICATE_CHECK and STORAGE read the tables.
  abbrev pub asked : State B → State B
  asked s = between ops clock fails others breaks day_of today sub Stage.identity s

  abbrev pub checked_state : State B → State B
  checked_state s =
      between ops clock fails others breaks day_of today sub Stage.duplicate_check (asked s)

  abbrev pub stored_state : Identity → Option Reconciled → Option Checked → State B → State B
  stored_state i r checked s =
      between ops clock fails others breaks day_of today sub Stage.storage (
        (write_record ops clock fails others breaks day_of today sub i r
          (checksum_of ops clock fails others breaks day_of today sub checked)
          (between ops clock fails others breaks day_of today sub Stage.reconciliation
            (checked_state s))).0)

  reconciles-cases :
      (a : Assessment) (i : Identity) (r : Option Reconciled) (checked : Option Checked)
      (s : State B) (p : Placed) (reason : Option ReviewReason)
      → (reconciles ops clock fails others breaks day_of today sub a i r checked
          (checked_state s)).1
        ≡ Processed.completed p reason
      → IsFinished a i r checked
          (stored_state i r checked s)
          p
          reason
          (reconciles ops clock fails others breaks day_of today sub a i r checked
            (checked_state s)).0
  unfolding reconciles
  reconciles-cases a i r checked s p reason h = elim (Bool-cases (breaks Stage.reconciliation)) [
    | inl broken ↦
        absurd (fail_incomplete Stage.reconciliation none _ p reason (rw (reconciles, broken) at h))
    | inr works ↦
        rw (reconciles, works) (writes-cases a i r checked _ p reason (rw (reconciles, works) at h))
  ]

  abbrev pub identity_of : Assessment → State B → Identity
  identity_of a s = sender_of ops clock fails others breaks day_of today sub a (asked s).users

  abbrev pub reconciled_of : Assessment → State B → Option Reconciled
  reconciled_of a s =
      reconcile day_of a
        (passport_lookup_of ops clock fails others breaks day_of today sub a (asked s).users)
        (identity_of a s)

  abbrev pub checksum_state : Assessment → State B → Option Checked
  checksum_state a s =
      checked_of ops clock fails others breaks day_of today sub (identity_of a s)
        (checked_state s).world

  pub decide-finished :
      (a : Assessment) (s : State B) (p : Placed) (reason : Option ReviewReason)
      → (decide ops clock fails others breaks day_of today sub a s).1 ≡ Processed.completed p reason
      → (w : World B) × IsPlaced a
          (identity_of a s)
          (reconciled_of a s)
          (checksum_state a s)
          (stored_state
            (identity_of a s)
            (reconciled_of a s)
            (checksum_state a s)
            s).world.documents
          w
          p
          reason
        × IsStored p reason (decide ops clock fails others breaks day_of today sub a s).0
  unfolding decide checks
  decide-finished a s p reason h = elim (Bool-cases (breaks Stage.identity)) [
    | inl broken ↦
        absurd (fail_incomplete Stage.identity none s p reason (rw (decide, broken) at h))
    | inr a_works ↦ elim (Bool-cases (breaks Stage.duplicate_check)) [
      | inl broken ↦ absurd (
          fail_incomplete Stage.duplicate_check none (asked s) p reason
            (rw broken at (rw (decide, a_works) at h)))
      | inr b_works ↦
          rw (decide, a_works)
            (rw b_works (
              reconciles-cases a (identity_of a s) (reconciled_of a s) (checksum_state a s) s p
                reason (rw b_works at (rw (decide, a_works) at h))))
    ]
  ]
