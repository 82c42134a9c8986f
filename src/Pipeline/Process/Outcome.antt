-- ===== src/Pipeline/Process/Outcome.antt =====
-- From a received file to its place: what a completed run of processDocument
-- (services/documentProcessingService.js) has shown.
use emlynk_wabot.Prelude.{
  ℕ, ◌≡◌, ◌≢◌, ◌⊎◌, inl, inr, Bool, Option, none, some, [], Text, refl, sym, ◌∙◌, subst, Bool-cases,
  Option-cases,
}
use emlynk_wabot.Classification.{DocumentType}
use emlynk_wabot.Users.{User}
use emlynk_wabot.Users.Lookup.{Lookup, find_users_by_whatsapp_number}
use emlynk_wabot.Identity.{found_user}
use emlynk_wabot.Placement.{
  Place, ProcessingStatus, Decision, ChecksumOutcome, Request, decide_placement,
}
use emlynk_wabot.Placement.Laws.{already_stored_iff}
use emlynk_wabot.Review.{derive_review_reason}
use emlynk_wabot.Review.Reasons.{ReviewReason}
use emlynk_wabot.Storage.Documents.{Document}
use emlynk_wabot.Storage.World.{Bucket, World}
use emlynk_wabot.Storage.Place.{Context, Placed, PlaceResult, known_duplicate, place_document}
use emlynk_wabot.Storage.Place.Laws.{IsCarriedOut, place_document-IsCarriedOut}
use emlynk_wabot.Pipeline.Plan.{Read, Checksum, assess, plan, outcome_of}
use emlynk_wabot.Pipeline.Trust.{IsFiled, plan-IsFiled, outcome}
use emlynk_wabot.Pipeline.Reasons.{plan-reason, evidence_of}
use emlynk_wabot.Pipeline.Runs.{Stage, Submission, State, Processed}
use emlynk_wabot.Pipeline.Process.{
  passport_lookup_of, checksum_of, verified_exists, process_document,
}
use emlynk_wabot.Pipeline.Process.Completed.{
  IsStored, asked, checksum_state, identity_of, reconciled_of, stored_state, decide-finished,
  fail_incomplete,
}
use emlynk_wabot.Pipeline.Process.Kept.{IsKept}

-- A placement that was carried out is a known duplicate or the decided one.
carried {ℓ κ} :
    {B : Type ℓ} {Content : Type κ} (ops : Bucket B Content) (clock : ℕ → ℕ)
    (fails : Document → Bool) (r : Request) (d : Decision) (context : Context) (w : World B)
    (p : Placed)
    → decide_placement r ≡ d
    → (place_document ops clock fails d context w).1 ≡ PlaceResult.done p
    → (p ≡ known_duplicate)
      ⊎ ((p.placement ≡ d.placement) × (p.processing_status ≡ d.processing_status))
carried ops clock fails r d context w p e h = subst (IsCarriedOut ops clock fails d context) h (
    subst
      (λ q. IsCarriedOut ops clock fails q context (place_document ops clock fails q context w).1) e
      (place_document-IsCarriedOut ops clock fails r context w))

module _ {ℓ κ} {B : Type ℓ} {Content : Type κ} (ops : Bucket B Content) (clock : ℕ → ℕ)
    (fails : Document → Bool) (others : Stage → State B → State B) (breaks : Stage → Bool)
    (day_of : Text → Option Text) (today : Text) (extracted : Option Read) (sub : Submission)
    (s : State B) where
  -- What the run asks the tables, each in the state of its stage.
  abbrev pub passport_answer : Read → Option Lookup
  passport_answer read =
      passport_lookup_of ops clock fails others breaks day_of today sub
        (assess today sub.filename_classification read)
        (asked ops clock fails others breaks day_of today sub s).users

  abbrev pub whatsapp_answer : Lookup
  whatsapp_answer =
      find_users_by_whatsapp_number (asked ops clock fails others breaks day_of today sub s).users
        (some sub.whatsapp_number)

  abbrev pub checksum_answer : Read → Option Checksum
  checksum_answer read = checksum_of ops clock fails others breaks day_of today sub (
      checksum_state ops clock fails others breaks day_of today sub
        (assess today sub.filename_classification read) s)

  -- hasVerifiedDocument, as far as it is asked
  abbrev pub verified_answer : Read → Bool
  verified_answer read =
      let a = assess today sub.filename_classification read in
      let i = identity_of ops clock fails others breaks day_of today sub a s in
      let r = reconciled_of ops clock fails others breaks day_of today sub a s in
      let checked = checksum_state ops clock fails others breaks day_of today sub a s in
      verified_exists ops clock fails others breaks day_of today sub a i r (checksum_answer read)
        (stored_state ops clock fails others breaks day_of today sub i r checked s).world.documents

  abbrev run : Processed
  run = (process_document ops clock fails others breaks day_of today sub extracted s).1

  -- The decision that a completed run has carried out.
  record IsDecided (p : Placed) (reason : Option ReviewReason) : Type 0 where
    read : Read
    extraction : extracted ≡ some read
    carried_out :
        (p ≡ known_duplicate)
        ⊎ ((p.placement
              ≡ (outcome day_of today sub.filename_classification read
                  (passport_answer read)
                  whatsapp_answer
                  (checksum_answer read)
                  (verified_answer read)).placement)
            × (p.processing_status
                ≡ (outcome day_of today sub.filename_classification read
                    (passport_answer read)
                    whatsapp_answer
                    (checksum_answer read)
                    (verified_answer read)).processing_status))
    kept :
        IsStored ops clock fails others breaks day_of today sub p reason
          (process_document ops clock fails others breaks day_of today sub extracted s).0
    explained :
        derive_review_reason (some p.processing_status) (
          evidence_of day_of today sub.filename_classification read
            (passport_answer read)
            whatsapp_answer
            (checksum_answer read)
            (verified_answer read))
        ≡ reason

  run-IsDecided :
      (p : Placed) (reason : Option ReviewReason)
      → run ≡ Processed.completed p reason
      → IsDecided p reason
  unfolding process_document plan
  run-IsDecided p reason h = elim (Option-cases extracted) [
    | inl missing ↦ absurd (
        fail_incomplete ops clock fails others breaks day_of today sub Stage.text_extraction none s
          p reason (rw (process_document, missing) at h))
    | inr (read, found) ↦
        let a = assess today sub.filename_classification read in
        let (w, (placed, explained), kept) =
          decide-finished ops clock fails others breaks day_of today sub a s p reason
            (rw (process_document, found) at h) in
        record {
          read = read;
          extraction = found;
          carried_out = carried ops clock fails _ _ _ w p refl placed;
          kept = rw (process_document, found) kept;
          explained = explained;
        }
  ]

-- A decision for a client folder: the document is there already, or the file may enter.
filed-cases :
    (day_of : Text → Option Text) (today : Text) (guess : Option DocumentType) (read : Read)
    (pl : Option Lookup) (wl : Lookup) (checksum : Option Checksum) (verified : Bool)
    → (outcome day_of today guess read pl wl checksum verified).placement ≡ Place.client
    → (outcome_of checksum ≡ some ChecksumOutcome.already_stored)
      ⊎ IsFiled day_of today guess read pl wl checksum verified
unfolding plan
filed-cases day_of today guess read pl wl checksum verified h =
    elim (Bool-cases (outcome day_of today guess read pl wl checksum verified).already_stored) [
      | inl stored ↦ inl ((already_stored_iff _).0 stored)
      | inr new ↦ inr (plan-IsFiled day_of today guess read pl wl checksum verified h new)
    ]

reason-cases :
    (day_of : Text → Option Text) (today : Text) (guess : Option DocumentType) (read : Read)
    (pl : Option Lookup) (wl : Lookup) (checksum : Option Checksum) (verified : Bool)
    (status : ProcessingStatus)
    → ((u : User) → found_user (some wl) ≡ some u → u.passport_id ≢ [])
    → (outcome day_of today guess read pl wl checksum verified).placement ≡ Place.pending
    → status ≡ (outcome day_of today guess read pl wl checksum verified).processing_status
    → derive_review_reason
        (some status)
        (evidence_of day_of today guess read pl wl checksum verified)
      ≢ none
reason-cases day_of today guess read pl wl checksum verified status named held same =
    subst
      (λ q.
        derive_review_reason (some q) (evidence_of day_of today guess read pl wl checksum verified)
        ≢ none)
      (sym same) (plan-reason day_of today guess read pl wl checksum verified named held)

-- When a run completes with its file placed under a client, either the client already had this
-- submission's document, or the file has passed every test of an automatic filing against the tables
-- as its stages found them, whatever others have written between the stages: a proven sender, a type from the text, no conflict with the record, an acceptable
-- band, a dated slip, and a file that is new.
pub process_document-IsFiled {ℓ κ} :
    {B : Type ℓ} {Content : Type κ} (ops : Bucket B Content) (clock : ℕ → ℕ)
    (fails : Document → Bool) (others : Stage → State B → State B) (breaks : Stage → Bool)
    (day_of : Text → Option Text) (today : Text) (extracted : Option Read) (sub : Submission)
    (s : State B) (p : Placed) (reason : Option ReviewReason)
    → (process_document ops clock fails others breaks day_of today sub extracted s).1
      ≡ Processed.completed p reason
    → p.placement ≡ Place.client
    → (read : Read) × (extracted ≡ some read)
      × ((outcome_of
              (checksum_answer ops clock fails others breaks day_of today extracted sub s read)
            ≡ some ChecksumOutcome.already_stored)
          ⊎ IsFiled day_of today sub.filename_classification read
              (passport_answer ops clock fails others breaks day_of today extracted sub s read)
              (whatsapp_answer ops clock fails others breaks day_of today extracted sub s)
              (checksum_answer ops clock fails others breaks day_of today extracted sub s read)
              (verified_answer ops clock fails others breaks day_of today extracted sub s read))
process_document-IsFiled ops clock fails others breaks day_of today extracted sub s p reason h
      filed =
    let d = run-IsDecided ops clock fails others breaks day_of today extracted sub s p reason h in
    (
      d.read,
      d.extraction,
      elim d.carried_out [
        | inl twice ↦
            let e : known_duplicate.placement ≡ Place.client = rw twice at filed in absurd (cc e)
        | inr (place, status) ↦
            elim (filed-cases day_of today sub.filename_classification d.read
              (passport_answer ops clock fails others breaks day_of today extracted sub s d.read)
              (whatsapp_answer ops clock fails others breaks day_of today extracted sub s)
              (checksum_answer ops clock fails others breaks day_of today extracted sub s d.read)
              (verified_answer ops clock fails others breaks day_of today extracted sub s d.read)
              (sym place ∙ filed)) [ inl stored ↦ inl stored | inr right ↦ inr right ]
      ],
    )

-- When a run completes with its file held in pending/, it has a review reason, and its row has it,
-- with the status and the pending path of the placement: without a claim every row with the key of the
-- submission, with a claim a row of the claim's submission; if no client of the users table that the
-- run has asked has an empty passport number.
pub process_document-reason {ℓ κ} :
    {B : Type ℓ} {Content : Type κ} (ops : Bucket B Content) (clock : ℕ → ℕ)
    (fails : Document → Bool) (others : Stage → State B → State B) (breaks : Stage → Bool)
    (day_of : Text → Option Text) (today : Text) (extracted : Option Read) (sub : Submission)
    (s : State B) (p : Placed) (reason : Option ReviewReason)
    → ((u : User)
        → found_user
            (some (whatsapp_answer ops clock fails others breaks day_of today extracted sub s))
          ≡ some u
        → u.passport_id ≢ [])
    → (process_document ops clock fails others breaks day_of today sub extracted s).1
      ≡ Processed.completed p reason
    → p.placement ≡ Place.pending
    → (reason ≢ none)
      × (let after =
            (process_document ops clock fails others breaks day_of today sub extracted s).0.world in
          IsKept sub.temporary_id p reason after.held after.rows)
process_document-reason ops clock fails others breaks day_of today extracted sub s p reason named h
      held =
    let d = run-IsDecided ops clock fails others breaks day_of today extracted sub s p reason h in
    (
      elim d.carried_out [
        | inl twice ↦
            let e : known_duplicate.placement ≡ Place.pending = rw twice at held in absurd (cc e)
        | inr (place, status) ↦ λ missing.
            reason-cases day_of today sub.filename_classification d.read
              (passport_answer ops clock fails others breaks day_of today extracted sub s d.read)
              (whatsapp_answer ops clock fails others breaks day_of today extracted sub s)
              (checksum_answer ops clock fails others breaks day_of today extracted sub s d.read)
              (verified_answer ops clock fails others breaks day_of today extracted sub s d.read)
              p.processing_status named (sym place ∙ held) status (d.explained ∙ missing)
      ],
      d.kept,
    )
