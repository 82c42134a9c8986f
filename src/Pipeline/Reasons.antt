-- ===== src/Pipeline/Reasons.antt =====
-- services/documentProcessingService.js and services/reviewReason.js: files in pending/.
use emlynk_wabot.Prelude.{
  ◌≡◌, ◌≢◌, ◌⊎◌, inl, inr, Bool, true, false, ◌||◌, Option, none, some, [], ◌∷◌, Text, arith, refl,
  sym, subst, ◌∙◌, min, Bool-cases, is_truthy,
}
use mathlib.Core.Bool.{false≢true}
use emlynk_wabot.Classification.{DocumentType, ContentClassification, ResolvedType, is_passport}
use emlynk_wabot.Confidence.{
  Confidence, Flag, TextExtraction, assess_document_confidence, document_flags, has_flag, band_info,
  band_of, Band, get_extraction_confidence, get_classification_confidence,
}
use emlynk_wabot.Users.{User}
use emlynk_wabot.Users.Lookup.{Lookup}
use emlynk_wabot.Identity.{Identity, found_user}
use emlynk_wabot.Identity.Laws.{trusted_status, decide_identity-IsTrusted}
use emlynk_wabot.Acceptance.{Acceptance, is_accepted, PassportField, apply_passport_acceptance}
use emlynk_wabot.Placement.{Place, ProcessingStatus, decide_placement, is_client_band}
use emlynk_wabot.Placement.Laws.{IsOpen, open-pending, pending-duplicate}
use emlynk_wabot.Review.{
  Findings, derive_review_reason, determine_processing_status, is_low_band, is_undefined,
  is_unclear,
}
use emlynk_wabot.Review.Laws.{IsClean, no_reason-IsClean, reason-duplicate, clean-status}
use emlynk_wabot.Pipeline.Plan.{
  Read, Assessment, Checksum, assess, identify, is_client_identified, is_linkable,
  stored_confidence, plan, findings, request, reconcile, document_type_of, field_confidence,
}
use emlynk_wabot.Pipeline.Trust.{outcome, cleared-parts}

-- A confidence that asks for review has a low band or the flag of a wrong document.
abbrev IsExplained : Confidence → Type 0
IsExplained c =
    c.review_required ≡ true
    → (is_low_band (some c) ≡ true) ⊎ (has_flag Flag.wrong_document_suspected c.flags ≡ true)

band-explained :
    (b : Band) (wrong : Bool)
    → ((band_info b).review_required || wrong) ≡ true
    → ((is_undefined (band_info b).name || is_unclear (band_info b).name) ≡ true) ⊎ (wrong ≡ true)
unfolding band_info
band-explained b wrong h = ground arith

assessed-IsExplained :
    (t : Option TextExtraction) (c : Option ContentClassification) (r : Option ResolvedType)
    → IsExplained (assess_document_confidence t c r)
unfolding assess_document_confidence
assessed-IsExplained t c r h =
    band-explained (band_of (min (get_extraction_confidence t) (get_classification_confidence r c)))
      (has_flag Flag.wrong_document_suspected (document_flags t c r)) h

stored-IsExplained :
    (c : Confidence) (a : Option Acceptance)
    → IsExplained c
    → IsExplained (apply_passport_acceptance c a)
stored-IsExplained c a h e = elim (Bool-cases (is_accepted a)) [
  | inl done ↦ inl (unfold apply_passport_acceptance in rw done refl)
  | inr undone ↦
      unfold apply_passport_acceptance in
      rw undone (h (rw (undone, apply_passport_acceptance) at e))
]

linkable : (b : Bool) → is_linkable (trusted_status b) ≡ true
linkable true = refl
linkable false = refl

truthy : (s : Text) → s ≢ [] → is_truthy (some s) ≡ true
truthy [] n = absurd (n refl)
truthy (c ∷ s) n = refl

-- A cleared document has one identified client, if no client of the table has an empty number.
cleared-identified :
    (a : Assessment) (pl : Option Lookup) (wl : Lookup)
    → ((u : User) → found_user (some wl) ≡ some u → u.passport_id ≢ [])
    → (identify a pl wl).review_required ≡ false
    → is_client_identified (identify a pl wl) ≡ true
unfolding identify is_client_identified
cleared-identified a pl wl named calm =
    let t =
      decide_identity-IsTrusted pl (some wl) (is_passport (document_type_of a))
        (field_confidence a PassportField.passport_id) calm in
    rw (t.status, t.definite, t.linked)
      (rw (
        linkable (is_passport (document_type_of a)),
        truthy t.client.passport_id (named t.client t.proven.by_whatsapp),
      ))

duplicate-cases :
    (s : ProcessingStatus) → (s ≡ ProcessingStatus.duplicate) ⊎ (s ≢ ProcessingStatus.duplicate)
duplicate-cases ProcessingStatus.duplicate = inl refl
duplicate-cases s = inr (cc)

-- The status of a processed document is a band or a state that a person resolves, not "duplicate".
status-ne-duplicate :
    (c : Confidence) (f : Findings) → determine_processing_status c f ≢ ProcessingStatus.duplicate
unfolding determine_processing_status
status-ne-duplicate c f h = ground arith

not_low-IsClient : (c : Confidence) → is_low_band (some c) ≡ false → is_client_band c.band ≡ true
not_low-IsClient c h = ground arith

module _ (day_of : Text → Option Text) (today : Text) (guess : Option DocumentType) (read : Read)
    (pl : Option Lookup) (wl : Lookup) (checksum : Option Checksum) (verified : Bool)
    (named : (u : User) → found_user (some wl) ≡ some u → u.passport_id ≢ []) where
  abbrev a : Assessment
  a = assess today guess read

  abbrev i : Identity
  i = identify a pl wl

  abbrev f : Findings
  f = findings a i (reconcile day_of a pl i) checksum verified

  abbrev c : Confidence
  c = stored_confidence a i (reconcile day_of a pl i)

  explained : IsExplained c
  unfolding stored_confidence assess
  explained = stored-IsExplained _ _ (assessed-IsExplained _ _ _)

  clean-IsOpen : IsClean f → IsOpen (request a i (reconcile day_of a pl i) checksum verified)
  clean-IsOpen clean =
      let (calm, _, _, _, _) = cleared-parts f clean.cleared in
      record {
        own_file = clean.own_file;
        usable = (clean-status c f refl explained clean).1;
        cleared = clean.cleared;
        identified = cleared-identified a pl wl named calm;
        typed = ground (arith, clean.known_type);
        readable = not_low-IsClient c clean.confident;
        first_verified = clean.first_verified;
      }

  explained_pending :
      (plan a i (reconcile day_of a pl i) checksum verified).placement ≡ Place.pending
      → derive_review_reason
          (some (plan a i (reconcile day_of a pl i) checksum verified).processing_status)
          f
        ≢ none
  unfolding plan
  explained_pending h quiet =
      let r = request a i (reconcile day_of a pl i) checksum verified in
      elim (duplicate-cases (decide_placement r).processing_status) [
        | inl same ↦ false≢true (
            sym
              (reason-duplicate f (subst (λ s. derive_review_reason (some s) f ≡ none) same quiet))
            ∙ pending-duplicate r h (status-ne-duplicate c f) same)
        | inr other ↦ other (open-pending r (clean-IsOpen (no_reason-IsClean _ f quiet other)) h).0
      ]

-- What deriveReviewReason sees of the state.
abbrev pub evidence_of :
    (Text → Option Text)
    → Text
    → Option DocumentType
    → Read
    → Option Lookup
    → Lookup
    → Option Checksum
    → Bool
    → Findings
evidence_of day_of today guess read pl wl checksum verified =
    let a = assess today guess read in
    let i = identify a pl wl in findings a i (reconcile day_of a pl i) checksum verified

-- Every document that processing holds in pending/ gets a review reason, if no client of the users
-- table has an empty passport number.
pub plan-reason :
    (day_of : Text → Option Text) (today : Text) (guess : Option DocumentType) (read : Read)
    (passport_lookup : Option Lookup) (whatsapp_lookup : Lookup) (checksum : Option Checksum)
    (verified : Bool)
    → ((u : User) → found_user (some whatsapp_lookup) ≡ some u → u.passport_id ≢ [])
    → (outcome day_of today guess read passport_lookup whatsapp_lookup checksum verified).placement
      ≡ Place.pending
    → derive_review_reason
        (some
          (outcome day_of today guess read passport_lookup whatsapp_lookup checksum
            verified).processing_status)
        (evidence_of day_of today guess read passport_lookup whatsapp_lookup checksum verified)
      ≢ none
plan-reason day_of today guess read pl wl checksum verified named =
    explained_pending day_of today guess read pl wl checksum verified named
