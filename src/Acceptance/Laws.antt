-- ===== src/Acceptance/Laws.antt =====
-- services/passportAcceptanceService.js: acceptance and the confidence after it.
use emlynk_wabot.Prelude.{
  ◌≡◌, ◌↔◌, true, false, not, Option, none, some, List, [], ◌∷◌, keep, arith, All, any-append,
  if◌then◌else◌, ◌||◌, Bool-cases, inl, inr, refl,
}
use emlynk_wabot.Confidence.{Band, Confidence, Flag, same_flag, has_flag}
use emlynk_wabot.Acceptance.{
  Acceptance, Evidence, Condition, conditions, holds, is_accepted, is_low_band,
  evaluate_passport_acceptance, is_none, apply_passport_acceptance,
}

module _ (s : Evidence) where
  none-failed :
      (cs : List Condition)
      → is_none (keep (λ c. not (holds s c)) cs) ≡ true
      → All (λ c. holds s c ≡ true) cs
  none-failed [] h = tt
  none-failed (c ∷ cs) h = ground (arith, none-failed cs)

  all-hold :
      (cs : List Condition)
      → ((c : Condition) → holds s c ≡ true)
      → is_none (keep (λ c. not (holds s c)) cs) ≡ true
  all-hold [] h = refl
  all-hold (c ∷ cs) h = ground (arith, h c, all-hold cs h)

  each-holds : All (λ c. holds s c ≡ true) conditions → (c : Condition) → holds s c ≡ true
  each-holds h Condition.passport_document = h.0
  each-holds h Condition.type_from_content = h.1.0
  each-holds h Condition.no_wrong_document_suspicion = h.1.1.0
  each-holds h Condition.two_mrz_lines = h.1.1.1.0
  each-holds h Condition.passport_id_verified = h.1.1.1.1.0
  each-holds h Condition.date_of_birth_verified = h.1.1.1.1.1.0
  each-holds h Condition.expiry_date_verified = h.1.1.1.1.1.1.0
  each-holds h Condition.identity_verified_match = h.1.1.1.1.1.1.1.0
  each-holds h Condition.identity_not_provisional = h.1.1.1.1.1.1.1.1.0
  each-holds h Condition.no_reconciliation_conflicts = h.1.1.1.1.1.1.1.1.1.0
  each-holds h Condition.date_of_birth_matched = h.1.1.1.1.1.1.1.1.1.1.0
  each-holds h Condition.expiry_date_matched = h.1.1.1.1.1.1.1.1.1.1.1.0

  accepted-low :
      is_accepted (evaluate_passport_acceptance s) ≡ true → is_low_band s.confidence ≡ true
  unfolding evaluate_passport_acceptance
  accepted-low h = ground arith

  accepted-none :
      is_accepted (evaluate_passport_acceptance s) ≡ true
      → is_none (keep (λ c. not (holds s c)) conditions) ≡ true
  unfolding evaluate_passport_acceptance
  accepted-none h = elim (Bool-cases (is_low_band s.confidence)) [
    | inl low ↦ rw low at h
    | inr high ↦ cc (let n : false ≡ true = rw high at h in n)
  ]

  low-accepted :
      is_low_band s.confidence ≡ true
      → is_none (keep (λ c. not (holds s c)) conditions) ≡ true
      → is_accepted (evaluate_passport_acceptance s) ≡ true
  unfolding evaluate_passport_acceptance
  low-accepted low h = rw low h

-- A passport is accepted exactly if its band is low and every one of the twelve conditions holds.
pub evaluate_passport_acceptance_iff :
    (s : Evidence)
    → (is_accepted (evaluate_passport_acceptance s) ≡ true)
      ↔ ((is_low_band s.confidence ≡ true) × ((c : Condition) → holds s c ≡ true))
evaluate_passport_acceptance_iff s = (
  λ h. (accepted-low s h, each-holds s (none-failed s conditions (accepted-none s h))),
  λ h. low-accepted s h.0 (all-hold s conditions h.1),
)

-- The flag that acceptance adds is no other flag.
pub has_flag-accepted :
    (f : Flag) (c : Confidence) (a : Option Acceptance)
    → same_flag f Flag.passport_accepted_by_mrz_and_identity ≡ false
    → has_flag f (apply_passport_acceptance c a).flags ≡ has_flag f c.flags
unfolding apply_passport_acceptance
has_flag-accepted f c none n = refl
has_flag-accepted f c (some a) n =
    ground
      (arith, any-append (same_flag f) c.flags (Flag.passport_accepted_by_mrz_and_identity ∷ []))

-- Storage uses another band than the measured one exactly for an accepted passport, and then the
-- band UNCLEAR, under review; the measured numbers are never touched.
pub apply_passport_acceptance-measured :
    (c : Confidence) (a : Option Acceptance)
    → ((apply_passport_acceptance c a).document_confidence ≡ c.document_confidence)
      × ((apply_passport_acceptance c a).extraction_confidence ≡ c.extraction_confidence)
      × ((apply_passport_acceptance c a).band ≡ (if is_accepted a then Band.unclear else c.band))
      × ((apply_passport_acceptance c a).review_required ≡ (is_accepted a || c.review_required))
unfolding apply_passport_acceptance
apply_passport_acceptance-measured c a = ground arith
