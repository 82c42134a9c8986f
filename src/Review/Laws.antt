-- ===== src/Review/Laws.antt =====
-- services/reviewReason.js: submissions without a review reason.
use emlynk_wabot.Prelude.{
  ◌≡◌, ◌≢◌, ◌⊎◌, Bool, true, false, Option, none, some, arith, refl, ◌||◌, if◌then◌else◌,
}
use emlynk_wabot.Confidence.{Flag, Confidence, has_flag}
use emlynk_wabot.Placement.{ProcessingStatus, needs_person}
use emlynk_wabot.Review.Reasons.{ReviewReason}
use emlynk_wabot.Review.{
  flags_of, identity_needs_review, date_needs_review, Findings, has_review_blocker,
  determine_processing_status, derive_review_reason, identity_conflicts, record_conflicts,
  type_is_unknown, is_low_band, is_cross_client, band_status,
}

-- Nothing for a person to look at.
pub record IsClean (f : Findings) : Type 0 where
  pub own_file : is_cross_client f.checksum ≡ false
  pub same_identity : identity_conflicts f.identity ≡ false
  pub same_record : record_conflicts f.reconciliation ≡ false
  pub known_type : type_is_unknown f.resolved_type ≡ false
  pub cleared : has_review_blocker f ≡ false
  pub confident : is_low_band f.confidence ≡ false
  pub first_verified : f.verified_of_type_exists ≡ false

-- The tests of deriveReviewReason behind its two statuses, as truth values: a shared file, a
-- conflict of identity, of the record, an unknown type, the three flags, an unconfirmed identity,
-- an open date, a low band and a verified document.
abbrev chain :
    Bool → Bool → Bool → Bool → Bool → Bool → Bool → Bool → Bool → Bool → Bool → Option ReviewReason
chain shared identity differs unknown police name wrong review date low verified =
    if shared
    then some ReviewReason.cross_client_duplicate
    else if identity
    then some ReviewReason.identity_conflict
    else if differs
    then some ReviewReason.record_conflict
    else if unknown || (police || (name || false))
    then some ReviewReason.document_type_unclear
    else if wrong
    then some ReviewReason.wrong_document_suspected
    else if review
    then some ReviewReason.identity_not_confirmed
    else if date
    then some ReviewReason.police_date_unresolved
    else if low
    then some ReviewReason.low_confidence
    else if verified
    then some ReviewReason.existing_verified_document
    else none

chain-none :
    (a b c d e f g h i j k : Bool)
    → chain a b c d e f g h i j k ≡ none
    → (a ≡ false)
      × (b ≡ false)
      × (c ≡ false)
      × (d ≡ false)
      × ((h || (g || (f || (e || false))) || i) ≡ false)
      × (j ≡ false)
      × (k ≡ false)
chain-none false false false false false false false false false false false n =
    (refl, refl, refl, refl, refl, refl, refl)
chain-none a b c d e f g h i j k n = ground arith

pub no_reason-IsClean :
    (status : ProcessingStatus) (f : Findings)
    → derive_review_reason (some status) f ≡ none
    → status ≢ ProcessingStatus.duplicate
    → IsClean f
unfolding derive_review_reason has_review_blocker
no_reason-IsClean ProcessingStatus.failed f n d = cc n
no_reason-IsClean ProcessingStatus.duplicate f n d = absurd (d refl)
no_reason-IsClean _ f n d =
    let flags = flags_of f.confidence in
    let (a, b, c, e, g, h, i) =
      chain-none (is_cross_client f.checksum) (identity_conflicts f.identity)
        (record_conflicts f.reconciliation) (type_is_unknown f.resolved_type)
        (has_flag Flag.police_type_unclear flags)
        (has_flag Flag.classified_from_filename_only flags)
        (has_flag Flag.wrong_document_suspected flags) (identity_needs_review f.identity)
        (date_needs_review f.police_date) (is_low_band f.confidence) f.verified_of_type_exists n in
    record {
      own_file = a;
      same_identity = b;
      same_record = c;
      known_type = e;
      cleared = g;
      confident = h;
      first_verified = i;
    }

-- A failed submission and a duplicate are told apart by their status alone.
pub reason-failed : (f : Findings) → derive_review_reason (some ProcessingStatus.failed) f ≢ none
unfolding derive_review_reason
reason-failed f h = cc

pub reason-duplicate :
    (f : Findings)
    → derive_review_reason (some ProcessingStatus.duplicate) f ≡ none
    → f.existing_verified ≡ false
unfolding derive_review_reason
reason-duplicate f h = ground arith

-- With nothing to look at, the status is the band's.
pub clean-status :
    (c : Confidence) (f : Findings)
    → f.confidence ≡ some c
    → (c.review_required ≡ true
        → (is_low_band (some c) ≡ true) ⊎ (has_flag Flag.wrong_document_suspected c.flags ≡ true))
    → IsClean f
    → (determine_processing_status c f ≡ band_status c.band)
      × (needs_person (determine_processing_status c f) ≡ false)
unfolding determine_processing_status has_review_blocker
clean-status c f e reviewed clean =
    ground (arith, e, clean.cleared, clean.confident, clean.same_identity, clean.same_record)
