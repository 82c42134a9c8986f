-- ===== src/Review.antt =====
-- What a person must look at: determineProcessingStatus and hasReviewBlocker of
-- services/documentProcessingService.js, and services/reviewReason.js.
pub mod Reasons
pub mod Laws
use emlynk_wabot.Prelude.{
  Bool, true, false, ◌&&◌, ◌||◌, not, Option, none, some, List, [], ◌∷◌, any, if◌then◌else◌,
}
use emlynk_wabot.Classification.{ResolvedType, is_unknown}
use emlynk_wabot.Confidence.{Band, Flag, Confidence, has_flag}
use emlynk_wabot.Identity.{Identity, IdentityStatus}
use emlynk_wabot.Reconciliation.{Entry, Reconciled}
use emlynk_wabot.Police.{DateStatus, PoliceDate}
use emlynk_wabot.Placement.{ProcessingStatus, ChecksumOutcome}
use Reasons.{ReviewReason}

-- What the rules read of the processing state; a part that is not set is `none`.
pub record Findings : Type 0 where
  pub resolved_type : Option ResolvedType
  pub confidence : Option Confidence
  pub identity : Option Identity
  pub reconciliation : Option Reconciled
  pub police_date : Option PoliceDate
  pub checksum : Option ChecksumOutcome
  pub existing_verified : Bool
  pub verified_of_type_exists : Bool

abbrev needs_review : DateStatus → Bool
needs_review DateStatus.resolved = false
needs_review _ = true

-- POLICE_DATE_NEEDS_REVIEW.has(policeDate?.status)
abbrev pub date_needs_review : Option PoliceDate → Bool
date_needs_review none = false
date_needs_review (some d) = needs_review d.status

-- identity?.reviewRequired
abbrev pub identity_needs_review : Option Identity → Bool
identity_needs_review none = false
identity_needs_review (some i) = i.review_required

abbrev pub flags_of : Option Confidence → List Flag
flags_of none = []
flags_of (some c) = c.flags

-- REVIEW_BLOCKING_FLAGS
abbrev pub review_blocking_flags : List Flag
review_blocking_flags =
    Flag.wrong_document_suspected ∷ Flag.classified_from_filename_only ∷ Flag.police_type_unclear
    ∷ []

unfoldable pub has_review_blocker : Findings → Bool
has_review_blocker f =
    identity_needs_review f.identity
    || any (λ flag. has_flag flag (flags_of f.confidence)) review_blocking_flags
    || date_needs_review f.police_date

abbrev is_conflict : IdentityStatus → Bool
is_conflict IdentityStatus.identity_conflict = true
is_conflict _ = false

-- identity?.status === IDENTITY_CONFLICT
abbrev pub identity_conflicts : Option Identity → Bool
identity_conflicts none = false
identity_conflicts (some i) = is_conflict i.status

abbrev is_nonempty : List Entry → Bool
is_nonempty [] = false
is_nonempty (e ∷ rest) = true

-- reconciliation?.conflicts.length > 0
abbrev pub record_conflicts : Option Reconciled → Bool
record_conflicts none = false
record_conflicts (some r) = is_nonempty r.conflicts

abbrev pub is_undefined : Band → Bool
is_undefined Band.undefined = true
is_undefined _ = false

abbrev pub is_unclear : Band → Bool
is_unclear Band.unclear = true
is_unclear _ = false

-- The band names double as statuses.
abbrev pub band_status : Band → ProcessingStatus
band_status Band.verified = ProcessingStatus.verified
band_status Band.high_confidence = ProcessingStatus.high_confidence
band_status Band.slightly_unclear = ProcessingStatus.slightly_unclear
band_status Band.unclear = ProcessingStatus.unclear
band_status Band.undefined = ProcessingStatus.undefined

-- determineProcessingStatus; `confidence` is set whenever it is called
unfoldable pub determine_processing_status : Confidence → Findings → ProcessingStatus
determine_processing_status confidence f =
    if identity_conflicts f.identity || record_conflicts f.reconciliation
    then ProcessingStatus.conflict
    else if is_undefined confidence.band
    then ProcessingStatus.undefined
    else if identity_needs_review f.identity
        || confidence.review_required
        || date_needs_review f.police_date
    then (if is_unclear confidence.band
        then ProcessingStatus.unclear
        else ProcessingStatus.manual_review)
    else band_status confidence.band

abbrev pub is_cross_client : Option ChecksumOutcome → Bool
is_cross_client (some ChecksumOutcome.cross_client_conflict) = true
is_cross_client _ = false

abbrev pub type_is_unknown : Option ResolvedType → Bool
type_is_unknown none = false
type_is_unknown (some r) = is_unknown r.document_type

abbrev pub is_low_band : Option Confidence → Bool
is_low_band none = false
is_low_band (some c) = is_undefined c.band || is_unclear c.band

abbrev is_failed : Option ProcessingStatus → Bool
is_failed (some ProcessingStatus.failed) = true
is_failed _ = false

abbrev is_duplicate : Option ProcessingStatus → Bool
is_duplicate (some ProcessingStatus.duplicate) = true
is_duplicate _ = false

-- UNCLEAR_TYPE_FLAGS
abbrev unclear_type_flags : List Flag
unclear_type_flags = Flag.police_type_unclear ∷ Flag.classified_from_filename_only ∷ []

unfoldable pub derive_review_reason : Option ProcessingStatus → Findings → Option ReviewReason
derive_review_reason status f =
    let flags = flags_of f.confidence in
    if is_failed status
    then some ReviewReason.processing_failed
    else if is_duplicate status
    then (if f.existing_verified then some ReviewReason.duplicate_of_verified else none)
    else if is_cross_client f.checksum
    then some ReviewReason.cross_client_duplicate
    else if identity_conflicts f.identity
    then some ReviewReason.identity_conflict
    else if record_conflicts f.reconciliation
    then some ReviewReason.record_conflict
    else if type_is_unknown f.resolved_type || any (λ flag. has_flag flag flags) unclear_type_flags
    then some ReviewReason.document_type_unclear
    else if has_flag Flag.wrong_document_suspected flags
    then some ReviewReason.wrong_document_suspected
    else if identity_needs_review f.identity
    then some ReviewReason.identity_not_confirmed
    else if date_needs_review f.police_date
    then some ReviewReason.police_date_unresolved
    else if is_low_band f.confidence
    then some ReviewReason.low_confidence
    else if f.verified_of_type_exists
    then some ReviewReason.existing_verified_document
    else none
