-- ===== src/Confidence.antt =====
-- services/confidenceService.js. A confidence is a number of hundredths of a percent: the code only
-- compares confidences and takes their minimum, so any finer unit behaves alike.
pub mod Types
pub mod Bands
pub mod Fields
pub use Types.*
use emlynk_wabot.Prelude.{
  ℕ, ◌*◌, ◌≡◌, min, max, Bool, true, false, ◌&&◌, ◌||◌, not, Option, none, some, List, [], ◌∷◌,
  ◌++◌, any, find, ltb, leb, if◌then◌else◌, or_else,
}
use emlynk_wabot.Classification.{
  DocumentType, Source, Reason, ContentClassification, ResolvedType, is_unknown, is_filename,
}
use Types.{
  Band, BandFlag, Area, BandInfo, Reading, Method, TextExtraction, Flag, Confidence, percent,
  has_flag,
}

-- CONFIDENCE_BANDS
unfoldable pub band_info : Band → BandInfo
band_info Band.verified = record {
  name = Band.verified;
  flag = none;
  review_required = false;
  rename_allowed = true;
  storage_area = Area.permanent;
}
band_info Band.high_confidence = record {
  name = Band.high_confidence;
  flag = some BandFlag.optional_review;
  review_required = false;
  rename_allowed = true;
  storage_area = Area.permanent;
}
band_info Band.slightly_unclear = record {
  name = Band.slightly_unclear;
  flag = some BandFlag.warning;
  review_required = false;
  rename_allowed = true;
  storage_area = Area.permanent;
}
band_info Band.unclear = record {
  name = Band.unclear;
  flag = some BandFlag.review;
  review_required = true;
  rename_allowed = false;
  storage_area = Area.permanent;
}
band_info Band.undefined = record {
  name = Band.undefined;
  flag = some BandFlag.critical_review;
  review_required = true;
  rename_allowed = false;
  storage_area = Area.undefined;
}

-- CONFIDENCE_THRESHOLDS
abbrev pub verified_above : ℕ
verified_above = percent 95

abbrev pub high_confidence_from : ℕ
high_confidence_from = percent 90

abbrev pub slightly_unclear_from : ℕ
slightly_unclear_from = percent 60

abbrev pub unclear_from : ℕ
unclear_from = percent 40

-- getConfidenceBand on a finite confidence that is not negative
unfoldable pub band_of : ℕ → Band
band_of v =
    if ltb verified_above v
    then Band.verified
    else if leb high_confidence_from v
    then Band.high_confidence
    else if leb slightly_unclear_from v
    then Band.slightly_unclear
    else if leb unclear_from v
    then Band.unclear
    else Band.undefined

-- getConfidenceBand; a negative number passes none of the tests
unfoldable pub get_confidence_band : Reading → BandInfo
unfolding band_info band_of
get_confidence_band Reading.not_finite = band_info (band_of 0)
get_confidence_band (Reading.negative n) = band_info Band.undefined
get_confidence_band (Reading.value n) = band_info (band_of n)

-- clamp
unfoldable pub clamp : Reading → ℕ
clamp Reading.not_finite = 0
clamp (Reading.negative n) = 0
clamp (Reading.value n) = max 0 (min (percent 100) n)

abbrev is_pdf_text : Method → Bool
is_pdf_text Method.pdf_text = true
is_pdf_text _ = false

abbrev is_pdf_parse_failed : Method → Bool
is_pdf_parse_failed Method.pdf_parse_failed = true
is_pdf_parse_failed _ = false

-- getExtractionConfidence
unfoldable pub get_extraction_confidence : Option TextExtraction → ℕ
unfolding clamp
get_extraction_confidence none = 0
get_extraction_confidence (some t) =
    if not t.success then 0 else if is_pdf_text t.method then percent 100 else clamp t.confidence

-- CONTENT_SCORE_CONFIDENCE, `find` over its rows
unfoldable pub score_confidence : ℕ → ℕ
score_confidence score =
    if leb 6 score
    then percent 100
    else if leb 5 score
    then percent 95
    else if leb 4 score
    then percent 90
    else if leb 3 score
    then percent 80
    else 0

abbrev pub filename_only_confidence : ℕ
filename_only_confidence = percent 30

abbrev score_or_zero : Option ContentClassification → ℕ
score_or_zero none = 0
score_or_zero (some c) = c.score

-- getClassificationConfidence
unfoldable pub get_classification_confidence :
    Option ResolvedType → Option ContentClassification → ℕ
unfolding score_confidence
get_classification_confidence none content = 0
get_classification_confidence (some r) content =
    if is_unknown r.document_type
    then 0
    else if is_filename r.source
    then filename_only_confidence
    else score_confidence (score_or_zero content)

-- `if (condition) flags.push(flag)`
abbrev when : Bool → Flag → List Flag
when b flag = if b then flag ∷ [] else []

abbrev corrupt : Option TextExtraction → Bool
corrupt none = false
corrupt (some t) = is_pdf_parse_failed t.method

abbrev readable : Option TextExtraction → Bool
readable none = false
readable (some t) = t.success

abbrev from_filename : Option ResolvedType → Bool
from_filename none = false
from_filename (some r) = is_filename r.source

abbrev mismatched : Option ResolvedType → Bool
mismatched none = false
mismatched (some r) = r.filename_mismatch

abbrev is_police_type_unclear : Option Reason → Bool
is_police_type_unclear (some Reason.police_type_unclear) = true
is_police_type_unclear _ = false

abbrev police_unclear : Option ContentClassification → Bool
police_unclear none = false
police_unclear (some c) = is_police_type_unclear c.reason

-- The flags of assessDocumentConfidence, in the order in which they are pushed.
unfoldable pub document_flags :
    Option TextExtraction → Option ContentClassification → Option ResolvedType → List Flag
document_flags text content resolved =
    (if corrupt text
      then Flag.corrupt_file ∷ []
      else when (not (readable text)) Flag.no_readable_text)
    ++ (when (from_filename resolved) Flag.classified_from_filename_only
        ++ (when (mismatched resolved) Flag.wrong_document_suspected
            ++ when (police_unclear content) Flag.police_type_unclear))

-- assessDocumentConfidence
unfoldable pub assess_document_confidence :
    Option TextExtraction → Option ContentClassification → Option ResolvedType → Confidence
unfolding get_extraction_confidence get_classification_confidence document_flags band_info band_of
assess_document_confidence text content resolved =
    let extraction = get_extraction_confidence text in
    let classification = get_classification_confidence resolved content in
    let document = min extraction classification in
    let band = band_info (band_of document) in
    let flags = document_flags text content resolved in
    record {
      extraction_confidence = extraction;
      classification_confidence = classification;
      document_confidence = document;
      band = band.name;
      measured_band = none;
      band_flag = band.flag;
      review_required = band.review_required || has_flag Flag.wrong_document_suspected flags;
      flags = flags;
    }
