-- ===== src/Confidence/Types.antt =====
-- services/confidenceService.js and services/ocrService.js: bands, flags, and the results that the
-- confidence rules read and return.
use emlynk_wabot.Prelude.{ℕ, ◌*◌, Bool, true, false, Option, List, any}

-- CONFIDENCE_BANDS
pub data Band : Type 0 where
  verified high_confidence slightly_unclear unclear undefined : Band

pub data BandFlag : Type 0 where
  optional_review warning review critical_review : BandFlag

-- `storageArea`
pub data Area : Type 0 where
  permanent undefined : Area

pub record BandInfo : Type 0 where
  pub name : Band
  pub flag : Option BandFlag
  pub review_required : Bool
  pub rename_allowed : Bool
  pub storage_area : Area

-- A whole percentage, in the unit of the model.
abbrev pub percent : ℕ → ℕ
percent n = n * 100

-- A JavaScript number as `Number.isFinite` and the comparisons see it; `negative n` is -(n + 1).
pub data Reading : Type 0 where
  not_finite : Reading
  negative : ℕ → Reading
  value : ℕ → Reading

-- TEXT_EXTRACTION_METHODS
pub data Method : Type 0 where
  pdf_text pdf_ocr pdf_parse_failed ocr unsupported_document_type : Method

-- The result of extractDocumentText, as far as the confidence rules read it.
pub record TextExtraction : Type 0 where
  pub success : Bool
  pub method : Method
  pub confidence : Reading

-- DOCUMENT_FLAGS
pub data Flag : Type 0 where
  wrong_document_suspected classified_from_filename_only no_readable_text corrupt_file : Flag
  passport_accepted_by_mrz_and_identity police_type_unclear : Flag

abbrev pub same_flag : Flag → Flag → Bool
same_flag Flag.wrong_document_suspected Flag.wrong_document_suspected = true
same_flag Flag.classified_from_filename_only Flag.classified_from_filename_only = true
same_flag Flag.no_readable_text Flag.no_readable_text = true
same_flag Flag.corrupt_file Flag.corrupt_file = true
same_flag Flag.passport_accepted_by_mrz_and_identity Flag.passport_accepted_by_mrz_and_identity =
    true
same_flag Flag.police_type_unclear Flag.police_type_unclear = true
same_flag _ _ = false

-- flags.includes(flag)
abbrev pub has_flag : Flag → List Flag → Bool
has_flag flag flags = any (same_flag flag) flags

-- The result of assessDocumentConfidence; `measured_band` is set by applyPassportAcceptance.
pub record Confidence : Type 0 where
  pub extraction_confidence : ℕ
  pub classification_confidence : ℕ
  pub document_confidence : ℕ
  pub band : Band
  pub measured_band : Option Band
  pub band_flag : Option BandFlag
  pub review_required : Bool
  pub flags : List Flag
