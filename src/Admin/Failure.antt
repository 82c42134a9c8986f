-- ===== src/Admin/Failure.antt =====
-- services/failureReason.js: why a submission has failed, as a code.
use emlynk_wabot.Prelude.{Option, none, some}

-- OCR_FAILURE_CODES
pub data OcrFailure : Type 0 where
  image_too_large image_unreadable pdf_too_many_pages pdf_page_too_large : OcrFailure
  ocr_busy ocr_timeout : OcrFailure

-- PROCESSING_STAGES
pub data Stage : Type 0 where
  text_extraction classification field_extraction identity duplicate_check : Stage
  reconciliation storage record_update file_load worker : Stage

-- FAILURE_CODE
pub data FailureCode : Type 0 where
  resource_limit : OcrFailure → FailureCode
  text_extraction_failed storage_failed processing_failed : FailureCode
  file_unavailable attempts_exhausted not_recorded : FailureCode

-- A stored summary: its stage, none if it has none of the list, and the known code that the pattern
-- of a resource limit finds in its error.
pub record Summary : Type 0 where
  pub stage : Option Stage
  pub ocr : Option OcrFailure

abbrev stage_code : Stage → FailureCode
stage_code Stage.text_extraction = FailureCode.text_extraction_failed
stage_code Stage.storage = FailureCode.storage_failed
stage_code Stage.file_load = FailureCode.file_unavailable
stage_code Stage.worker = FailureCode.attempts_exhausted
stage_code _ = FailureCode.processing_failed

-- The `code` of describeFailure
unfoldable pub describe_failure : Summary → FailureCode
describe_failure summary = elim summary.stage [
  | none ↦ FailureCode.not_recorded
  | some stage ↦ elim summary.ocr [
    | some limit ↦ FailureCode.resource_limit limit
    | none ↦ stage_code stage
  ]
]
