-- ===== src/Storage/Documents.antt =====
-- Rows of the documents table, as far as filing reads and writes them.
use emlynk_wabot.Prelude.{Bool, true, false, ◌&&◌, Option, none, some, List, Text, text_eq, any}
use emlynk_wabot.Classification.{DocumentType, same_type}
use emlynk_wabot.Confidence.{Band}

-- VERIFICATION_STATUS of services/clientDocumentService.js
pub data VerificationStatus : Type 0 where
  verified review_required superseded : VerificationStatus

pub record Document : Type 0 where
  pub document_id : Text
  pub passport_id : Text
  pub document_type : DocumentType
  pub storage_path : Text
  pub verification_status : VerificationStatus
  pub file_sha256 : Text
  pub temporary_id : Option Text

abbrev pub is_verified : VerificationStatus → Bool
is_verified VerificationStatus.verified = true
is_verified _ = false

-- verificationStatusForBand; `none` is the error for UNDEFINED
unfoldable pub verification_status_for_band : Band → Option VerificationStatus
verification_status_for_band Band.verified = some VerificationStatus.verified
verification_status_for_band Band.high_confidence = some VerificationStatus.verified
verification_status_for_band Band.slightly_unclear = some VerificationStatus.verified
verification_status_for_band Band.unclear = some VerificationStatus.review_required
verification_status_for_band Band.undefined = none

-- hasVerifiedDocument
unfoldable pub has_verified_document : List Document → Text → DocumentType → Bool
has_verified_document documents passport_id document_type =
    any
      (λ (d : Document).
        text_eq d.passport_id passport_id
        && same_type d.document_type document_type
        && is_verified d.verification_status)
      documents
