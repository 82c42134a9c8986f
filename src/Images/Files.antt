-- ===== src/Images/Files.antt =====
-- utils/fileValidation.js: what a downloaded file must be before it is stored.
use emlynk_wabot.Prelude.{
  ℕ, ◌*◌, Bool, true, false, not, Option, none, some, List, [], ◌∷◌, Text, text_eq, codes, any,
  length, take, ltb, ◌==◌, is_truthy, or_else, if◌then◌else◌,
}
use emlynk_wabot.Images.{png_signature, jpeg_signature}

-- ALLOWED_MIME_TYPES
abbrev pub allowed_mime_types : List Text
allowed_mime_types = codes "application/pdf" ∷ codes "image/jpeg" ∷ codes "image/png" ∷ []

-- MAX_FILE_SIZE
abbrev pub max_file_size : ℕ
max_file_size = 10 * 1024 * 1024

-- `includes`, for bytes in a buffer
abbrev pub includes : Text → Text → Bool
includes part [] = text_eq part []
includes part (c ∷ s) =
    let rest = includes part s in if text_eq (take (length part) (c ∷ s)) part then true else rest

-- fileSignatureMatches
unfoldable pub file_signature_matches : Text → Text → Bool
file_signature_matches buffer mime_type =
    if text_eq mime_type (codes "application/pdf")
    then includes (codes "%PDF-") (take 1024 buffer)
    else if text_eq mime_type (codes "image/jpeg")
    then text_eq (take 3 buffer) jpeg_signature
    else if text_eq mime_type (codes "image/png")
    then text_eq (take 8 buffer) png_signature
    else false

pub data FileReason : Type 0 where
  missing_mime_type unsupported_file_type invalid_file_size file_too_large : FileReason
  file_signature_mismatch : FileReason

abbrev pub has_signature : Option Text → Text → Bool
has_signature none mime_type = true
has_signature (some buffer) mime_type = file_signature_matches buffer mime_type

-- validateDocumentFile: the reason why a file is refused, or none
unfoldable pub validate_document_file : Option Text → Option ℕ → Option Text → Option FileReason
validate_document_file mime_type file_size file_buffer =
    if not (is_truthy mime_type)
    then some FileReason.missing_mime_type
    else if not (any (λ t. text_eq t (or_else mime_type [])) allowed_mime_types)
    then some FileReason.unsupported_file_type
    else if or_else file_size 0 == 0
    then some FileReason.invalid_file_size
    else if ltb max_file_size (or_else file_size 0)
    then some FileReason.file_too_large
    else if not (has_signature file_buffer (or_else mime_type []))
    then some FileReason.file_signature_mismatch
    else none
