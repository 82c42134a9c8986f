-- ===== src/Classification/Types.antt =====
-- services/documentClassificationService.js: document types and classification results.
use emlynk_wabot.Prelude.{ℕ, Bool, true, false, Option, if◌then◌else◌}

pub data DocumentType : Type 0 where
  passport police_slip police_report medical unknown : DocumentType

-- The `source` of a resolved type.
pub data Source : Type 0 where
  content filename : Source

pub data Reason : Type 0 where
  no_text insufficient_evidence ambiguous_content police_type_unclear : Reason

-- What `classifyDocument` and `classifyDocumentContent` return, as far as it is read.
pub record ContentClassification : Type 0 where
  pub document_type : DocumentType
  pub score : ℕ
  pub reason : Option Reason

pub record ResolvedType : Type 0 where
  pub document_type : DocumentType
  pub source : Source
  pub filename_mismatch : Bool

-- POLICE_DOCUMENT_TYPES.includes(documentType)
abbrev pub is_police : DocumentType → Bool
is_police DocumentType.police_slip = true
is_police DocumentType.police_report = true
is_police _ = false

abbrev pub is_unknown : DocumentType → Bool
is_unknown DocumentType.unknown = true
is_unknown _ = false

abbrev pub is_passport : DocumentType → Bool
is_passport DocumentType.passport = true
is_passport _ = false

abbrev pub is_police_slip : DocumentType → Bool
is_police_slip DocumentType.police_slip = true
is_police_slip _ = false

abbrev pub is_police_report : DocumentType → Bool
is_police_report DocumentType.police_report = true
is_police_report _ = false

abbrev pub is_filename : Source → Bool
is_filename Source.filename = true
is_filename Source.content = false

-- Document types with the two police types taken as one: the helper `family`.
pub data Family : Type 0 where
  police : Family
  plain : DocumentType → Family

abbrev pub family : DocumentType → Family
family t = if is_police t then Family.police else Family.plain t

-- `a === b` for document types
abbrev pub same_type : DocumentType → DocumentType → Bool
same_type DocumentType.passport DocumentType.passport = true
same_type DocumentType.police_slip DocumentType.police_slip = true
same_type DocumentType.police_report DocumentType.police_report = true
same_type DocumentType.medical DocumentType.medical = true
same_type DocumentType.unknown DocumentType.unknown = true
same_type _ _ = false

abbrev pub same_family : Family → Family → Bool
same_family Family.police Family.police = true
same_family (Family.plain a) (Family.plain b) = same_type a b
same_family _ _ = false
