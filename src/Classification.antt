-- ===== src/Classification.antt =====
-- services/documentClassificationService.js: the document types, and the decision that joins the
-- guess from the file name with the classification of the text.
pub mod Types
pub mod Scoring
pub mod Resolve
pub use Types.*
use emlynk_wabot.Prelude.{Bool, true, false, ◌&&◌, not, Option, none, some, if◌then◌else◌, or_else}
use Types.{
  DocumentType, Source, Reason, ContentClassification, ResolvedType, is_unknown, family,
  same_family,
}

abbrev type_or_unknown : Option DocumentType → DocumentType
type_or_unknown t = or_else t DocumentType.unknown

abbrev content_type : Option ContentClassification → Option DocumentType
content_type none = none
content_type (some c) = some c.document_type

abbrev is_no_text : Option Reason → Bool
is_no_text (some Reason.no_text) = true
is_no_text _ = false

abbrev had_no_text : Option ContentClassification → Bool
had_no_text none = false
had_no_text (some c) = is_no_text c.reason

-- resolveDocumentType; a missing classification is `none`
unfoldable pub resolve_document_type :
    Option DocumentType → Option ContentClassification → ResolvedType
resolve_document_type filename_classification content_classification =
    let filename_type = type_or_unknown filename_classification in
    let content = type_or_unknown (content_type content_classification) in
    if not (is_unknown content)
    then record {
      document_type = content;
      source = Source.content;
      filename_mismatch =
          not (is_unknown filename_type)
          && not (same_family (family filename_type) (family content));
    }
    else if had_no_text content_classification && not (is_unknown filename_type)
    then record {
      document_type = filename_type;
      source = Source.filename;
      filename_mismatch = false;
    }
    else record {
      document_type = DocumentType.unknown;
      source = Source.content;
      filename_mismatch = false;
    }
