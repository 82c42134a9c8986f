-- ===== src/Review/Reasons.antt =====
-- services/reviewReason.js: the reasons and their groups.

-- REVIEW_REASON
pub data ReviewReason : Type 0 where
  processing_failed cross_client_duplicate identity_conflict record_conflict : ReviewReason
  document_type_unclear wrong_document_suspected identity_not_confirmed : ReviewReason
  police_date_unresolved low_confidence duplicate_of_verified : ReviewReason
  existing_verified_document : ReviewReason

-- The values of REVIEW_REASON_CATEGORY.
pub data Category : Type 0 where
  conflict quality identity other : Category

abbrev pub category : ReviewReason → Category
category ReviewReason.processing_failed = Category.other
category ReviewReason.cross_client_duplicate = Category.conflict
category ReviewReason.identity_conflict = Category.conflict
category ReviewReason.record_conflict = Category.conflict
category ReviewReason.document_type_unclear = Category.quality
category ReviewReason.wrong_document_suspected = Category.quality
category ReviewReason.identity_not_confirmed = Category.identity
category ReviewReason.police_date_unresolved = Category.other
category ReviewReason.low_confidence = Category.quality
category ReviewReason.duplicate_of_verified = Category.other
category ReviewReason.existing_verified_document = Category.other
