-- ===== src/Tests/Pipeline.antt =====
-- A readable passport of a known client, and the same passport from an unknown number.
use emlynk_wabot.Prelude.{refl, false, none, some, [], codes, text_eq}
use emlynk_wabot.Classification.{resolve_document_type}
use emlynk_wabot.Classification.Scoring.{
  classify_document_content, score_document_type, score_indicators,
}
use emlynk_wabot.Confidence.{assess_document_confidence}
use emlynk_wabot.Confidence.Fields.{get_passport_field_confidence}
use emlynk_wabot.Users.Lookup.{Lookup, LookupStatus}
use emlynk_wabot.Identity.{decide_identity}
use emlynk_wabot.Reconciliation.{reconcile_passport_fields, outcome_of, normalize_for_compare}
use emlynk_wabot.Acceptance.{holds, evaluate_passport_acceptance, apply_passport_acceptance}
use emlynk_wabot.Placement.{decide_placement}
use emlynk_wabot.Review.{has_review_blocker, determine_processing_status}
use emlynk_wabot.Pipeline.Plan.{
  assess, identify, reconcile, acceptance, stored_confidence, plan, is_client_identified,
}
use emlynk_wabot.Pipeline.Trust.{IsFiled, plan-IsFiled}
use emlynk_wabot.Tests.Data.{client, found, passport_read, no_day}

plan-IsFiled_example :
    IsFiled no_day
      (codes "2025-01-01")
      none
      passport_read
      (some (found client))
      (found client)
      none
      false
unfolding assess identify reconcile acceptance stored_confidence plan is_client_identified
    decide_placement classify_document_content resolve_document_type assess_document_confidence
    get_passport_field_confidence decide_identity reconcile_passport_fields
    evaluate_passport_acceptance apply_passport_acceptance has_review_blocker
    determine_processing_status score_document_type score_indicators text_eq outcome_of
    normalize_for_compare holds
plan-IsFiled_example =
    plan-IsFiled no_day (codes "2025-01-01") none passport_read (some (found client)) (found client)
      none false refl refl

abbrev stranger : Lookup
stranger = record { status = LookupStatus.not_found; users = [] }
