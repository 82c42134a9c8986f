-- ===== src/Tests/Decisions.antt =====
-- The single decisions on concrete inputs.
use emlynk_wabot.Prelude.{
  ◌≡◌, ◌≢◌, ◌≤◌, refl, true, false, none, some, List, [], ◌∷◌, codes, text_eq, text_eq_iff, Text,
  any, all, All,
}
use emlynk_wabot.Classification.Scoring.{
  Topic, classify_document_content, score_document_type, score_indicators,
}
use emlynk_wabot.Classification.Scoring.Winner.{IsWinner, classify-IsWinner}
use emlynk_wabot.Classification.{Source, DocumentType}
use emlynk_wabot.Confidence.{Band, Confidence, BandFlag}
use emlynk_wabot.Users.PassportId.{
  normalize_passport_id, normalize_passport_id-valid, is_id_char, is_digit,
}
use emlynk_wabot.Identity.{Identity, decide_identity}
use emlynk_wabot.Identity.Laws.{IsTrusted, decide_identity-IsTrusted}
use emlynk_wabot.Reconciliation.{Column, Extracted, reconcile_passport_fields}
use emlynk_wabot.Reconciliation.Laws.{IsJustified, reconcile_passport_fields-IsJustified}
use emlynk_wabot.Reconciliation.Apply.{may_write, id_or_empty, apply_reconciliation_updates}
use emlynk_wabot.Reconciliation.Apply.Keeps.{AllFilled, apply_reconciliation_updates-AllFilled}
use emlynk_wabot.Acceptance
use emlynk_wabot.Acceptance.{
  Condition, holds, is_accepted, is_low_band, evaluate_passport_acceptance,
  apply_passport_acceptance,
}
use emlynk_wabot.Tests.Data.{client, other_client, found, passport_text, no_day}

decide_identity-IsTrusted_example :
    IsTrusted
      (some (found client))
      (some (found client))
      true
      9700
      (decide_identity (some (found client)) (some (found client)) true 9700)
unfolding decide_identity text_eq
decide_identity-IsTrusted_example =
    decide_identity-IsTrusted (some (found client)) (some (found client)) true 9700 refl

abbrev conflict : Identity
conflict = decide_identity (some (found client)) (some (found other_client)) true 9700

apart : client.passport_id ≢ other_client.passport_id
unfolding text_eq
apart e =
    let n : text_eq client.passport_id other_client.passport_id ≡ true =
      (text_eq_iff client.passport_id other_client.passport_id).1 e in
    cc n

abbrev proven : Identity
proven = decide_identity (some (found client)) (some (found client)) true 9700

abbrev proposed : List (Column × Text)
proposed = (Column.other_name, codes "PERERA") ∷ (Column.first_name, codes "KAMAL") ∷ []

apply_reconciliation_updates-AllFilled_example :
    AllFilled
      (id_or_empty proven.passport_id)
      (client ∷ other_client ∷ [])
      (apply_reconciliation_updates proven proposed (client ∷ other_client ∷ [])).0
    × (may_write proven ≡ false
        → (apply_reconciliation_updates proven proposed (client ∷ other_client ∷ [])).0
          ≡ client ∷ other_client ∷ [])
apply_reconciliation_updates-AllFilled_example =
    apply_reconciliation_updates-AllFilled proven proposed (client ∷ other_client ∷ [])

abbrev extracted : Extracted
extracted = record { value = λ f. some (codes "PERERA"); confidence = λ f. 9700 }

reconcile_passport_fields-IsJustified_example :
    All
      (IsJustified no_day client extracted)
      (reconcile_passport_fields no_day client extracted).updates
reconcile_passport_fields-IsJustified_example =
    reconcile_passport_fields-IsJustified no_day client extracted

abbrev poor : Confidence
poor = record {
  extraction_confidence = 3500;
  classification_confidence = 9000;
  document_confidence = 3500;
  band = Band.undefined;
  measured_band = none;
  band_flag = some BandFlag.critical_review;
  review_required = true;
  flags = [];
}

abbrev poor_passport : Acceptance.Evidence
poor_passport = record {
  resolved_type = some (record {
    document_type = DocumentType.passport;
    source = Source.content;
    filename_mismatch = false;
  });
  confidence = some poor;
  mrz_lines_found = some 2;
  field_band = λ f. some Band.verified;
  identity = some proven;
  reconciliation = none;
}

abbrev stored : Confidence
stored = apply_passport_acceptance poor (some (record { accepted = true; failed_conditions = [] }))

classify-IsWinner_example :
    IsWinner passport_text Topic.passport
    × ((classify_document_content passport_text).score
        ≡ (score_document_type Topic.passport passport_text).score)
unfolding classify_document_content score_document_type score_indicators
classify-IsWinner_example = classify-IsWinner passport_text Topic.passport refl

passport_text-IsWinner : IsWinner passport_text Topic.passport
unfolding classify_document_content score_document_type score_indicators
passport_text-IsWinner = (classify-IsWinner passport_text Topic.passport refl).0

normalize_passport_id-valid_example :
    (all is_id_char (codes "N1234567") ≡ true)
    × (6 ≤ 8)
    × (8 ≤ 9)
    × (any is_digit (codes "N1234567") ≡ true)
    × (normalize_passport_id (some (codes "N1234567")) ≡ some (codes "N1234567"))
unfolding normalize_passport_id
normalize_passport_id-valid_example =
    normalize_passport_id-valid (some (codes "n 1234-567")) (codes "N1234567") refl
