-- ===== src/Admin/Corrections.antt =====
-- services/adminCorrectionService.js: setDocumentType, assignClient and setPoliceSubmittedDate, on the
-- tables. The checks of the request's body are not modelled.
use emlynk_wabot.Prelude.{
  ℕ, Bool, false, not, Option, none, some, ◌∷◌, Text, text_eq, find, is_some, if◌then◌else◌,
}
use emlynk_wabot.Classification.{DocumentType}
use emlynk_wabot.Admin.Tables.{
  Filed, Item, ItemType, Client, Tables, ReviewAction, Status, Value, Audit, find_pending,
  find_review_document, update_document, update_item, has_type,
}
use emlynk_wabot.Admin.Checks.{ReviewError, Result, ok, err, ◌>>=◌, ◌>>◌, guard, some_or, is_slip}
use emlynk_wabot.Admin.Decisions.{ReviewId, entry}

-- pendingTarget
unfoldable pub pending_target : ReviewId → Tables → Result Text
pending_target (ReviewId.pending id) t =
    if is_some (find_pending id t.items) then ok id else err ReviewError.not_found
pending_target (ReviewId.document id) t =
    if is_some (find_review_document id t.documents)
    then err ReviewError.not_correctable
    else err ReviewError.not_found
pending_target (ReviewId.failed id) t =
    if is_some (find_review_document id t.documents)
    then err ReviewError.not_correctable
    else err ReviewError.not_found

abbrev is_client : Option Text → Text → Bool
is_client none passport_id = false
is_client (some p) passport_id = text_eq p passport_id

abbrev is_date : Option Text → Text → Bool
is_date none date = false
is_date (some d) date = text_eq d date

abbrev pub retyped : DocumentType → Item → Item
retyped document_type i = record i { document_type = ItemType.typed document_type }

abbrev pub linked : Client → Item → Item
linked c i = record i { passport_id = some c.passport_id; unique_id = some c.unique_id }

abbrev pub dated : Text → Filed → Filed
dated date d = record d { police_submitted_date = some date }

module _ (now : ℕ) (admin_id : Text) (reason : Option Text) where
  abbrev correction : ReviewAction → Item → Audit
  correction action row =
      record (entry now admin_id reason action (Status.processing row.status)
        (Status.processing row.status)) { temporary_id = some row.temporary_id }

  -- setDocumentType
  unfoldable pub set_document_type : ReviewId → DocumentType → Tables → Tables → Result Tables
  set_document_type review_id document_type reads t = do
    id ← pending_target review_id reads
    row ← some_or (find_pending id t.items) ReviewError.already_resolved
    guard (not (has_type document_type row.document_type)) ReviewError.same_document_type
    ok (record t {
      items = update_item row.temporary_id (retyped document_type) t.items;
      audit =
          record (correction ReviewAction.set_document_type row) {
            passport_id = row.passport_id;
            document_type = some (ItemType.typed document_type);
            previous_value = some (Value.type_value row.document_type);
            new_value = some (Value.type_value (ItemType.typed document_type));
          }
          ∷ t.audit;
    })

  -- assignClient
  unfoldable pub assign_client : ReviewId → Text → Tables → Tables → Result Tables
  assign_client review_id passport_id reads t = do
    id ← pending_target review_id reads
    row ← some_or (find_pending id t.items) ReviewError.already_resolved
    guard (not (is_client row.passport_id passport_id)) ReviewError.same_client
    client ←
        some_or (find (λ (c : Client). text_eq c.passport_id passport_id) t.clients)
          ReviewError.client_not_found
    ok (record t {
      items = update_item row.temporary_id (linked client) t.items;
      audit =
          record (correction ReviewAction.assign_client row) {
            passport_id = some client.passport_id;
            document_type = some row.document_type;
            previous_value = elim row.passport_id [
              | none ↦ none
              | some p ↦ some (Value.text_value p)
            ];
            new_value = some (Value.text_value client.passport_id);
          }
          ∷ t.audit;
    })

  abbrev date_audit : Filed → Text → Audit
  date_audit row date =
      record (entry now admin_id reason ReviewAction.set_police_date
        (Status.verification row.verification_status)
        (Status.verification row.verification_status)) {
          temporary_id = row.temporary_id;
          document_id = some row.document_id;
          passport_id = some row.passport_id;
          police_submitted_date = some date;
          document_type = some (ItemType.typed row.document_type);
          previous_value = elim row.police_submitted_date [
            | none ↦ none
            | some d ↦ some (Value.text_value d)
          ];
          new_value = some (Value.text_value date);
        }

  -- setPoliceSubmittedDate
  unfoldable pub set_police_submitted_date : Text → Text → Tables → Tables → Result Tables
  set_police_submitted_date document_id date reads t = do
    before ←
        some_or (find (λ (d : Filed). text_eq d.document_id document_id) reads.documents)
          ReviewError.not_found
    guard (is_slip (ItemType.typed before.document_type)) ReviewError.not_a_police_slip
    row ←
        some_or (find (λ (d : Filed). text_eq d.document_id document_id) t.documents)
          ReviewError.already_resolved
    guard (not (is_date row.police_submitted_date date)) ReviewError.same_police_date
    ok (record t {
      documents = update_document document_id (dated date) t.documents;
      audit = date_audit row date ∷ t.audit;
    })
