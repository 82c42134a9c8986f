-- ===== src/Tests/Desk.antt =====
-- A desk with one waiting file of a known client, and one with a failed submission.
use emlynk_wabot.Prelude.{none, some, [], ◌∷◌, ◌++◌, Text, codes}
use emlynk_wabot.Classification.{DocumentType}
use emlynk_wabot.Placement.{ProcessingStatus}
use emlynk_wabot.Queue.Table.{RowStatus}
use emlynk_wabot.Admin.Failure.{Stage}
use emlynk_wabot.Admin.Tables.{Item, ItemType}
use emlynk_wabot.Admin.Checks.{Naming}
use emlynk_wabot.Admin.Filing.{Desk, Request}
use emlynk_wabot.Tests.Data.{waiting}
use emlynk_wabot.Tests.Bucket.{Files}

abbrev pub waiting_path : Text
waiting_path = codes "pending/a1.pdf"

abbrev pub item : DocumentType → Item
item t = record {
  row = record waiting {
    status = RowStatus.finished ProcessingStatus.manual_review;
    pending_storage_path = some waiting_path;
  };
  passport_id = some (codes "N1");
  unique_id = some (codes "U1");
  document_type = ItemType.typed t;
  summary = record { stage = none; ocr = none };
}

abbrev pub desk_with : Item → Desk Files
desk_with i = record {
  bucket = (waiting_path, codes "ff") ∷ (codes "temporary/a1.pdf", codes "ff") ∷ [];
  tables = record {
    documents = [];
    items = i ∷ [];
    clients = record { passport_id = codes "N1"; unique_id = codes "U1" } ∷ [];
    audit = [];
  };
}

abbrev pub passport_desk : Desk Files
passport_desk = desk_with (item DocumentType.passport)

abbrev pub slip_desk : Desk Files
slip_desk = desk_with (item DocumentType.police_slip)

abbrev pub failed_desk : Desk Files
failed_desk = desk_with (record (item DocumentType.passport) {
  row = record waiting { status = RowStatus.finished ProcessingStatus.failed; attempts = 3 };
  summary = record { stage = some Stage.file_load; ocr = none };
})

-- The folder is the client's number, and a name is the code of the version.
abbrev pub short_names : Naming
short_names = record {
  folder = λ passport_id t. passport_id;
  standard_name = λ t mime_type n. n ∷ [];
  kept_name = λ path mime_type created n. codes "kept" ++ n ∷ [];
  mime_type_for_path = λ path. some (codes "application/pdf");
}

abbrev pub request : Request
request = record {
  admin_id = codes "admin";
  temporary_id = codes "a1";
  reason = none;
  given_date = none;
  document_id = some (codes "d1");
  new_document_id = codes "d1";
  now = 7;
}
