-- ===== src/Tests/Storage.antt =====
-- Filing on a small bucket, with one document on record.
use mathlib.Core.List.{Memᴰ}
use emlynk_wabot.Storage.Place.Pending.{IsHeldAlready, IsHeldNow, copied, place_in_pending-once}
use emlynk_wabot.Prelude.{
  All, ◌⊎◌, ℕ, ◌+◌, ◌≡◌, refl, true, false, Bool, none, some, [], ◌∷◌, Text, codes, text_eq,
  if◌then◌else◌, ◌==◌,
}
use emlynk_wabot.Classification.{DocumentType}
use emlynk_wabot.Confidence.{Band}
use emlynk_wabot.Placement.{Place, Decision, ChecksumOutcome, ProcessingStatus, Request}
use emlynk_wabot.Queue.Table.{Row, update_many}
use emlynk_wabot.Queue.Claims.{claimed, create_claim, renew, owns}
use emlynk_wabot.Storage.Documents.{Document, VerificationStatus}
use emlynk_wabot.Storage.Copy.{CopyResult, Port, copy_to_free_name}
use emlynk_wabot.Storage.Copy.Keeps.{IsStorage, IsCopy, copy_to_free_name-IsCopy}
use emlynk_wabot.Storage.World.{renew_held, World}
use emlynk_wabot.Storage.Client.{
  Filing, Inserted, StoreResult, insert_claimed, clean_up, record_copy, store_client_document,
}
use emlynk_wabot.Storage.Client.Safe.{store_client_document-IsSafe}
use emlynk_wabot.Storage.Client.Stale.{violation-claim_lost}
use emlynk_wabot.Storage.Place.{PlaceResult, known_duplicate, place_in_pending, Context}
use emlynk_wabot.Tests.Data.{waiting}
use emlynk_wabot.Tests.Bucket.{Files, file_at, file_bucket, file_bucket-IsBucket}

abbrev old : Document
old = record {
  document_id = codes "d0";
  passport_id = codes "N1234567";
  document_type = DocumentType.passport;
  storage_path = codes "clients/N1234567/passport/passport.pdf";
  verification_status = VerificationStatus.verified;
  file_sha256 = codes "old";
  temporary_id = none;
}

abbrev files : Files
files =
    (codes "temporary/a1.pdf", codes "ff")
    ∷ (codes "clients/N1234567/passport/passport.pdf", codes "old")
    ∷ []

abbrev taken : Row
taken = claimed 1 waiting

abbrev ticks : ℕ → ℕ
ticks n = 2 + n

abbrev no_failure : Document → Bool
no_failure d = false

abbrev world : World Files
world = record {
  bucket = files;
  documents = old ∷ [];
  rows = taken ∷ [];
  held = some (create_claim taken);
  calls = 0;
}

abbrev name : ℕ → Text
name n = if n == 1 then codes "passport.pdf" else codes "passport_v2.pdf"

abbrev filing : Filing
filing = record {
  temporary_storage_path = codes "temporary/a1.pdf";
  passport_id = codes "N1234567";
  document_type = DocumentType.passport;
  band = Band.verified;
  file_sha256 = codes "ff";
  temporary_id = some (codes "a1");
  document_id = codes "d1";
  folder = codes "clients/N1234567/passport";
  kept_name = name;
  standard_name = name;
}

-- The bucket alone, without hooks.
abbrev plain_port : Port Files
plain_port = record {
  exists = file_bucket.exists;
  copy = file_bucket.copy;
  before_copy = λ path f. (f, true);
  reuse_existing = λ path f. false;
}

plain_port-IsStorage : IsStorage plain_port file_at
plain_port-IsStorage = record {
  copy_keeps = file_bucket-IsBucket.copy_keeps;
  copy_makes = file_bucket-IsBucket.copy_makes;
  hook_keeps = λ to path s. refl;
}

copy_to_free_name-IsCopy_example :
    IsCopy plain_port file_at
      (codes "temporary/a1.pdf")
      (codes "clients/N1234567/passport")
      name
      1
      20
      files
      (copy_to_free_name plain_port
        (codes "temporary/a1.pdf")
        (codes "clients/N1234567/passport")
        name
        1
        files)
copy_to_free_name-IsCopy_example =
    copy_to_free_name-IsCopy plain_port file_at plain_port-IsStorage (codes "temporary/a1.pdf")
      (codes "clients/N1234567/passport") name 1 files

-- Since the copy another attempt has put a document with the copy's path on record, and the clock
-- stands still.
abbrev still_clock : ℕ → ℕ
still_clock n = 1

abbrev copy_path : Text
copy_path = codes "clients/N1234567/passport/passport_v2.pdf"

abbrev filed_meanwhile : World Files
filed_meanwhile = record world {
  bucket = (copy_path, codes "ff") ∷ files;
  documents = record old { storage_path = copy_path; file_sha256 = codes "ff" } ∷ old ∷ [];
}

-- The clean-up asks for the documents, and keeps the copy.
meanwhile_kept :
    (record_copy file_bucket still_clock no_failure filing VerificationStatus.verified
      (filed_meanwhile, CopyResult.placed copy_path 2 false)).1
    ≡ StoreResult.error
unfolding record_copy insert_claimed clean_up renew owns update_many create_claim text_eq renew_held
meanwhile_kept = refl

store_client_document-IsSafe_example :
    (file_at
        ((store_client_document file_bucket still_clock no_failure filing world).0).bucket
        (codes "clients/N1234567/passport/passport.pdf")
      ≡ some (codes "old"))
    × (file_at
          ((record_copy file_bucket still_clock no_failure filing VerificationStatus.verified
              (filed_meanwhile, CopyResult.placed copy_path 2 false)).0
            ).bucket
          copy_path
        ≡ some (codes "ff"))
unfolding text_eq
store_client_document-IsSafe_example =
    store_client_document-IsSafe file_bucket file_at file_bucket-IsBucket still_clock no_failure
      filing world refl (codes "clients/N1234567/passport/passport.pdf") (codes "old") refl refl
      filed_meanwhile refl VerificationStatus.verified (CopyResult.placed copy_path 2 false)
      copy_path (codes "ff") refl refl

-- The client already has the file: another document with the same checksum.
abbrev again : Document
again = record old {
  document_id = codes "d1";
  storage_path = codes "clients/N1234567/passport/passport_v2.pdf";
}

violation-claim_lost_example :
    ((insert_claimed file_bucket ticks no_failure again world).1 ≡ Inserted.unique_violation)
    × ((clean_up file_bucket ticks no_failure again.storage_path Inserted.unique_violation
          (insert_claimed file_bucket ticks no_failure again world).0).1
        ≡ StoreResult.claim_lost)
unfolding text_eq renew owns update_many create_claim
violation-claim_lost_example =
    violation-claim_lost file_bucket ticks no_failure again world (create_claim taken)
      again.storage_path refl (tt, tt) (λ e. cc e) (λ e. cc e) refl

abbrev context : Context
context = record {
  filing = filing;
  whatsapp_number = codes "94771234567";
  temporary_id = codes "a1";
  existing_document = none;
  pending_folder = λ owner. codes "pending/U1/undefined/uncleared-docs";
  pending_name = name;
}

abbrev ask : Request
ask = record {
  processing_status = ProcessingStatus.verified;
  band = Band.verified;
  document_type = DocumentType.passport;
  client_identified = true;
  unique_id = some (codes "U1");
  checksum_outcome = some ChecksumOutcome.new;
  review_blocked = false;
  verified_of_type_exists = true;
  duplicate_of_verified = false;
}

abbrev held_decision : Decision
held_decision = record {
  placement = Place.pending;
  processing_status = ProcessingStatus.manual_review;
  pending_owner = some (codes "U1");
  already_stored = false;
}

place_in_pending-once_example :
    ((r : Row) × Memᴰ r world.rows
      × IsHeldAlready (codes "94771234567") (codes "ff") (codes "a1") r
      × (place_in_pending file_bucket ticks no_failure held_decision context world
          ≡ (world, PlaceResult.done known_duplicate)))
    ⊎ (All (λ r. ¬ IsHeldAlready (codes "94771234567") (codes "ff") (codes "a1") r) world.rows
        × ((place_in_pending file_bucket ticks no_failure held_decision context world).0
            ≡ (copied file_bucket ticks no_failure held_decision context world).0)
        × IsHeldNow file_bucket ticks no_failure held_decision context world
            (place_in_pending file_bucket ticks no_failure held_decision context world).1)
place_in_pending-once_example =
    place_in_pending-once file_bucket ticks no_failure held_decision context world (λ e. cc e)
      (λ e. cc e)
