-- ===== src/Tests/Admin.antt =====
-- The actions of the admins on small desks.
use emlynk_wabot.Prelude.{
  ◌≡◌, refl, true, false, none, some, [], ◌∷◌, Text, codes, any, text_eq, arith,
}
use emlynk_wabot.Classification.{DocumentType}
use emlynk_wabot.Storage.Documents.{VerificationStatus}
use emlynk_wabot.Storage.Copy.{copy_to_free_name, copy_tries}
use emlynk_wabot.Admin.Tables.{
  Filed, Tables, find_pending, find_verified_of_type, duplicate_match_of, find_duplicate_match,
  lock_client_row, create, update_item,
}
use emlynk_wabot.Admin.Checks.{
  ReviewError, Result, ok, err, ◌>>=◌, reread, read_waiting_file, approval_blocker,
  police_date_for_approval,
}
use emlynk_wabot.Admin.Filing.{
  Desk, approve_pending, prepare_approval, approval_row, settle, attempt,
}
use emlynk_wabot.Admin.Versions.{replace_verified_document, keep_document_as_version}
use emlynk_wabot.Admin.Removal.{requeue, retry_failed_submission}
use emlynk_wabot.Admin.System.{Step, approves, here, next}
use emlynk_wabot.Admin.Verified.{IsSingle}
use emlynk_wabot.Admin.Verified.Reachable.{Reach-IsSingle}
use emlynk_wabot.Admin.Records.{IsRecorded}
use emlynk_wabot.Admin.Records.Steps.{Step-IsRecorded}
use emlynk_wabot.Admin.Files.{IsMove}
use emlynk_wabot.Admin.Files.Actions.{filing-IsMove}
use emlynk_wabot.Admin.Retry.{is_queued, retry-once}
use emlynk_wabot.Admin.Undated.{retyped-undated}
use emlynk_wabot.Tests.Bucket.{Files, file_at, file_bucket, file_bucket-IsBucket}
use emlynk_wabot.Tests.Desk.{
  item, waiting_path, passport_desk, slip_desk, failed_desk, short_names, request,
}

-- The first name in the client's folder.
abbrev first_path : Text
first_path = 78 ∷ 49 ∷ 47 ∷ 1 ∷ []

passport_approved :
    (approve_pending file_bucket short_names false request passport_desk passport_desk).1
    ≡ ok first_path
unfolding approve_pending prepare_approval approval_row settle attempt reread read_waiting_file
    approval_blocker police_date_for_approval find_pending find_verified_of_type duplicate_match_of
    find_duplicate_match lock_client_row create ◌>>=◌ copy_to_free_name copy_tries text_eq
passport_approved = refl

slip_needs_date :
    (approve_pending file_bucket short_names false request slip_desk slip_desk).1
    ≡ err ReviewError.police_date_required
unfolding approve_pending prepare_approval approval_row settle attempt reread read_waiting_file
    approval_blocker police_date_for_approval find_pending find_verified_of_type duplicate_match_of
    find_duplicate_match lock_client_row create ◌>>=◌ copy_to_free_name copy_tries text_eq
slip_needs_date = refl

retyped_approved :
    (approve_pending file_bucket short_names false request passport_desk slip_desk).1
    ≡ ok first_path
unfolding approve_pending prepare_approval approval_row settle attempt reread read_waiting_file
    approval_blocker police_date_for_approval find_pending find_verified_of_type duplicate_match_of
    find_duplicate_match lock_client_row create ◌>>=◌ copy_to_free_name copy_tries text_eq
retyped_approved = refl

-- The second of two approvals finds no waiting file.
approved_twice :
    (approve_pending file_bucket short_names false request passport_desk
      (approve_pending file_bucket short_names false request passport_desk passport_desk).0).1
    ≡ err ReviewError.already_resolved
unfolding approve_pending prepare_approval approval_row settle attempt reread read_waiting_file
    approval_blocker police_date_for_approval find_pending find_verified_of_type duplicate_match_of
    find_duplicate_match lock_client_row create ◌>>=◌ copy_to_free_name copy_tries text_eq
    update_item
approved_twice = refl

empty-IsSingle : IsSingle []
empty-IsSingle = record { single = λ p t. omega arith; unique = tt }

abbrev approval :
    Step file_bucket short_names passport_desk
      (approve_pending file_bucket short_names false request passport_desk passport_desk).0
approval = approves false request passport_desk

Reach-IsSingle_example :
    IsSingle
      (((approve_pending file_bucket short_names false request passport_desk passport_desk).0
        ).tables).documents
Reach-IsSingle_example = Reach-IsSingle file_bucket short_names (next here approval) empty-IsSingle

Step-IsRecorded_example :
    IsRecorded passport_desk.tables
      ((approve_pending file_bucket short_names false request passport_desk passport_desk).0).tables
Step-IsRecorded_example = Step-IsRecorded file_bucket short_names approval

waiting_found :
    find_pending (codes "a1") passport_desk.tables.items ≡ some (item DocumentType.passport)
unfolding find_pending text_eq
waiting_found = refl

slip_found : find_pending (codes "a1") slip_desk.tables.items ≡ some (item DocumentType.police_slip)
unfolding find_pending text_eq
slip_found = refl

file_waits : file_at passport_desk.bucket waiting_path ≡ some (codes "ff")
unfolding text_eq
file_waits = refl

abbrev Moves : Desk Files × Result Text → Type 0
Moves r = IsMove file_bucket file_at file_bucket-IsBucket waiting_path (codes "ff") passport_desk r

filing-IsMove_example :
    Moves (approve_pending file_bucket short_names false request passport_desk passport_desk)
    × Moves (
        replace_verified_document file_bucket short_names false request passport_desk passport_desk)
    × Moves
        (keep_document_as_version file_bucket short_names false request passport_desk passport_desk)
filing-IsMove_example =
    filing-IsMove file_bucket file_at file_bucket-IsBucket short_names false request passport_desk
      passport_desk (item DocumentType.passport) (codes "ff") waiting_found file_waits

abbrev tables_of : Result Tables → Tables
tables_of (ok t) = t
tables_of (err e) = failed_desk.tables

abbrev retry : Tables → Result Tables
retry t = retry_failed_submission file_bucket 9 (codes "admin") none (codes "a1") failed_desk t

retried : retry failed_desk.tables ≡ ok (tables_of (retry failed_desk.tables))
unfolding retry_failed_submission requeue ◌>>=◌ text_eq
retried = refl

retry-once_example :
    (any (is_queued 600000 1 (codes "a1")) (tables_of (retry failed_desk.tables)).items ≡ true)
    × ((e : ReviewError) × (retry (tables_of (retry failed_desk.tables)) ≡ err e))
retry-once_example =
    retry-once file_bucket 9 (codes "admin") none (codes "a1") failed_desk failed_desk.tables
      (tables_of (retry failed_desk.tables)) retried 600000 1 9 (codes "admin") none failed_desk

retyped-undated_example :
    (d : Filed) × ((((approve_pending file_bucket short_names false request passport_desk
          slip_desk).0
        ).tables).documents
      ≡ d ∷ [])
    × (d.document_type ≡ DocumentType.police_slip)
    × (d.verification_status ≡ VerificationStatus.verified)
    × (d.police_submitted_date ≡ none)
retyped-undated_example =
    retyped-undated file_bucket short_names false request passport_desk slip_desk
      (item DocumentType.passport) (item DocumentType.police_slip) first_path waiting_found refl
      slip_found refl retyped_approved
