-- ===== src/Webhook.antt =====
-- routes/whatsapp.js: the messages of a webhook delivery, over the cache of message ids, the objects in
-- temporary/ and the rows of temporary_data. What the network, the storage and the database answer is
-- given with each message; a call that throws has changed nothing. The messages of one delivery are
-- handled one after the other, while no other delivery runs.
pub mod Outcomes
pub mod Kept
pub mod Sound
use emlynk_wabot.Prelude.{
  ℕ, Bool, true, false, ◌&&◌, ◌||◌, not, Option, none, some, List, [], ◌∷◌, Text, text_eq, codes,
  any, keep, length, is_truthy, or_else, if◌then◌else◌,
}
use emlynk_wabot.Images.Files.{FileReason, validate_document_file}
use emlynk_wabot.Messages.{Entry, MessageState, Settings, release, state_of, claim, complete}

-- A row that createTemporaryDocumentRecord writes.
pub record Recorded : Type 0 where
  pub message_id : Text
  pub whatsapp_number : Text
  pub temporary_storage_path : Text
  pub file_sha256 : Text
  pub original_filename : Option Text
  pub received_at : Option ℕ

pub record World : Type 0 where
  pub objects : List Text
  pub records : List Recorded

-- The media fields of a message; `document` tells its type from image.
pub record Media : Type 0 where
  pub id : Option Text
  pub filename : Option Text
  pub mime_type : Option Text

pub data MessageType : Type 0 where
  document image other : MessageType

pub record Message : Type 0 where
  pub id : Option Text
  pub sender : Option Text
  pub type : MessageType
  pub media : Option Media
  pub received_at : Option ℕ

-- What the download gives: MediaRejectedError, another error, or the bytes.
pub data Download : Type 0 where
  rejected failed : Download
  bytes : Text → Download

-- What the calls for one message answer. `path` is the new path of the upload, or none if it fails.
pub record Effects : Type 0 where
  pub download : Download
  pub path : Option Text
  pub insert_works : Bool
  pub removal_works : Bool

abbrev pub is_supported : MessageType → Bool
is_supported MessageType.document = true
is_supported MessageType.image = true
is_supported MessageType.other = false

pub record Metadata : Type 0 where
  pub media_id : Text
  pub file_name : Option Text
  pub mime_type : Option Text

abbrev pub file_name_of : MessageType → Media → Option Text
file_name_of MessageType.document media = media.filename
file_name_of MessageType.image media = none
file_name_of MessageType.other media = none

-- extractDocumentMetadata of utils/whatsappMedia.js
unfoldable pub extract_document_metadata : Message → Option Metadata
extract_document_metadata m = if not (is_supported m.type) then none else elim m.media [
  | none ↦ none
  | some media ↦
      if is_truthy media.id
      then some (record {
        media_id = or_else media.id [];
        file_name = file_name_of m.type media;
        mime_type = media.mime_type;
      })
      else none
]

-- removeTemporary, which may fail
abbrev pub removed : Bool → Text → World → World
removed works path w =
    if works then record w { objects = keep (λ o. not (text_eq path o)) w.objects } else w

abbrev pub has_message : Text → World → Bool
has_message id w = any (λ (r : Recorded). text_eq r.message_id id) w.records

abbrev pub added : Recorded → World → World
added r w = record { objects = r.temporary_storage_path ∷ w.objects; records = r ∷ w.records }

-- What handleMediaMessage does once the file is uploaded.
unfoldable pub insert_record : Recorded → Effects → World → World × Bool
insert_record r e w =
    let uploaded : World = record w { objects = r.temporary_storage_path ∷ w.objects } in
    if not e.insert_works
    then (removed e.removal_works r.temporary_storage_path uploaded, false)
    else if has_message r.message_id w
    then (removed e.removal_works r.temporary_storage_path uploaded, true)
    else (added r w, true)

-- The upload of the bytes to a path, which fails if the path is taken.
unfoldable pub upload :
    (Text → Text) → Message → Metadata → Text → Effects → World → Option Text → World × Bool
upload sha256 m d content e w none = (w, false)
upload sha256 m d content e w (some path) =
    if any (λ o. text_eq path o) w.objects
    then (w, false)
    else insert_record
        (record {
          message_id = or_else m.id [];
          whatsapp_number = or_else m.sender [];
          temporary_storage_path = path;
          file_sha256 = sha256 content;
          original_filename = d.file_name;
          received_at = m.received_at;
        })
        e w

-- What follows the check of the bytes.
abbrev pub checked :
    (Text → Text) → Message → Metadata → Text → Effects → World → Option FileReason → World × Bool
checked sha256 m d content e w (some reason) = (w, true)
checked sha256 m d content e w none = upload sha256 m d content e w e.path

abbrev pub downloaded :
    (Text → Text) → Message → Metadata → Effects → World → Download → World × Bool
downloaded sha256 m d e w Download.rejected = (w, true)
downloaded sha256 m d e w Download.failed = (w, false)
downloaded sha256 m d e w (Download.bytes content) =
    checked sha256 m d content e w
      (validate_document_file d.mime_type (some (length content)) (some content))

abbrev pub with_metadata :
    (Text → Text) → Message → Effects → World → Option Metadata → World × Bool
with_metadata sha256 m e w none = (w, true)
with_metadata sha256 m e w (some d) = downloaded sha256 m d e w e.download

-- handleMediaMessage: false stands for RetryableMessageError
unfoldable pub handle_media_message : (Text → Text) → Message → Effects → World → World × Bool
handle_media_message sha256 m e w = with_metadata sha256 m e w (extract_document_metadata m)

pub record State : Type 0 where
  pub cache : List Entry
  pub world : World

abbrev pub settled : Settings → ℕ → Text → List Entry → World × Bool → State × Bool
settled settings time id cache (w, true) =
    (record { cache = complete settings time id cache; world = w }, true)
settled settings time id cache (w, false) = (record { cache = release id cache; world = w }, false)

-- handleClaimedMessage
unfoldable pub handle_claimed_message :
    Settings → (Text → Text) → ℕ → Text → Message → Effects → State → State × Bool
handle_claimed_message settings sha256 time id m e s =
    settled settings time id s.cache
      (if is_supported m.type then handle_media_message sha256 m e s.world else (s.world, true))

abbrev pub is_processed : Option MessageState → Bool
is_processed none = false
is_processed (some MessageState.in_progress) = false
is_processed (some MessageState.processed) = true

-- handleMessage, with the time of the claim and of the end of the handling
unfoldable pub handle_message :
    Settings → (Text → Text) → ℕ → ℕ → Message → Effects → State → State × Bool
handle_message settings sha256 time done m e s =
    if not (is_truthy m.id) || not (is_truthy m.sender)
    then (s, true)
    else let id = or_else m.id [] in
      let claimed = claim settings time id s.cache in
      if claimed.1
      then handle_claimed_message settings sha256 done id m e (record s { cache = claimed.0 })
      else (record s { cache = claimed.0 }, is_processed (state_of time id claimed.0))

-- A message of a delivery with its times and answers.
pub record Arrival : Type 0 where
  pub message : Message
  pub effects : Effects
  pub time : ℕ
  pub done : ℕ

-- The loop of POST /webhook: true stands for the answer 200, false for 500.
unfoldable pub deliver : Settings → (Text → Text) → List Arrival → State → State × Bool
deliver settings sha256 [] s = (s, true)
deliver settings sha256 (a ∷ rest) s =
    let handled = handle_message settings sha256 a.time a.done a.message a.effects s in
    let later = deliver settings sha256 rest handled.0 in (later.0, handled.1 && later.1)
