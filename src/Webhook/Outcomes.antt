-- ===== src/Webhook/Outcomes.antt =====
-- How a message of the webhook ends (routes/whatsapp.js), when the removals of uploads succeed.
use emlynk_wabot.Prelude.{
  ◌≡◌, ◌⊎◌, inl, inr, Bool, true, false, not, Option, none, some, List, [], ◌∷◌, Text, text_eq,
  text_eq_refl, any, keep, length, or_else, arith, refl, ap, subst, is_some, Bool-cases,
}
use emlynk_wabot.Images.Files.{FileReason, validate_document_file}
use emlynk_wabot.Webhook.{
  Recorded, World, Message, Metadata, Download, Effects, extract_document_metadata, removed,
  has_message, added, insert_record, upload, checked, downloaded, with_metadata,
  handle_media_message,
}

abbrev pub refused_bytes : Metadata → Download → Bool
refused_bytes d Download.rejected = true
refused_bytes d Download.failed = false
refused_bytes d (Download.bytes content) =
    is_some (validate_document_file d.mime_type (some (length content)) (some content))

-- A message without media, or with a file that is refused on purpose.
unfoldable pub IsRefused : Message → Effects → Type 0
IsRefused m e =
    (extract_document_metadata m ≡ none)
    ⊎ ((d : Metadata) × (extract_document_metadata m ≡ some d)
        × (refused_bytes d e.download ≡ true))

-- How a message ends: what is left, and whether it is handled.
pub data Outcome (m : Message) (e : Effects) (w : World) : World × Bool → Type 0 where
  refuses : IsRefused m e → Outcome m e w (w, true)
  known : has_message (or_else m.id []) w ≡ true → Outcome m e w (w, true)
  retries : Outcome m e w (w, false)
  records :
      (r : Recorded)
      → r.message_id ≡ or_else m.id []
      → has_message r.message_id w ≡ false
      → any (λ o. text_eq r.temporary_storage_path o) w.objects ≡ false
      → Outcome m e w (added r w, true)

keep-absent :
    (path : Text) (objects : List Text)
    → any (λ o. text_eq path o) objects ≡ false
    → keep (λ o. not (text_eq path o)) objects ≡ objects
keep-absent path [] h = refl
keep-absent path (o ∷ objects) h =
    let here : text_eq path o ≡ false = ground (arith, h) in
    let later : any (λ p. text_eq path p) objects ≡ false = ground (arith, h) in
    rw here (ap (λ l. o ∷ l) (keep-absent path objects later))

-- An upload that is taken back.
removed-uploaded :
    (path : Text) (w : World)
    → any (λ o. text_eq path o) w.objects ≡ false
    → removed true path (record w { objects = path ∷ w.objects }) ≡ w
removed-uploaded path w fresh =
    rw (text_eq_refl path)
      (ap (λ (l : List Text). record w { objects = l }) (keep-absent path w.objects fresh))

insert_record-Outcome :
    (m : Message) (r : Recorded) (e : Effects) (w : World)
    → e.removal_works ≡ true
    → r.message_id ≡ or_else m.id []
    → any (λ o. text_eq r.temporary_storage_path o) w.objects ≡ false
    → Outcome m e w (insert_record r e w)
unfolding insert_record
insert_record-Outcome m r e w works same fresh = elim (Bool-cases e.insert_works) [
  | inr fails ↦ rw fails (rw works (rw (removed-uploaded r.temporary_storage_path w fresh) retries))
  | inl inserted ↦ elim (Bool-cases (has_message r.message_id w)) [
    | inl twice ↦ rw inserted (
        rw twice (
          rw works (
            rw (removed-uploaded r.temporary_storage_path w fresh)
              (known (subst (λ i. has_message i w ≡ true) same twice)))))
    | inr once ↦ rw inserted (rw once (records r same once fresh))
  ]
]

module _ (sha256 : Text → Text) where
  upload-Outcome :
      (m : Message) (d : Metadata) (content : Text) (e : Effects) (w : World) (path : Option Text)
      → e.removal_works ≡ true
      → Outcome m e w (upload sha256 m d content e w path)
  unfolding upload
  upload-Outcome m d content e w none works = retries
  upload-Outcome m d content e w (some path) works =
      elim (Bool-cases (any (λ o. text_eq path o) w.objects)) [
        | inl taken ↦ rw taken retries
        | inr fresh ↦ rw fresh (
            insert_record-Outcome m
              (record {
                message_id = or_else m.id [];
                whatsapp_number = or_else m.sender [];
                temporary_storage_path = path;
                file_sha256 = sha256 content;
                original_filename = d.file_name;
                received_at = m.received_at;
              })
              e w works refl fresh)
      ]

  checked-Outcome :
      (m : Message) (d : Metadata) (content : Text) (e : Effects) (w : World)
      (found : Option FileReason)
      → e.removal_works ≡ true
      → (is_some found ≡ true → IsRefused m e)
      → Outcome m e w (checked sha256 m d content e w found)
  checked-Outcome m d content e w (some reason) works why = refuses (why refl)
  checked-Outcome m d content e w none works why = upload-Outcome m d content e w e.path works

  downloaded-Outcome :
      (m : Message) (d : Metadata) (e : Effects) (w : World) (download : Download)
      → e.removal_works ≡ true
      → (refused_bytes d download ≡ true → IsRefused m e)
      → Outcome m e w (downloaded sha256 m d e w download)
  downloaded-Outcome m d e w Download.rejected works why = refuses (why refl)
  downloaded-Outcome m d e w Download.failed works why = retries
  downloaded-Outcome m d e w (Download.bytes content) works why =
      checked-Outcome m d content e w
        (validate_document_file d.mime_type (some (length content)) (some content)) works why

  with_metadata-Outcome :
      (m : Message) (e : Effects) (w : World) (found : Option Metadata)
      → e.removal_works ≡ true
      → extract_document_metadata m ≡ found
      → Outcome m e w (with_metadata sha256 m e w found)
  unfolding IsRefused
  with_metadata-Outcome m e w none works read = refuses (inl read)
  with_metadata-Outcome m e w (some d) works read =
      downloaded-Outcome m d e w e.download works (λ h. inr (d, read, h))

  -- A media message is handled in one of four ways, if the removal of an upload succeeds: it is refused
  -- on purpose or is on record already, and nothing changes; it is to be sent again, and nothing changes;
  -- or one row with its id is added, together with the file that the row names, under a new path.
  pub handle_media_message-Outcome :
      (m : Message) (e : Effects) (w : World)
      → e.removal_works ≡ true
      → Outcome m e w (handle_media_message sha256 m e w)
  unfolding handle_media_message
  handle_media_message-Outcome m e w works =
      with_metadata-Outcome m e w (extract_document_metadata m) works refl
