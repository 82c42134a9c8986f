-- ===== src/Webhook/Kept.antt =====
-- A message of the webhook (routes/whatsapp.js) that is handled, also when the removal of an upload
-- fails.
use emlynk_wabot.Prelude.{
  ◌≡◌, ◌⊎◌, inl, inr, Bool, true, false, Option, none, some, [], ◌∷◌, Text, text_eq, text_eq_iff,
  subst, ◌∙◌, any, length, or_else, refl, is_some, Bool-cases,
}
use emlynk_wabot.Images.Files.{FileReason, validate_document_file}
use emlynk_wabot.Webhook.{
  Recorded, World, Message, Metadata, Download, Effects, extract_document_metadata, removed,
  has_message, insert_record, upload, checked, downloaded, with_metadata, handle_media_message,
}
use emlynk_wabot.Webhook.Outcomes.{IsRefused, refused_bytes}

-- What is handled was refused on purpose, or has a row.
abbrev pub IsHandled : Message → Effects → World × Bool → Type 0
IsHandled m e out = out.1 ≡ true → IsRefused m e ⊎ (has_message (or_else m.id []) out.0 ≡ true)

removed-has :
    (works : Bool) (path id : Text) (w : World)
    → has_message id (removed works path w) ≡ has_message id w
removed-has true path id w = refl
removed-has false path id w = refl

insert_record-IsHandled :
    (m : Message) (r : Recorded) (e : Effects) (w : World)
    → r.message_id ≡ or_else m.id []
    → IsHandled m e (insert_record r e w)
unfolding insert_record
insert_record-IsHandled m r e w same = elim (Bool-cases e.insert_works) [
  | inr fails ↦ rw fails (λ h. absurd (cc h))
  | inl inserted ↦ elim (Bool-cases (has_message r.message_id w)) [
    | inl twice ↦ rw inserted (
        rw twice (λ _. inr (
          removed-has e.removal_works r.temporary_storage_path (or_else m.id [])
            (record w { objects = r.temporary_storage_path ∷ w.objects })
          ∙ subst (λ i. has_message i w ≡ true) same twice)))
    | inr once ↦
        rw inserted
          (rw once (λ _. inr (rw ((text_eq_iff r.message_id (or_else m.id [])).1 same) refl)))
  ]
]

module _ (sha256 : Text → Text) where
  upload-IsHandled :
      (m : Message) (d : Metadata) (content : Text) (e : Effects) (w : World) (path : Option Text)
      → IsHandled m e (upload sha256 m d content e w path)
  unfolding upload
  upload-IsHandled m d content e w none = λ h. absurd (cc h)
  upload-IsHandled m d content e w (some path) =
      elim (Bool-cases (any (λ o. text_eq path o) w.objects)) [
        | inl taken ↦ rw taken (λ h. absurd (cc h))
        | inr fresh ↦ rw fresh (insert_record-IsHandled m _ e w refl)
      ]

  checked-IsHandled :
      (m : Message) (d : Metadata) (content : Text) (e : Effects) (w : World)
      (found : Option FileReason)
      → (is_some found ≡ true → IsRefused m e)
      → IsHandled m e (checked sha256 m d content e w found)
  checked-IsHandled m d content e w (some reason) why = λ _. inl (why refl)
  checked-IsHandled m d content e w none why = upload-IsHandled m d content e w e.path

  downloaded-IsHandled :
      (m : Message) (d : Metadata) (e : Effects) (w : World) (download : Download)
      → (refused_bytes d download ≡ true → IsRefused m e)
      → IsHandled m e (downloaded sha256 m d e w download)
  downloaded-IsHandled m d e w Download.rejected why = λ _. inl (why refl)
  downloaded-IsHandled m d e w Download.failed why = λ h. absurd (cc h)
  downloaded-IsHandled m d e w (Download.bytes content) why =
      checked-IsHandled m d content e w
        (validate_document_file d.mime_type (some (length content)) (some content)) why

  with_metadata-IsHandled :
      (m : Message) (e : Effects) (w : World) (found : Option Metadata)
      → extract_document_metadata m ≡ found
      → IsHandled m e (with_metadata sha256 m e w found)
  unfolding IsRefused
  with_metadata-IsHandled m e w none read = λ _. inl (inl read)
  with_metadata-IsHandled m e w (some d) read =
      downloaded-IsHandled m d e w e.download (λ h. inr (d, read, h))

  pub handle_media_message-IsHandled :
      (m : Message) (e : Effects) (w : World) → IsHandled m e (handle_media_message sha256 m e w)
  unfolding handle_media_message
  handle_media_message-IsHandled m e w =
      with_metadata-IsHandled m e w (extract_document_metadata m) refl
