-- ===== src/Tests/Webhook.antt =====
-- Deliveries of a few messages.
use emlynk_wabot.Prelude.{
  ◌≡◌, ◌⊎◌, Bool, true, false, none, some, List, [], ◌∷◌, Text, codes, refl, text_eq,
}
use emlynk_wabot.Images.Files.{file_signature_matches, validate_document_file}
use emlynk_wabot.Messages.{
  default_settings, prune_expired, release, state_of, drop_oldest, set, claim,
}
use emlynk_wabot.Webhook.{
  MessageType, Message, Download, extract_document_metadata, has_message, insert_record, upload,
  handle_media_message, State, handle_claimed_message, handle_message, Arrival, deliver,
}
use emlynk_wabot.Webhook.Outcomes.{IsRefused}
use emlynk_wabot.Webhook.Sound.{IsSound, deliver-IsSound, acknowledged-kept}

abbrev plain : Text → Text
plain t = t

abbrev pdf_message : Text → Message
pdf_message id = record {
  id = some id;
  sender = some (codes "94771234567");
  type = MessageType.document;
  media = some (record {
    id = some (codes "m");
    filename = none;
    mime_type = some (codes "application/pdf");
  });
  received_at = none;
}

abbrev arrives : Text → Bool → Text → Arrival
arrives path inserted id = record {
  message = pdf_message id;
  effects = record {
    download = Download.bytes (codes "%PDF-1");
    path = some path;
    insert_works = inserted;
    removal_works = true;
  };
  time = 1;
  done = 2;
}

abbrev empty : State
empty = record { cache = []; world = record { objects = []; records = [] } }

abbrev arrivals : List Arrival
arrivals =
    arrives (9 ∷ []) true (1 ∷ [])
    ∷ arrives (8 ∷ []) false (2 ∷ [])
    ∷ arrives (7 ∷ []) true (1 ∷ [])
    ∷ []

-- The second message is to be sent again; the third is the first one again.
delivered : (deliver default_settings plain arrivals empty).1 ≡ false
unfolding deliver handle_message handle_claimed_message handle_media_message
    extract_document_metadata upload insert_record validate_document_file file_signature_matches
    claim set release state_of drop_oldest prune_expired text_eq
delivered = refl

kept_objects : (deliver default_settings plain arrivals empty).0.world.objects ≡ (9 ∷ []) ∷ []
unfolding deliver handle_message handle_claimed_message handle_media_message
    extract_document_metadata upload insert_record validate_document_file file_signature_matches
    claim set release state_of drop_oldest prune_expired text_eq
kept_objects = refl

empty-IsSound : IsSound empty.world
empty-IsSound = record { stored = tt; referenced = tt; unique = tt }

deliver-IsSound_example : IsSound (deliver default_settings plain arrivals empty).0.world
deliver-IsSound_example =
    deliver-IsSound default_settings plain arrivals empty (refl, (refl, (refl, tt))) empty-IsSound

abbrev one_message : Arrival
one_message = arrives (9 ∷ []) true (1 ∷ [])

claimed_first : (claim default_settings 1 (1 ∷ []) []).1 ≡ true
unfolding claim set release state_of drop_oldest prune_expired
claimed_first = refl

acknowledged_first :
    (handle_message default_settings plain 1 2 one_message.message one_message.effects empty).1
    ≡ true
unfolding handle_message handle_claimed_message handle_media_message extract_document_metadata
    upload insert_record validate_document_file file_signature_matches claim set release state_of
    drop_oldest prune_expired text_eq
acknowledged_first = refl

acknowledged-kept_example :
    IsRefused one_message.message one_message.effects
    ⊎ (has_message
          (1 ∷ [])
          (handle_message default_settings plain 1 2 one_message.message one_message.effects
            empty).0.world
        ≡ true)
acknowledged-kept_example =
    acknowledged-kept default_settings plain 1 2 one_message.message one_message.effects empty refl
      refl refl claimed_first acknowledged_first
