-- ===== src/Webhook/Sound.antt =====
-- What a webhook delivery (routes/whatsapp.js) leaves in temporary/ and in temporary_data.
use emlynk_wabot.Prelude.{
  ℕ, ◌≡◌, ◌⊎◌, inl, inr, Bool, true, false, ◌||◌, not, List, [], ◌∷◌, Text, text_eq, text_eq_refl,
  any, or_else, is_truthy, All, All-map, arith, refl, sym, ap, ◌∙◌, subst, Bool-cases,
}
use emlynk_wabot.Messages.{Entry, Settings, claim}
use emlynk_wabot.Webhook.{
  Recorded, World, Message, Effects, is_supported, has_message, added, handle_media_message, State,
  settled, handle_claimed_message, handle_message, Arrival, deliver,
}
use emlynk_wabot.Webhook.Outcomes.{
  IsRefused, Outcome, refuses, known, retries, records, handle_media_message-Outcome,
}
use emlynk_wabot.Webhook.Kept.{handle_media_message-IsHandled}

abbrev pub HasUniqueIds : List Recorded → Type 0
HasUniqueIds [] = Unit
HasUniqueIds (r ∷ rest) =
    (any (λ (q : Recorded). text_eq q.message_id r.message_id) rest ≡ false) × HasUniqueIds rest

-- Every row has its file, every file has its row, and no message has two rows.
pub record IsSound (w : World) : Type 0 where
  pub stored :
      All
        (λ (r : Recorded). any (λ o. text_eq r.temporary_storage_path o) w.objects ≡ true)
        w.records
  pub referenced :
      All
        (λ o. any (λ (r : Recorded). text_eq r.temporary_storage_path o) w.records ≡ true)
        w.objects
  pub unique : HasUniqueIds w.records

or-true : (a b : Bool) → b ≡ true → (a || b) ≡ true
or-true a b h = ground (arith, h)

added-IsSound :
    (r : Recorded) (w : World)
    → has_message r.message_id w ≡ false
    → IsSound w
    → IsSound (added r w)
added-IsSound r w once s = record {
  stored = (
    rw (text_eq_refl r.temporary_storage_path) refl,
    All-map (λ (q : Recorded). any (λ o. text_eq q.temporary_storage_path o) w.objects ≡ true)
        (λ (q : Recorded).
          any (λ o. text_eq q.temporary_storage_path o) (r.temporary_storage_path ∷ w.objects)
          ≡ true)
        w.records (λ q h. or-true _ _ h) s.stored,
  );
  referenced = (
    rw (text_eq_refl r.temporary_storage_path) refl,
    All-map (λ o. any (λ (q : Recorded). text_eq q.temporary_storage_path o) w.records ≡ true)
        (λ o. any (λ (q : Recorded). text_eq q.temporary_storage_path o) (r ∷ w.records) ≡ true)
        w.objects (λ o h. or-true _ _ h) s.referenced,
  );
  unique = (once, s.unique);
}

Outcome-IsSound :
    (m : Message) (e : Effects) (w : World) (out : World × Bool)
    → Outcome m e w out
    → IsSound w
    → IsSound out.0
Outcome-IsSound m e w out (refuses why) s = s
Outcome-IsSound m e w out (known twice) s = s
Outcome-IsSound m e w out retries s = s
Outcome-IsSound m e w out (records r same once fresh) s = added-IsSound r w once s

settled-world :
    (settings : Settings) (time : ℕ) (id : Text) (cache : List Entry) (out : World × Bool)
    → (settled settings time id cache out).0.world ≡ out.0
settled-world settings time id cache (w, true) = refl
settled-world settings time id cache (w, false) = refl

module _ (settings : Settings) (sha256 : Text → Text) where
  claimed-IsSound :
      (time : ℕ) (id : Text) (m : Message) (e : Effects) (s : State)
      → e.removal_works ≡ true
      → IsSound s.world
      → IsSound (handle_claimed_message settings sha256 time id m e s).0.world
  unfolding handle_claimed_message
  claimed-IsSound time id m e s works sound = elim (Bool-cases (is_supported m.type)) [
    | inr other ↦ rw other sound
    | inl media ↦ rw media (
        rw (settled-world settings time id s.cache (handle_media_message sha256 m e s.world)) (
          Outcome-IsSound m e s.world (handle_media_message sha256 m e s.world)
            (handle_media_message-Outcome sha256 m e s.world works) sound))
  ]

  handle_message-IsSound :
      (time done : ℕ) (m : Message) (e : Effects) (s : State)
      → e.removal_works ≡ true
      → IsSound s.world
      → IsSound (handle_message settings sha256 time done m e s).0.world
  unfolding handle_message
  handle_message-IsSound time done m e s works sound =
      elim (Bool-cases (not (is_truthy m.id) || not (is_truthy m.sender))) [
        | inl ignored ↦ rw ignored sound
        | inr named ↦ elim (Bool-cases (claim settings time (or_else m.id []) s.cache).1) [
          | inl claimed ↦ rw named (
              rw claimed (
                claimed-IsSound done (or_else m.id []) m e
                  (record s { cache = (claim settings time (or_else m.id []) s.cache).0 }) works
                  sound))
          | inr busy ↦ rw named (rw busy sound)
        ]
      ]

  -- If every row of temporary_data has its file in temporary/, every file its row, and no message has
  -- two rows, then so it is after a delivery, whatever fails in it, as long as the removals succeed.
  pub deliver-IsSound :
      (arrivals : List Arrival) (s : State)
      → All (λ (a : Arrival). a.effects.removal_works ≡ true) arrivals
      → IsSound s.world
      → IsSound (deliver settings sha256 arrivals s).0.world
  unfolding deliver
  deliver-IsSound [] s works sound = sound
  deliver-IsSound (a ∷ rest) s (works, later) sound =
      deliver-IsSound rest (handle_message settings sha256 a.time a.done a.message a.effects s).0
        later (handle_message-IsSound a.time a.done a.message a.effects s works sound)

settled-answer :
    (settings : Settings) (time : ℕ) (id : Text) (cache : List Entry) (out : World × Bool)
    → (settled settings time id cache out).1 ≡ out.1
settled-answer settings time id cache (w, true) = refl
settled-answer settings time id cache (w, false) = refl

module _ (settings : Settings) (sha256 : Text → Text) where
  -- A media message with an id and a sender that is claimed and acknowledged is not lost: its file was
  -- refused on purpose, or temporary_data has a row with its id; also when the removal of an upload
  -- fails.
  pub acknowledged-kept :
      (time done : ℕ) (m : Message) (e : Effects) (s : State)
      → is_truthy m.id ≡ true
      → is_truthy m.sender ≡ true
      → is_supported m.type ≡ true
      → (claim settings time (or_else m.id []) s.cache).1 ≡ true
      → (handle_message settings sha256 time done m e s).1 ≡ true
      → IsRefused m e
        ⊎ (has_message (or_else m.id []) (handle_message settings sha256 time done m e s).0.world
            ≡ true)
  unfolding handle_message handle_claimed_message
  acknowledged-kept time done m e s named sent media claimed h =
      let id = or_else m.id [] in
      let cache = (claim settings time id s.cache).0 in
      let out = handle_media_message sha256 m e s.world in
      let same : handle_message settings sha256 time done m e s
          ≡ settled settings done id cache out =
        rw named (rw sent (rw claimed (rw media refl))) in
      let answer =
        ap (λ (p : State × Bool). p.1) same ∙ settled-answer settings done id cache out in
      let left =
        ap (λ (p : State × Bool). p.0.world) same ∙ settled-world settings done id cache out in
      subst (λ w. IsRefused m e ⊎ (has_message id w ≡ true)) (sym left)
        (handle_media_message-IsHandled sha256 m e s.world (sym answer ∙ h))
