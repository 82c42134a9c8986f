-- ===== src/Messages/Claims.antt =====
-- utils/messageIdempotency.js: who may handle a message.
use emlynk_wabot.Prelude.{
  ◌≢◌, All, ap, sym, is_some, text_eq_iff, ℕ, ◌+◌, ◌≡◌, ◌≤◌, ◌<◌, Bool, true, false, none, some,
  List, [], ◌∷◌, ◌++◌, length, any, find, ltb, Text, text_eq_refl, Bool-cases, Option-cases, inl,
  inr, arith, refl,
}
use emlynk_wabot.Messages.{
  MessageState, Entry, Settings, names, prune_expired, release, state_of, drop_oldest, set, claim,
  complete,
}

-- The calls of a cache.
pub data Call : Type 0 where
  claims completes : ℕ → Text → Call
  releases : Text → Call

abbrev called : Settings → Call → List Entry → List Entry
called settings (Call.claims time id) entries = (claim settings time id entries).0
called settings (Call.completes time id) entries = complete settings time id entries
called settings (Call.releases id) entries = release id entries

-- The calls one after another
unfoldable pub run : Settings → List Call → List Entry → List Entry
run settings [] entries = entries
run settings (call ∷ rest) entries = run settings rest (called settings call entries)

-- A call for another message, before a time.
abbrev pub IsOther : Text → ℕ → Call → Type 0
IsOther id end (Call.claims time other) = (other ≢ id) × (time < end)
IsOther id end (Call.completes time other) = (other ≢ id) × (time < end)
IsOther id end (Call.releases other) = other ≢ id

-- The list has the entry, names its message nowhere before it, and has at most n entries after it.
record IsHeld (e : Entry) (n : ℕ) (entries : List Entry) : Type 0 where
  before : List Entry
  after : List Entry
  split : entries ≡ before ++ e ∷ after
  other : any (names e.id) before ≡ false
  few : length after ≤ n

any-release : (id : Text) (entries : List Entry) → any (names id) (release id entries) ≡ false
unfolding release
any-release id [] = refl
any-release id (e ∷ rest) = ground (arith, any-release id rest)

find-held :
    (p : Entry → Bool) (entries after : List Entry) (e : Entry)
    → any p entries ≡ false
    → p e ≡ true
    → find p (entries ++ e ∷ after) ≡ some e
find-held p [] after e h q = rw q refl
find-held p (x ∷ rest) after e h q = ground (arith, find-held p rest after e)

prune-IsHeld :
    (time n : ℕ) (e : Entry) (before after : List Entry)
    → any (names e.id) before ≡ false
    → length after ≤ n
    → time < e.expires_at
    → IsHeld e n (prune_expired time (before ++ e ∷ after))
unfolding prune_expired
prune-IsHeld time n e [] after h few live = record {
  before = [];
  after = after;
  split = ground arith;
  other = refl;
  few = few;
}
prune-IsHeld time n e (x ∷ rest) after h few live = elim (Bool-cases (ltb time x.expires_at)) [
  | inl fresh ↦
      rw fresh (record { before = x ∷ rest; after = after; split = refl; other = h; few = few })
  | inr old ↦ rw old (prune-IsHeld time n e rest after (ground arith) few live)
]

pruned-IsHeld :
    (time n : ℕ) (e : Entry) (entries : List Entry)
    → time < e.expires_at
    → IsHeld e n entries
    → IsHeld e n (prune_expired time entries)
pruned-IsHeld time n e entries live l =
    rw l.split (prune-IsHeld time n e l.before l.after l.other l.few live)

live-state :
    (time n : ℕ) (e : Entry) (entries : List Entry)
    → time < e.expires_at
    → IsHeld e n entries
    → state_of time e.id entries ≡ some e.state
unfolding state_of
live-state time n e entries live l =
    rw l.split
      (rw (find-held (names e.id) l.before l.after e l.other (text_eq_refl e.id)) (ground arith))

release-length : (id : Text) (entries : List Entry) → length (release id entries) ≤ length entries
unfolding release
release-length id [] = omega arith
release-length id (e ∷ rest) = ground (arith, release-length id rest)

release-absent :
    (id other : Text) (entries : List Entry)
    → any (names id) entries ≡ false
    → any (names id) (release other entries) ≡ false
unfolding release
release-absent id other [] h = refl
release-absent id other (e ∷ rest) h = ground (arith, release-absent id other rest)

release-split :
    (other : Text) (e : Entry) (before after : List Entry)
    → names other e ≡ false
    → release other (before ++ e ∷ after) ≡ release other before ++ e ∷ release other after
unfolding release
release-split other e [] after n = rw n refl
release-split other e (x ∷ rest) after n = ground (arith, release-split other e rest after n)

released-IsHeld :
    (other : Text) (n : ℕ) (e : Entry) (entries : List Entry)
    → other ≢ e.id
    → IsHeld e n entries
    → IsHeld e n (release other entries)
released-IsHeld other n e entries differs l =
    let apart : names other e ≡ false = elim (Bool-cases (names other e)) [
      | inl same ↦ absurd (differs (sym ((text_eq_iff e.id other).0 same)))
      | inr no_ ↦ no_
    ] in
    record {
      before = release other l.before;
      after = release other l.after;
      split = rw l.split (release-split other e l.before l.after apart);
      other = release-absent e.id other l.before l.other;
      few = omega (arith, release-length other l.after, l.few);
    }

find-absent :
    (p : Entry → Bool) (entries : List Entry) → any p entries ≡ false → find p entries ≡ none
find-absent p [] h = refl
find-absent p (x ∷ rest) h = ground (arith, find-absent p rest)

prune-absent :
    (p : Entry → Bool) (time : ℕ) (entries : List Entry)
    → any p entries ≡ false
    → any p (prune_expired time entries) ≡ false
unfolding prune_expired
prune-absent p time [] h = refl
prune-absent p time (x ∷ rest) h = elim (Bool-cases (ltb time x.expires_at)) [
  | inl fresh ↦ rw fresh h
  | inr old ↦ rw old (prune-absent p time rest (ground arith))
]

released-free :
    (time : ℕ) (id : Text) (entries : List Entry)
    → any (names id) entries ≡ false
    → state_of time id (prune_expired time entries) ≡ none
unfolding state_of
released-free time id entries h =
    rw (find-absent (names id) _ (prune-absent (names id) time entries h)) refl

wider_to :
    (n m : ℕ) (e : Entry) (entries : List Entry) → n ≤ m → IsHeld e n entries → IsHeld e m entries
wider_to n m e entries order l = record {
  before = l.before;
  after = l.after;
  split = l.split;
  other = l.other;
  few = omega (arith, l.few, order);
}

wider : (n : ℕ) (e : Entry) (entries : List Entry) → IsHeld e n entries → IsHeld e (n + 1) entries
wider n e entries l = wider_to n (n + 1) e entries (omega arith) l

append_assoc :
    (before : List Entry) (e : Entry) (after last : List Entry)
    → (before ++ e ∷ after) ++ last ≡ before ++ (e ∷ (after ++ last))
append_assoc [] e after last = refl
append_assoc (x ∷ rest) e after last = ap (λ l. x ∷ l) (append_assoc rest e after last)

length-append : (entries : List Entry) (e : Entry) → length (entries ++ e ∷ []) ≡ length entries + 1
length-append [] e = refl
length-append (x ∷ rest) e = omega (arith, length-append rest e)

module _ (settings : Settings) where
  drop-IsHeld :
      (e : Entry) (n : ℕ) (before after : List Entry)
      → n + 1 ≤ settings.max_entries
      → length after ≤ n
      → any (names e.id) before ≡ false
      → IsHeld e n (drop_oldest settings (before ++ e ∷ after))
  unfolding drop_oldest
  drop-IsHeld e n [] after room few h = record {
    before = [];
    after = after;
    split = ground arith;
    other = refl;
    few = few;
  }
  drop-IsHeld e n (x ∷ rest) after room few h =
      elim (Bool-cases (ltb settings.max_entries (length (x ∷ rest ++ e ∷ after)))) [
        | inl full ↦ rw full (drop-IsHeld e n rest after room few (ground arith))
        | inr fits ↦
            rw fits
              (record { before = x ∷ rest; after = after; split = refl; other = h; few = few })
      ]

  refused :
      (time n : ℕ) (e : Entry) (entries : List Entry)
      → time < e.expires_at
      → IsHeld e n entries
      → (claim settings time e.id entries).1 ≡ false
  unfolding claim
  refused time n e entries live l =
      rw (live-state time n e _ live (pruned-IsHeld time n e entries live l)) refl

  set-IsHeld :
      (time : ℕ) (id : Text) (state : MessageState) (entries : List Entry)
      → 1 ≤ settings.max_entries
      → IsHeld
          (record { id = id; state = state; expires_at = time + settings.ttl })
          0
          (set settings time id state entries)
  unfolding set
  set-IsHeld time id state entries room =
      drop-IsHeld (record { id = id; state = state; expires_at = time + settings.ttl }) 0
        (release id entries) [] room (omega arith) (any-release id entries)

  -- An entry that is set for another message adds one after it.
  set-other :
      (time n : ℕ) (other : Text) (state : MessageState) (e : Entry) (entries : List Entry)
      → n + 2 ≤ settings.max_entries
      → other ≢ e.id
      → IsHeld e n entries
      → IsHeld e (n + 1) (set settings time other state entries)
  unfolding set
  set-other time n other state e entries room differs l =
      let r = released-IsHeld other n e entries differs l in
      let new : Entry = record { id = other; state = state; expires_at = time + settings.ttl } in
      rw r.split (
        rw (append_assoc r.before e r.after (new ∷ [])) (
          drop-IsHeld e (n + 1) r.before (r.after ++ new ∷ []) (omega (arith, room))
            (omega (arith, length-append r.after new, r.few)) r.other))

  claim-other :
      (time n : ℕ) (other : Text) (e : Entry) (entries : List Entry)
      → n + 2 ≤ settings.max_entries
      → time < e.expires_at
      → other ≢ e.id
      → IsHeld e n entries
      → IsHeld e (n + 1) (claim settings time other entries).0
  unfolding claim
  claim-other time n other e entries room live differs l =
      let pruned = pruned-IsHeld time n e entries live l in
      elim (Bool-cases (is_some (state_of time other (prune_expired time entries)))) [
        | inl taken ↦ rw (claim, taken) (wider n e _ pruned)
        | inr free ↦
            rw (claim, free)
              (set-other time n other MessageState.in_progress e _ room differs pruned)
      ]

  called-IsHeld :
      (end n : ℕ) (e : Entry) (call : Call) (entries : List Entry)
      → n + 2 ≤ settings.max_entries
      → end ≤ e.expires_at
      → IsOther e.id end call
      → IsHeld e n entries
      → IsHeld e (n + 1) (called settings call entries)
  called-IsHeld end n e (Call.claims time other) entries room order (differs, early) l =
      claim-other time n other e entries room (omega (arith, early, order)) differs l
  called-IsHeld end n e (Call.completes time other) entries room order (differs, early) l =
      set-other time n other MessageState.processed e entries room differs l
  called-IsHeld end n e (Call.releases other) entries room order differs l =
      wider n e _ (released-IsHeld other n e entries differs l)

  run-IsHeld :
      (end n : ℕ) (e : Entry) (calls : List Call) (entries : List Entry)
      → n + length calls + 1 ≤ settings.max_entries
      → end ≤ e.expires_at
      → All (IsOther e.id end) calls
      → IsHeld e n entries
      → IsHeld e (n + length calls) (run settings calls entries)
  unfolding run
  run-IsHeld end n e [] entries room order others l = wider_to n (n + 0) e _ (omega arith) l
  run-IsHeld end n e (call ∷ rest) entries room order (other, others) l =
      wider_to (n + 1 + length rest) (n + length (call ∷ rest)) e _ (omega arith) (
        run-IsHeld end (n + 1) e rest (called settings call entries) (omega (arith, room)) order
          others (called-IsHeld end n e call entries (omega (arith, room)) order other l))

  -- A claim after other calls.
  claim-run :
      (time later : ℕ) (id : Text) (state : MessageState) (calls : List Call) (entries : List Entry)
      → length calls + 1 ≤ settings.max_entries
      → later < time + settings.ttl
      → All (IsOther id (time + settings.ttl)) calls
      → (claim settings later id (run settings calls (set settings time id state entries))).1
        ≡ false
  claim-run time later id state calls entries room live others =
      let e : Entry = record { id = id; state = state; expires_at = time + settings.ttl } in
      refused later (0 + length calls) e _ live (
        run-IsHeld (time + settings.ttl) 0 e calls _ (omega (arith, room)) (omega arith) others
          (set-IsHeld time id state entries (omega (arith, room))))

  claim-written :
      (time : ℕ) (id : Text) (entries : List Entry)
      → (claim settings time id entries).1 ≡ true
      → (claim settings time id entries).0
        ≡ set settings time id MessageState.in_progress (prune_expired time entries)
  unfolding claim
  claim-written time id entries h =
      elim (Option-cases (state_of time id (prune_expired time entries))) [
        | inl free ↦ rw free refl
        | inr (s, taken) ↦ ground (arith, taken)
      ]

  -- Once a message id was claimed, a claim of it is refused until the time to live is over, after any
  -- calls for other messages in that time that are fewer than the entries the cache has room for; and
  -- so is a claim after its handling was completed at a later time, with such calls before that and
  -- after it, these in the time to live of the completed entry.
  pub claim-taken :
      (time done later : ℕ) (id : Text) (calls more : List Call) (entries : List Entry)
      → length calls + 1 ≤ settings.max_entries
      → length more + 1 ≤ settings.max_entries
      → time ≤ done
      → later < time + settings.ttl
      → All (IsOther id (time + settings.ttl)) calls
      → All (IsOther id (done + settings.ttl)) more
      → (claim settings time id entries).1 ≡ true
      → ((claim settings later id (run settings calls (claim settings time id entries).0)).1
          ≡ false)
        × ((claim settings later id (
              run settings more (
                complete settings done id
                  (run settings calls (claim settings time id entries).0)))).1
            ≡ false)
  claim-taken time done later id calls more entries room room' order live others others' h = (
    rw (claim-written time id entries h)
        (claim-run time later id MessageState.in_progress calls _ room live others),
    claim-run done later id MessageState.processed more _ room' (omega arith) others',
  )

  -- Once the claim of a message id was given up, a new claim of it succeeds at any time.
  pub claim-release :
      (time : ℕ) (id : Text) (entries : List Entry)
      → (claim settings time id (release id entries)).1 ≡ true
  unfolding claim
  claim-release time id entries =
      rw (released-free time id (release id entries) (any-release id entries)) refl
