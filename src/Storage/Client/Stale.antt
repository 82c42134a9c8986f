-- ===== src/Storage/Client/Stale.antt =====
-- services/clientDocumentService.js: an insert that fails under a claim. The renewal in the same
-- transaction is undone in the table, but not in the closure that holds the start of the lease.
use emlynk_wabot.Prelude.{
  ℕ, suc, ◌≡◌, ◌≢◌, inl, inr, Bool, true, false, Option, none, some, List, [], ◌∷◌, Text, is_some,
  is_truthy, arith, refl, ap, Bool-cases, All, All-map, ==_iff, ◌==◌, if◌then◌else◌,
}
use emlynk_wabot.Queue.Table.{Row, HasUniqueIds, update_many, others-differ}
use emlynk_wabot.Queue.Claims.{Claim, owns, renew}
use emlynk_wabot.Queue.Fencing.{owns-NamesId}
use emlynk_wabot.Storage.Documents.{Document}
use emlynk_wabot.Storage.World.{Bucket, World, renew_held}
use emlynk_wabot.Storage.Client.{Inserted, StoreResult, insert_claimed, clean_up, violates}

-- The claim as a renewal leaves it.
abbrev later : ℕ → Claim → Claim
later at c = record c { started_at = some at }

no-match :
    (p : Row → Bool) (f : Row → Row) (rows : List Row)
    → All (λ r. p r ≡ false) rows
    → (update_many p f rows).1 ≡ 0
unfolding update_many
no-match p f [] h = refl
no-match p f (r ∷ rest) (miss, h) = rw miss (no-match p f rest h)

-- A row that the claim owns is not owned with another start of the lease.
owns-later :
    (c : Claim) (at : ℕ) (r : Row)
    → c.started_at ≢ some at
    → owns c r ≡ true
    → owns (later at c) r ≡ false
unfolding owns
owns-later c at r n h = ground arith

other-later :
    (c : Claim) (at : ℕ) (r : Row) → r.temporary_id ≢ c.temporary_id → owns (later at c) r ≡ false
other-later c at r n = elim (Bool-cases (owns (later at c) r)) [
  | inl mine ↦ absurd (n (owns-NamesId (later at c) r mine))
  | inr free ↦ free
]

stale_row :
    (c : Claim) (at : ℕ) (r : Row)
    → c.started_at ≢ some at
    → (owns c r ≡ false → r.temporary_id ≢ c.temporary_id)
    → owns (later at c) r ≡ false
stale_row c at r n differs = elim (Bool-cases (owns c r)) [
  | inl mine ↦ owns-later c at r n mine
  | inr free ↦ other-later c at r (differs free)
]

counted : (count : ℕ) (c : Claim) → (if count == 1 then some c else none) ≢ none → count ≡ 1
counted count c n = elim (Bool-cases (count == 1)) [
  | inl one ↦ (==_iff count 1).0 one
  | inr other ↦ absurd (n (rw other refl))
]

-- What a renewal writes.
abbrev touch : ℕ → Option Text → Row → Row
touch at path r = record r {
  started_at = some at;
  placement_path = if is_truthy path then path else r.placement_path;
}

renewed-later :
    (c : Claim) (at : ℕ) (path : Option Text) (rows : List Row)
    → (renew at path c rows).1 ≢ none
    → (renew at path c rows).1 ≡ some (later at c)
unfolding renew
renewed-later c at path rows owned =
    let one : (update_many (owns c) (touch at path) rows).1 ≡ 1 = counted _ (later at c) owned in
    rw one refl

renew-later :
    (c : Claim) (at next : ℕ) (path : Option Text) (rows : List Row)
    → HasUniqueIds rows
    → (renew at path c rows).1 ≢ none
    → c.started_at ≢ some at
    → (renew next none (later at c) rows).1 ≡ none
unfolding renew
renew-later c at next path rows u owned n =
    let one : (update_many (owns c) (touch at path) rows).1 ≡ 1 = counted _ (later at c) owned in
    let apart : All (λ r. owns c r ≡ false → r.temporary_id ≢ c.temporary_id) rows =
      others-differ c.temporary_id (owns c) (touch at path) rows (owns-NamesId c) u
        (omega (arith, one)) in
    let free : All (λ r. owns (later at c) r ≡ false) rows =
      All-map (λ r. owns c r ≡ false → r.temporary_id ≢ c.temporary_id)
        (λ r. owns (later at c) r ≡ false) rows (λ r differs. stale_row c at r n differs) apart in
    rw (no-match (owns (later at c)) (touch next none) rows free) refl

module _ {ℓ κ} {B : Type ℓ} {Content : Type κ} (ops : Bucket B Content) (clock : ℕ → ℕ)
    (fails : Document → Bool) (d : Document) (w : World B) (c : Claim)
    (held : w.held ≡ some c) where
  refused : (renew (clock w.calls) none c w.rows).1 ≡ none → (renew_held ops clock none w).1 ≡ false
  unfolding renew_held
  refused gone = rw (renew_held, held) (rw (renew_held, gone) refl)

  abbrev renewed_world : World B
  renewed_world = record w {
    rows = (renew (clock w.calls) none c w.rows).0;
    held = some (later (clock w.calls) c);
    calls = suc w.calls;
  }

  renews :
      (renew (clock w.calls) none c w.rows).1 ≢ none
      → renew_held ops clock none w ≡ (renewed_world, true)
  unfolding renew_held
  renews owned =
      let again : (renew (clock w.calls) none c w.rows).1 ≡ some (later (clock w.calls) c) =
        renewed-later c (clock w.calls) none w.rows owned in
      rw (renew_held, held) (rw (renew_held, again) refl)

  -- The world after the insert that violated the unique pair.
  undone :
      (renew (clock w.calls) none c w.rows).1 ≢ none
      → violates d w.documents ≡ true
      → insert_claimed ops clock fails d w
        ≡ (record renewed_world { rows = w.rows }, Inserted.unique_violation)
  unfolding insert_claimed
  undone owned twice =
      let mine : is_some w.held ≡ true = ap is_some held in
      rw (insert_claimed, mine) (rw (renews owned) (rw twice refl))

gives_up {ℓ κ} :
    {B : Type ℓ} {Content : Type κ} (ops : Bucket B Content) (clock : ℕ → ℕ)
    (fails : Document → Bool) (path : Text) (t : World B)
    → is_some t.held ≡ true
    → (renew_held ops clock none t).1 ≡ false
    → (clean_up ops clock fails path Inserted.unique_violation t).1 ≡ StoreResult.claim_lost
unfolding clean_up
gives_up ops clock fails path t held lost = rw held (rw lost refl)

-- An insert that violates the uniqueness of client and checksum ends, under a claim that owned its
-- row, as a lost claim and not as a duplicate, unless both renewals fall on one millisecond: the
-- undone renewal leaves the closure with a lease start that no row has.
pub violation-claim_lost {ℓ κ} :
    {B : Type ℓ} {Content : Type κ} (ops : Bucket B Content) (clock : ℕ → ℕ)
    (fails : Document → Bool) (d : Document) (w : World B) (c : Claim) (path : Text)
    → w.held ≡ some c
    → HasUniqueIds w.rows
    → (renew (clock w.calls) none c w.rows).1 ≢ none
    → c.started_at ≢ some (clock w.calls)
    → violates d w.documents ≡ true
    → ((insert_claimed ops clock fails d w).1 ≡ Inserted.unique_violation)
      × ((clean_up ops clock fails path Inserted.unique_violation
            (insert_claimed ops clock fails d w).0).1
          ≡ StoreResult.claim_lost)
violation-claim_lost ops clock fails d w c path held u owned n twice =
    let t = record (renewed_world ops clock fails d w c held) { rows = w.rows } in
    let gone : (renew (clock t.calls) none (later (clock w.calls) c) w.rows).1 ≡ none =
      renew-later c (clock w.calls) (clock t.calls) none w.rows u owned n in
    let lost = refused ops clock fails d t (later (clock w.calls) c) refl gone in
    rw (undone ops clock fails d w c held owned twice)
      (refl, gives_up ops clock fails path t refl lost)
