-- ===== src/Messages.antt =====
-- utils/messageIdempotency.js: createMessageIdCache. The Map is the list of its entries in insertion
-- order. A call of an operation sees one time.
pub mod Claims
use emlynk_wabot.Prelude.{
  ℕ, suc, ◌+◌, ◌*◌, Bool, true, false, not, Option, none, some, List, [], ◌∷◌, ◌++◌, length, keep,
  find, ltb, is_some, if◌then◌else◌, Text, text_eq,
}

pub data MessageState : Type 0 where
  in_progress processed : MessageState

pub record Entry : Type 0 where
  pub id : Text
  pub state : MessageState
  pub expires_at : ℕ

-- The options of a cache
pub record Settings : Type 0 where
  pub ttl : ℕ
  pub max_entries : ℕ

abbrev pub default_settings : Settings
default_settings = record { ttl = 24 * 60 * 60 * 1000; max_entries = 10000 }

abbrev pub names : Text → Entry → Bool
names id e = text_eq e.id id

-- pruneExpired: it stops at the first entry that has not expired.
unfoldable pub prune_expired : ℕ → List Entry → List Entry
prune_expired time [] = []
prune_expired time (e ∷ rest) =
    let pruned = prune_expired time rest in if ltb time e.expires_at then e ∷ rest else pruned

-- entries.delete(id)
unfoldable pub release : Text → List Entry → List Entry
release id entries = keep (λ e. not (names id e)) entries

-- The entry that the lookup found, unless it has expired.
abbrev pub unexpired : ℕ → Option Entry → Option MessageState
unexpired time none = none
unexpired time (some e) = if ltb time e.expires_at then some e.state else none

unfoldable pub state_of : ℕ → Text → List Entry → Option MessageState
state_of time id entries = unexpired time (find (names id) entries)

module _ (settings : Settings) where
  -- The loop of `set`, which drops the oldest entries.
  unfoldable pub drop_oldest : List Entry → List Entry
  drop_oldest [] = []
  drop_oldest (e ∷ rest) =
      let dropped = drop_oldest rest in
      if ltb settings.max_entries (length (e ∷ rest)) then dropped else e ∷ rest

  unfoldable pub set : ℕ → Text → MessageState → List Entry → List Entry
  set time id state entries = drop_oldest (
      release id entries
      ++ record { id = id; state = state; expires_at = time + settings.ttl } ∷ [])

  unfoldable pub claim : ℕ → Text → List Entry → List Entry × Bool
  claim time id entries =
      let pruned = prune_expired time entries in
      if is_some (state_of time id pruned)
      then (pruned, false)
      else (set time id MessageState.in_progress pruned, true)

  abbrev pub complete : ℕ → Text → List Entry → List Entry
  complete time id entries = set time id MessageState.processed entries
