-- ===== src/Tests/Messages.antt =====
-- The message cache with room for two messages and a time to live of ten.
use emlynk_wabot.Prelude.{
  ◌≢◌, All, text_eq_iff, text_eq, ◌≡◌, refl, true, false, List, [], ◌∷◌, codes, Text, text_eq,
  arith,
}
use emlynk_wabot.Messages.{
  MessageState, Entry, Settings, prune_expired, release, state_of, drop_oldest, set, claim,
  complete,
}
use emlynk_wabot.Messages.Claims.{Call, run, IsOther, claim-taken}

abbrev small : Settings
small = record { ttl = 10; max_entries = 2 }

abbrev first_id : Text
first_id = codes "wamid.1"

abbrev second_id : Text
second_id = codes "wamid.2"

abbrev held : List Entry
held = record { id = second_id; state = MessageState.processed; expires_at = 9 } ∷ []

first_claimed : (claim small 3 first_id held).1 ≡ true
unfolding claim state_of prune_expired set release drop_oldest text_eq
first_claimed = refl

second_refused : (claim small 3 second_id held).1 ≡ false
unfolding claim state_of prune_expired set release drop_oldest text_eq
second_refused = refl

second_expired : (claim small 9 second_id held).1 ≡ true
unfolding claim state_of prune_expired set release drop_oldest text_eq
second_expired = refl

-- Another message between the two.
abbrev other_calls : List Call
other_calls = Call.claims 5 second_id ∷ []

second_is_not_first : second_id ≢ first_id
unfolding text_eq
second_is_not_first e =
    let same : text_eq second_id first_id ≡ true = (text_eq_iff second_id first_id).1 e in
    absurd (cc same)

other_calls-IsOther : All (IsOther first_id 13) other_calls
other_calls-IsOther = ((second_is_not_first, omega arith), tt)

later_calls-IsOther : All (IsOther first_id 17) other_calls
later_calls-IsOther = ((second_is_not_first, omega arith), tt)

claim-taken_example :
    ((claim small 12 first_id (run small other_calls (claim small 3 first_id held).0)).1 ≡ false)
    × ((claim small 12 first_id (
          run small other_calls
            (complete small 7 first_id (run small other_calls (claim small 3 first_id held).0)))).1
        ≡ false)
claim-taken_example =
    claim-taken small 3 7 12 first_id other_calls other_calls held (omega arith) (omega arith)
      (omega arith) (omega arith) other_calls-IsOther later_calls-IsOther first_claimed
