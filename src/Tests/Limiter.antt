-- ===== src/Tests/Limiter.antt =====
-- The limiter with two slots and one place to wait, on a few calls.
use emlynk_wabot.Prelude.{◌≡◌, refl, [], ◌∷◌}
use emlynk_wabot.Limiter.{
  Limits, Limiter, Answer, fresh, start_waiting, acquire, release, start, acquires,
}
use emlynk_wabot.Limiter.Bounds.{IsWithin, Reachable-IsWithin}

abbrev two_slots : Limits
two_slots = record { max_concurrent = 2; max_waiting = 1 }

abbrev busy_limiter : Limiter
busy_limiter = record { active = 2; peak_active = 2; waiting = 3 ∷ [] }

third_waits :
    (acquire two_slots 3 (record { active = 2; peak_active = 2; waiting = [] })).1 ≡ Answer.queued
unfolding acquire
third_waits = refl

fourth_refused : acquire two_slots 4 busy_limiter ≡ (busy_limiter, Answer.busy)
unfolding acquire
fourth_refused = refl

released :
    release two_slots busy_limiter ≡ (record { active = 2; peak_active = 2; waiting = [] }, 3 ∷ [])
unfolding release start_waiting
released = refl

abbrev run : Limiter
run = (acquire two_slots 3 (acquire two_slots 2 (acquire two_slots 1 fresh).0).0).0

run-busy : run ≡ busy_limiter
unfolding acquire
run-busy = refl

Reachable-IsWithin_example : IsWithin two_slots run
Reachable-IsWithin_example =
    Reachable-IsWithin two_slots (acquires 3 (acquires 2 (acquires 1 start)))
