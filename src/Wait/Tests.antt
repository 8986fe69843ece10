-- ===== src/Wait/Tests.antt =====
-- A run of the two threads of toy_src/wait.h.
use toy_ip.Base.{◌≡◌, refl, false, true, some, [], ◌∷◌}
use toy_ip.Wait.{
  reading, asleep, returned, idle, dequeue, sleep, wake, notify, arrive, wait_wakeup, wait_sleep,
  still_sleeping, look, act, interleave,
}
use toy_ip.Wait.Order.{wakes, shared, lost_wakeup}

-- The reader wakes twice for no reason.
slept :
    interleave
      (dequeue ∷ arrive 7 ∷ notify ∷ sleep ∷ wake ∷ wake ∷ [])
      (shared false [] reading idle)
    ≡ some (shared true (7 ∷ []) asleep idle)
unfolding interleave act look wait_wakeup wait_sleep still_sleeping
slept = refl

lost_wakeup_example :
    (shared true (7 ∷ []) asleep idle ≡ shared true (7 ∷ []) asleep idle)
    × (interleave (arrive 8 ∷ notify ∷ wake ∷ dequeue ∷ []) (shared true (7 ∷ []) asleep idle)
        ≡ some (shared false (8 ∷ []) (returned 7) idle))
    × (interleave
          (dequeue ∷ sleep ∷ arrive 7 ∷ notify ∷ wake ∷ dequeue ∷ [])
          (shared false [] reading idle)
        ≡ some (shared false [] (returned 7) idle))
lost_wakeup_example = lost_wakeup false 7 8 (wakes ∷ wakes ∷ []) _ slept
