-- ===== src/Wait/Order.antt =====
-- In which order an arrival wakes the reader.
use toy_ip.Base.{ℕ, ◌≡◌, refl, Bool, true, false, some, List, [], ◌∷◌, arith}
use toy_ip.Wait.{
  Reader, Receiver, Shared, Action, reading, asleep, returned, idle, dequeue, sleep, wake, notify,
  arrive, wait_wakeup, wait_sleep, still_sleeping, look, act, interleave,
}

-- The actions of the reader.
pub data Reads : Type 0 where
  dequeues sleeps wakes : Reads

abbrev pub own : List Reads → List Action
own [] = []
own (dequeues ∷ actions) = dequeue ∷ own actions
own (sleeps ∷ actions) = sleep ∷ own actions
own (wakes ∷ actions) = wake ∷ own actions

abbrev pub shared : Bool → List ℕ → Reader → Receiver → Shared
shared sleeping queue reader receiver = record {
  wait = record { sleeping = sleeping };
  receive_queue = queue;
  reader = reader;
  receiver = receiver;
}

-- A reader that sleeps with `sleeping` set sleeps on, also where `pthread_cond_wait` returns
-- without a reason.
sleeps_on :
    (actions : List Reads) (queue : List ℕ) (receiver : Receiver) (t : Shared)
    → interleave (own actions) (shared true queue asleep receiver) ≡ some t
    → t ≡ shared true queue asleep receiver
unfolding interleave act still_sleeping
sleeps_on [] queue receiver t h = cc
sleeps_on (dequeues ∷ actions) queue receiver t h = ground arith
sleeps_on (sleeps ∷ actions) queue receiver t h = ground arith
sleeps_on (wakes ∷ actions) queue receiver t h = sleeps_on actions queue receiver t h

-- A datagram `d` that comes while the reader is between the call of `udp_data_dequeue` that finds
-- no datagram and `wait_sleep` does not wake it: whatever the reader then does by itself, it sleeps,
-- `d` stays in the queue, and the other thread has nothing left to do. The next datagram `e` wakes
-- the reader, which returns `d`. A datagram that comes while the reader sleeps is returned.
pub lost_wakeup :
    (sleeping : Bool) (d e : ℕ) (actions : List Reads) (t : Shared)
    → interleave
        (dequeue ∷ arrive d ∷ notify ∷ sleep ∷ own actions)
        (shared sleeping [] reading idle)
      ≡ some t
    → (t ≡ shared true (d ∷ []) asleep idle)
      × (interleave (arrive e ∷ notify ∷ wake ∷ dequeue ∷ []) t
          ≡ some (shared false (e ∷ []) (returned d) idle))
      × (interleave
            (dequeue ∷ sleep ∷ arrive d ∷ notify ∷ wake ∷ dequeue ∷ [])
            (shared sleeping [] reading idle)
          ≡ some (shared false [] (returned d) idle))
unfolding interleave act look wait_wakeup wait_sleep still_sleeping
lost_wakeup sleeping d e actions t h =
    let same = sleeps_on actions (d ∷ []) idle t h in (same, rw same refl, refl)
