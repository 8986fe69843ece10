-- ===== src/Wait.antt =====
-- toy_src/wait.h under the two threads that use it: the reader in `udp_recvfrom` and `udp_read` of
-- toy_src/udp_sock.c, and the thread that runs `udp_in` of toy_src/udp.c. `lock` makes each of
-- `wait_sleep` up to `pthread_cond_wait`, its end, and `wait_wakeup` one action; what else a thread
-- does is one action for each call.
use toy_ip.Base.{ℕ, Bool, true, false, Option, none, some, List, [], ◌∷◌, ◌++◌, if◌then◌else◌}
pub mod Order
mod Tests

-- `sleeping` of `struct wait_lock`; `lock` is free between two actions.
pub record WaitLock : Type 0 where
  pub sleeping : Bool

unfoldable pub wait_init : WaitLock
wait_init = record { sleeping = false }

unfoldable pub wait_wakeup : WaitLock → WaitLock
wait_wakeup w = record w { sleeping = false }

-- `wait_sleep` up to the call of `pthread_cond_wait`, which frees the lock.
unfoldable pub wait_sleep : WaitLock → WaitLock
wait_sleep w = record w { sleeping = true }

-- The condition of the loop of `wait_sleep`, where `pthread_cond_wait` has returned.
unfoldable pub still_sleeping : WaitLock → Bool
still_sleeping w = w.sleeping

-- Where the reader stands: before the call of `udp_data_dequeue`, behind a call that returned -1, in
-- `pthread_cond_wait`, or at its end with a datagram.
pub data Reader : Type 0 where
  reading empty_handed asleep : Reader
  returned : ℕ → Reader

-- Where the other thread stands: outside `udp_in`, or in it before the call of `recv_notify`.
pub data Receiver : Type 0 where
  idle notifying : Receiver

-- A datagram with data is named by a number.
pub record Shared : Type 0 where
  pub wait : WaitLock
  pub receive_queue : List ℕ
  pub reader : Reader
  pub receiver : Receiver

-- What a thread may do next; `wake` is a return from `pthread_cond_wait`, which needs no reason.
pub data Action : Type 0 where
  dequeue sleep wake notify : Action
  arrive : ℕ → Action

-- `udp_data_dequeue` and the test of its result.
unfoldable pub look : List ℕ → Shared → Shared
look [] s = record s { reader = empty_handed }
look (d ∷ queue) s = record s { receive_queue = queue; reader = returned d }

-- An action in a state in which its thread is there; `none` where it is not.
unfoldable pub act : Action → Reader → Receiver → Shared → Option Shared
act dequeue reading _ s = some (look s.receive_queue s)
act sleep empty_handed _ s = some (record s { wait = wait_sleep s.wait; reader = asleep })
act wake asleep _ s = some (if still_sleeping s.wait then s else record s { reader = reading })
act (arrive d) _ idle s =
    some (record s { receive_queue = s.receive_queue ++ d ∷ []; receiver = notifying })
act notify _ notifying s = some (record s { wait = wait_wakeup s.wait; receiver = idle })
act _ _ _ s = none

unfoldable pub interleave : List Action → Shared → Option Shared
interleave [] s = some s
interleave (a ∷ actions) s = elim (act a s.reader s.receiver s) [
  | none ↦ none
  | some t ↦ interleave actions t
]
