-- ===== src/Timer/Tests.antt =====
-- Runs of the walk of toy_src/timer.c over the timers of TCP.
use toy_ip.Base.{ℕ, ◌+◌, ◌≡◌, refl, true, false, some, List, [], ◌∷◌, pos, ◌==◌}
use toy_ip.Timer.{Timer, Timers, Handler, send_delack, linger, timer_add, modify, is_due, is_dead}
use toy_ip.Timer.Tick.{
  TimerHost, entry_at, next_timer, list_del_timer, timer_free, fire, reap, tick_visit, tick_walk,
  timers_tick, tick_round,
}

-- A state whose handlers only note the address of the socket that they were called for; the
-- handler of a delayed ACK starts a timer.
abbrev Log : Type 0
Log = Timers × List ℕ

note : ℕ → Log → Log
note arg (ts, log) = (ts, arg ∷ log)

run_noted : Handler → ℕ → ℕ → Log → Log
unfolding note timer_add
run_noted send_delack tick arg (ts, log) = (timer_add 200 send_delack arg ts, arg ∷ log)
run_noted h tick arg w = note arg w

abbrev log_host : TimerHost Log
log_host = record { timers = λ w. w.0; set_timers = λ ts w. (ts, w.1); run = run_noted }

abbrev timer_at : ℕ → ℕ → Handler → Timer
timer_at address expires handler = record {
  address = address;
  refcnt = pos 0;
  expires = expires;
  cancelled = false;
  handler = handler;
  arg = address + 100;
}

-- Of three timers the first and the last are due, and the last starts another one.
abbrev three : Log
three = (
  record {
    list = timer_at 0 4 linger ∷ timer_at 1 9 linger ∷ timer_at 2 3 send_delack ∷ [];
    tick = 8;
    next = 3;
  },
  [],
)

runs :
    tick_round log_host (λ p. p == 0) 9 three
    ≡ some (
      record {
        list =
            record (timer_at 0 4 linger) { cancelled = true }
            ∷ timer_at 1 9 linger
            ∷ record (timer_at 3 209 send_delack) { refcnt = pos 1; arg = 102 }
            ∷ [];
        tick = 9;
        next = 4;
      },
      102 ∷ 100 ∷ [],
    )
unfolding tick_round timers_tick tick_walk tick_visit reap fire timer_free entry_at next_timer
    list_del_timer modify is_due is_dead run_noted
runs = refl
