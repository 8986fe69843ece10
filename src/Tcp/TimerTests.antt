-- ===== src/Tcp/TimerTests.antt =====
-- A round of the timer thread over a socket with a segment to send again.
use toy_ip.Base.{
  ℕ, ℤ, Bool, ◌≡◌, refl, false, true, none, some, [], ◌∷◌, pos, arith, ◌==◌, if◌then◌else◌,
}
use toy_ip.Timer.Quiet.{alive}
use toy_ip.Timer.{modify, is_dead, Timer, is_due, retransmission_timeout}
use toy_ip.Timer.Tick.{
  tick_round, timers_tick, tick_walk, tick_visit, fire, reap, timer_free, entry_at, next_timer,
}
use toy_ip.Timer.Evolves.{due}
use toy_ip.Tcp.Types.{TcpSock, Env}
use toy_ip.Tcp.Timeouts.{use_after_free, done, call_handler, tcp_round}
use toy_ip.Tcp.Ticks.{is_calm, tick_round_frees}
use toy_ip.Tcp.Fixtures.{sock, env, data_skb}

abbrev waiting : TcpSock
waiting = record sock { retransmit = some 0; write_queue = data_skb 9 150 (7 ∷ []) ∷ [] }

-- Its timer expires at tick 3, and the next tick is 8.
abbrev late : Env
late = record env {
  socks = λ p. if p == 1 then some waiting else none;
  timers = record {
    list =
        record {
          address = 0;
          refcnt = pos 1;
          expires = 3;
          cancelled = false;
          handler = retransmission_timeout;
          arg = 1;
        }
        ∷ [];
    tick = 7;
    next = 1;
  };
}

late-is_calm : is_calm late ≡ true
unfolding due is_due
late-is_calm = refl

-- The same timer without its socket.
orphan : tcp_round (λ p. false) 2 (record late { socks = λ p. none }) ≡ some use_after_free
unfolding tcp_round tick_round timers_tick tick_walk tick_visit fire call_handler reap timer_free
    entry_at next_timer modify is_due is_dead
orphan = refl

abbrev timer : (address : ℕ) → ℤ → Bool → Timer
timer address refcnt cancelled = record {
  address = address;
  refcnt = refcnt;
  expires = 9;
  cancelled = cancelled;
  handler = retransmission_timeout;
  arg = 1;
}

-- A timer that was cancelled and released, one that was only cancelled, and two that were not.
abbrev stale : Env
stale = record env {
  timers = record {
    list =
        timer 0 (pos 0) true
        ∷ timer 1 (pos 1) true
        ∷ timer 2 (pos 0) false
        ∷ timer 3 (pos 1) false
        ∷ [];
    tick = 7;
    next = 4;
  };
}

tick_round_frees_example :
    tcp_round (λ p. false) 5 stale
    ≡ some (
        done (record stale {
          timers = record {
            list = timer 1 (pos 1) true ∷ timer 2 (pos 0) false ∷ timer 3 (pos 1) false ∷ [];
            tick = 8;
            next = 4;
          };
        }))
unfolding alive due is_due
tick_round_frees_example = tick_round_frees stale (omega arith) refl
