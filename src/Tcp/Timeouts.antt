-- ===== src/Tcp/Timeouts.antt =====
-- The handlers of the TCP timers (`tcp_linger` of toy_src/tcp.c, the timeouts of
-- toy_src/tcp_output.c) under the walk of toy_src/timer.c.
use toy_ip.Base.{
  Bool, true, false, if◌then◌else◌, ℕ, zero, suc, ◌+◌, ◌*◌, ◌^◌, ◌<◌, ◌≤◌, ◌≡◌, refl, sym, ◌∙◌,
  subst, Bool-cases, Option-cases, inl, inr, Option, none, some, List, [], ◌∷◌, dec, u8, ltb, arith,
}
use toy_ip.Timer.{
  Timers, Handler, connect_rto, retransmission_timeout, send_delack, linger, timer_release,
}
use toy_ip.Timer.Tick.{tick_round, TimerHost, Changes, nothing, adds, releases, cancels}
use toy_ip.Timer.Rounds.{Laws}
use toy_ip.Tcp.Types.{syn_sent, established, close_wait, Skb, Conn, Env}
use toy_ip.Tcp.Core.{
  release_timer, free_skb, skb_queue_free, clear_queues, tcp_clear_timers,
  tcp_stop_retransmission_timer, tcp_stop_delack_timer, tcp_release_retransmission_timer,
  tcp_release_delack_timer, tcp_free_sock, tcp_handle_fin_state,
}
use toy_ip.Tcp.Output.{
  is_state, tcp_transmit_skb, tcp_reset_retransmission_timer, send_bare, tcp_send_ack,
  tcp_send_delack,
}
use toy_ip.Tcp.Send.{
  retry_connect, tcp_connect_rto, retransmit_head, tcp_notify_user, tcp_retransmission_timeout,
}
use toy_ip.Tcp.Sock.{write_back, tcp_done}

unfoldable pub tcp_linger : Conn → Conn
tcp_linger c =
    let d = release_timer c.sk.linger c in
    tcp_done (record d { sk = record (d.sk) { linger = none } })

-- The function that a handler points to.
unfoldable pub run_handler : Handler → Conn → Conn
run_handler connect_rto c = tcp_connect_rto c
run_handler retransmission_timeout c = tcp_retransmission_timeout c
run_handler send_delack c = tcp_send_delack c
run_handler linger c = tcp_linger c

-- What the walk works on; `fault` is true after a use of freed memory, behind which the rest of the
-- state means nothing.
pub record Ticking : Type 0 where
  pub env : Env
  pub fault : Bool

-- `t->handler(tick, t->arg)`, where `arg` points to a socket. The handler of a socket that has been
-- freed works on freed memory.
unfoldable pub call_handler : Handler → ℕ → Ticking → Ticking
call_handler h arg w = elim (w.env.socks arg) [
  | none ↦ record w { fault = true }
  | some sk ↦ record w { env = write_back (run_handler h (record { sk = sk; env = w.env })) }
]

abbrev pub tcp_host : TimerHost Ticking
tcp_host = record {
  timers = λ w. w.env.timers;
  set_timers = λ ts w. record w { env = record (w.env) { timers = ts } };
  run = λ h tick arg w. call_handler h arg w;
}

-- What a round of the timer thread comes to.
pub data Round : Type 0 where
  use_after_free : Round
  done : Env → Round

-- A round of `timers_start`; `none` is fuel that does not last.
unfoldable pub tcp_round : (busy : ℕ → Bool) (fuel : ℕ) → Env → Option Round
tcp_round busy fuel env =
    elim (tick_round tcp_host busy fuel (record { env = env; fault = false })) [
      | none ↦ none
      | some w ↦ some (if w.fault then use_after_free else done w.env)
    ]

abbrev Timed : Conn → Conn → Type 0
Timed c d = Changes c.env.timers d.env.timers

timers-free_skb : (skb : Skb) (c : Conn) → (free_skb skb c).env.timers ≡ c.env.timers
unfolding free_skb
timers-free_skb skb c = ground arith

timers-skb_queue_free :
    (queue : List Skb) (c : Conn) → (skb_queue_free queue c).env.timers ≡ c.env.timers
unfolding skb_queue_free
timers-skb_queue_free [] c = refl
timers-skb_queue_free (skb ∷ queue) c =
    let s = record skb { refcnt = dec skb.refcnt } in
    timers-skb_queue_free queue (free_skb s c) ∙ timers-free_skb s c

timers-clear_queues : (c : Conn) → (clear_queues c).env.timers ≡ c.env.timers
unfolding clear_queues
timers-clear_queues c =
    rw (timers-skb_queue_free, timers-skb_queue_free, timers-skb_queue_free) refl

timers-tcp_send_ack : (c : Conn) → (tcp_send_ack c).env.timers ≡ c.env.timers
unfolding tcp_send_ack send_bare tcp_transmit_skb
timers-tcp_send_ack c = grind (arith, timers-free_skb)

timers-write_back : (c : Conn) → (write_back c).timers ≡ c.env.timers
unfolding write_back
timers-write_back c = ground arith

-- The three timers of a socket that is freed are cancelled.
tcp_free_sock-Timed : (c : Conn) → Timed c (tcp_free_sock c)
unfolding tcp_free_sock tcp_clear_timers tcp_stop_delack_timer tcp_stop_retransmission_timer
tcp_free_sock-Timed c =
    cancels c.sk.retransmit
      (cancels c.sk.delack (cancels c.sk.keepalive (nothing (sym (timers-clear_queues _)))))

tcp_linger-Timed : (c : Conn) → Timed c (tcp_linger c)
unfolding tcp_linger tcp_done
tcp_linger-Timed c = releases c.sk.linger (tcp_free_sock-Timed _)

tcp_send_delack-Timed : (c : Conn) → Timed c (tcp_send_delack c)
unfolding tcp_send_delack tcp_release_delack_timer
tcp_send_delack-Timed c = releases c.sk.delack (nothing (sym (timers-tcp_send_ack _)))

timer_release_fits :
    (p : Option ℕ) (ts : Timers)
    → ts.tick + 8000 < 2 ^ 32
    → (timer_release p ts).tick + 8000 < 2 ^ 32
unfolding timer_release
timer_release_fits none ts fits = fits
timer_release_fits (some p) ts fits = fits

power_le : (b : ℕ) → b ≤ 3 → 500 * 2 ^ u8 (b + 1) ≤ 8000
power_le zero h = omega arith
power_le (suc zero) h = omega arith
power_le (suc (suc zero)) h = omega arith
power_le (suc (suc (suc zero))) h = omega arith
power_le (suc (suc (suc (suc b)))) h = absurd (omega arith)

retry_connect-Timed :
    (queue : List Skb) (c : Conn)
    → c.env.timers.tick + 8000 < 2 ^ 32
    → c.sk.backoff ≤ 3
    → Timed c (retry_connect queue c)
unfolding retry_connect tcp_reset_retransmission_timer tcp_release_retransmission_timer
    tcp_transmit_skb
retry_connect-Timed [] c fits low = nothing refl
retry_connect-Timed (skb ∷ queue) c fits low = elim (Bool-cases (is_state c.sk.state syn_sent)) [
  | inl e ↦ rw e (
      releases c.sk.retransmit (
        adds _ connect_rto c.sk.address
          (omega (
            arith,
            timer_release_fits c.sk.retransmit c.env.timers fits,
            power_le c.sk.backoff low,
          ))
          (nothing refl)))
  | inr e ↦ rw e (
      releases c.sk.retransmit (
        adds 500 retransmission_timeout c.sk.address
          (omega (arith, timer_release_fits c.sk.retransmit c.env.timers fits)) (nothing refl)))
]

tcp_connect_rto-Timed : (c : Conn) → c.env.timers.tick + 8000 < 2 ^ 32 → Timed c (tcp_connect_rto c)
unfolding tcp_connect_rto tcp_release_retransmission_timer
tcp_connect_rto-Timed c fits = elim (Bool-cases (is_state c.sk.state established)) [
  | inl e ↦ rw e (releases c.sk.retransmit (nothing refl))
  | inr e ↦ rw e (elim (Bool-cases (ltb 3 c.sk.backoff)) [
    | inl b ↦ rw b (releases c.sk.retransmit (tcp_free_sock-Timed _))
    | inr b ↦ rw b (
        releases c.sk.retransmit (
          retry_connect-Timed c.sk.write_queue _
            (timer_release_fits c.sk.retransmit c.env.timers fits) (ground arith)))
  ])
]

retransmit_head-Timed :
    (queue : List Skb) (c : Conn)
    → c.env.timers.tick + 8000 < 2 ^ 32
    → Timed c (retransmit_head queue c)
unfolding retransmit_head tcp_notify_user tcp_transmit_skb tcp_handle_fin_state
retransmit_head-Timed [] c fits = elim (Bool-cases (is_state c.sk.state close_wait)) [
  | inl e ↦ rw e (nothing refl)
  | inr e ↦ rw e (nothing refl)
]
retransmit_head-Timed (skb ∷ queue) c fits = elim (Bool-cases (skb.th.fin)) [
  | inl e ↦ rw e (adds 500 retransmission_timeout c.sk.address (omega arith) (nothing refl))
  | inr e ↦ rw e (adds 500 retransmission_timeout c.sk.address (omega arith) (nothing refl))
]

tcp_retransmission_timeout-Timed :
    (c : Conn) → c.env.timers.tick + 8000 < 2 ^ 32 → Timed c (tcp_retransmission_timeout c)
unfolding tcp_retransmission_timeout tcp_release_retransmission_timer
tcp_retransmission_timeout-Timed c fits = releases c.sk.retransmit (
    retransmit_head-Timed c.sk.write_queue _ (timer_release_fits c.sk.retransmit c.env.timers fits))

run_handler-Timed :
    (h : Handler) (c : Conn) → c.env.timers.tick + 8000 < 2 ^ 32 → Timed c (run_handler h c)
unfolding run_handler
run_handler-Timed connect_rto c fits = tcp_connect_rto-Timed c fits
run_handler-Timed retransmission_timeout c fits = tcp_retransmission_timeout-Timed c fits
run_handler-Timed send_delack c fits = tcp_send_delack-Timed c
run_handler-Timed linger c fits = tcp_linger-Timed c

call_handler-Changes :
    (h : Handler) (arg : ℕ) (w : Ticking)
    → w.env.timers.tick + 8000 < 2 ^ 32
    → Changes w.env.timers (call_handler h arg w).env.timers
unfolding call_handler
call_handler-Changes h arg w fits = elim (Option-cases (w.env.socks arg)) [
  | inl e ↦ rw (call_handler, e) (nothing refl)
  | inr (sk, e) ↦
      rw (call_handler, e)
        (subst (Changes w.env.timers) (sym (timers-write_back _)) (run_handler-Timed h _ fits))
]

-- The handlers of TCP are handlers as the walk of the timers wants them.
pub tcp_host-Laws : Laws tcp_host 8000
tcp_host-Laws = record {
  timers_set = λ ts w. refl;
  run-Changes = λ h tick arg w fits. call_handler-Changes h arg w fits;
}
