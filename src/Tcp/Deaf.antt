-- ===== src/Tcp/Deaf.antt =====
-- The receive window of a connection that was opened by the other side.
use toy_ip.Base.{
  ℕ, zero, suc, ◌≡◌, refl, ◌∙◌, sym, ap, subst, some, List, [], ◌∷◌, drop, true, arith, ==_iff,
}
use toy_ip.Tcp.Types.{State, listen, fin_wait_2, Skb, TcpSock, Env, Conn}
use mathlib.Core.Option.{some-injective}
use toy_ip.Tcp.Core.{
  free_skb, tcp_free_sock, clear_queues, tcp_clear_timers, tcp_stop_delack_timer,
  tcp_stop_retransmission_timer, tcp_enter_time_wait, tcp_release_retransmission_timer,
  tcp_release_delack_timer, tcp_handle_fin_state,
}
use toy_ip.Tcp.Handshake.{
  child_sock, tcp_alloc_sock, spawn_child, tcp_handle_listen, synsent_syn, tcp_synsent, tcp_closed,
}
use toy_ip.Tcp.Input.{
  Outcome, fault, running, returned, tcp_packet_filter, tcp_synrecv_ack, check_syn,
  ack_syn_received, ack_synchronized, check_ack_in, check_ack, segment_text, fin_transition,
  accept_fin, check_fin, text_and_fin, tcp_process,
}
use toy_ip.Tcp.Output.{
  alloc, tcp_alloc_skb, tcp_transmit_skb, tcp_reset_retransmission_timer, tcp_queue_transmit_skb,
  tcp_queue_fin, tcp_send_delack,
}
use toy_ip.Tcp.Send.{
  send_size, send_round, tcp_send_from, tcp_send, retransmit_head, tcp_retransmission_timeout,
  tcp_notify_user,
}
use toy_ip.Tcp.Sock.{close_in, tcp_close, tcp_done}
use toy_ip.Tcp.Timeouts.{tcp_linger}
use toy_ip.Tcp.Passive.{child as given, IsSyn, process_syn, socks-free_skb, socks-spawn_child}
use toy_ip.Tcp.Frame.{sk-tcp_send_ack}
use toy_ip.Tcp.Ends
use toy_ip.Tcp.Ends.{Ends}
use toy_ip.Tcp.Transitions.{frames}

-- A socket with a closed receive window that has received no data.
pub record IsDeaf (sk : TcpSock) : Type 0 where
  pub rcv_wnd : sk.tcb.rcv_wnd ≡ 0
  pub receive_queue : sk.receive_queue ≡ []
  pub ofo_queue : sk.ofo_queue ≡ []

tcp_free_sock-IsDeaf : (c : Conn) → IsDeaf c.sk → IsDeaf (tcp_free_sock c).sk
unfolding tcp_free_sock clear_queues tcp_clear_timers tcp_stop_delack_timer
    tcp_stop_retransmission_timer
tcp_free_sock-IsDeaf c v = record { rcv_wnd = v.rcv_wnd; receive_queue = refl; ofo_queue = refl }

module _ (skb : Skb) (c : Conn) (v : IsDeaf c.sk) where
  tcp_closed-IsDeaf : IsDeaf (tcp_closed skb c).sk
  unfolding tcp_closed
  tcp_closed-IsDeaf = grind (arith, frames)

  tcp_handle_listen-IsDeaf : (isn : ℕ) → IsDeaf (tcp_handle_listen isn skb c).sk
  unfolding tcp_handle_listen spawn_child
  tcp_handle_listen-IsDeaf isn = grind (arith, frames)

  synsent_syn-IsDeaf : IsDeaf (synsent_syn skb c).sk
  unfolding synsent_syn
  synsent_syn-IsDeaf = grind (arith, frames)

  tcp_synsent-IsDeaf : IsDeaf (tcp_synsent skb c).sk
  unfolding tcp_synsent
  tcp_synsent-IsDeaf = grind (arith, frames, synsent_syn-IsDeaf)

  -- A segment with data does not pass the filter.
  passed_empty : tcp_packet_filter c.sk.tcb skb ≡ true → skb.dlen ≡ 0
  unfolding tcp_packet_filter
  passed_empty h = ground arith

  check_syn-IsDeaf : Ends (λ d. IsDeaf d.sk) (λ d. IsDeaf d.sk) (check_syn skb c)
  unfolding check_syn
  check_syn-IsDeaf = grind (arith, frames, tcp_free_sock-IsDeaf)

  ack_syn_received-IsDeaf : Ends (λ d. IsDeaf d.sk) (λ d. IsDeaf d.sk) (ack_syn_received skb c)
  unfolding ack_syn_received tcp_synrecv_ack
  ack_syn_received-IsDeaf = grind (arith, frames)

  ack_synchronized-IsDeaf : Ends (λ d. IsDeaf d.sk) (λ d. IsDeaf d.sk) (ack_synchronized skb c)
  unfolding ack_synchronized
  ack_synchronized-IsDeaf = grind (arith, frames)

  check_ack-IsDeaf : Ends (λ d. IsDeaf d.sk) (λ d. IsDeaf d.sk) (check_ack skb c)
  unfolding check_ack check_ack_in
  check_ack-IsDeaf = grind (arith, frames, ack_syn_received-IsDeaf, ack_synchronized-IsDeaf)

fin_transition-IsDeaf : (s : State) (c : Conn) → IsDeaf c.sk → IsDeaf (fin_transition s c).sk
unfolding fin_transition tcp_enter_time_wait tcp_clear_timers tcp_stop_delack_timer
    tcp_stop_retransmission_timer
fin_transition-IsDeaf fin_wait_2 c v = ground arith
fin_transition-IsDeaf _ c v = ground arith

accept_fin-IsDeaf : (c : Conn) → IsDeaf c.sk → IsDeaf (accept_fin c).sk
unfolding accept_fin
accept_fin-IsDeaf c v = fin_transition-IsDeaf c.sk.state _ (grind (arith, frames))

text_and_fin-IsDeaf :
    (skb : Skb) (c : Conn)
    → IsDeaf c.sk
    → skb.dlen ≡ 0
    → Ends (λ d. IsDeaf d.sk) Ends.Never (text_and_fin skb c)
unfolding text_and_fin segment_text check_fin
text_and_fin-IsDeaf skb c v e = grind (arith, frames, accept_fin-IsDeaf)

tcp_process-IsDeaf :
    (isn : ℕ) (skb : Skb) (c : Conn) {d : Conn}
    → IsDeaf c.sk
    → tcp_process isn skb c ≡ returned d
    → IsDeaf d.sk
tcp_process-IsDeaf isn skb c v e = rw e at (
    Ends.process (λ d. IsDeaf d.sk) isn skb c (tcp_closed-IsDeaf skb c v)
      (tcp_handle_listen-IsDeaf skb c v isn) (λ _. tcp_synsent-IsDeaf skb c v)
      (Ends.synchronized (λ d. IsDeaf d.sk) (λ d. IsDeaf d.sk × (skb.dlen ≡ 0))
        (λ d. IsDeaf d.sk × (skb.dlen ≡ 0)) skb c
        (λ pass.
          Ends.mono (check_syn skb c) (λ d w. w) (λ d w. (w, passed_empty skb c v pass))
            (check_syn-IsDeaf skb c v))
        (λ d w.
          Ends.mono (check_ack skb d) (λ x u. u) (λ x u. (u, w.1)) (check_ack-IsDeaf skb d w.0))
        (λ d w. text_and_fin-IsDeaf skb d w.0 w.1) (grind (arith, frames))))

tcp_queue_transmit_skb-IsDeaf :
    (skb : Skb) (c : Conn) → IsDeaf c.sk → IsDeaf (tcp_queue_transmit_skb skb c).sk
unfolding tcp_queue_transmit_skb tcp_reset_retransmission_timer tcp_transmit_skb
    tcp_release_retransmission_timer
tcp_queue_transmit_skb-IsDeaf skb c v = ground arith

tcp_queue_fin-IsDeaf : (c : Conn) → IsDeaf c.sk → IsDeaf (tcp_queue_fin c).sk
unfolding tcp_queue_fin
tcp_queue_fin-IsDeaf c v =
    let w = tcp_queue_transmit_skb-IsDeaf (tcp_alloc_skb _ [] c.env) (alloc c) v in
    record { rcv_wnd = w.rcv_wnd; receive_queue = w.receive_queue; ofo_queue = w.ofo_queue }

send_round-IsDeaf : (bytes : List ℕ) (c : Conn) → IsDeaf c.sk → IsDeaf (send_round bytes c).sk
unfolding send_round
send_round-IsDeaf bytes c v = tcp_queue_transmit_skb-IsDeaf _ (alloc c) v

tcp_send_from-IsDeaf :
    (fuel : ℕ) (bytes : List ℕ) (c : Conn) {d : Conn}
    → IsDeaf c.sk
    → tcp_send_from fuel bytes c ≡ some d
    → IsDeaf d.sk
unfolding tcp_send_from
tcp_send_from-IsDeaf zero bytes c v e = absurd (cc)
tcp_send_from-IsDeaf (suc fuel) [] c v e = ground (arith, e, v)
tcp_send_from-IsDeaf (suc fuel) (b ∷ bytes) c v e =
    tcp_send_from-IsDeaf fuel (drop (send_size (b ∷ bytes) c.sk) (b ∷ bytes))
      (send_round (b ∷ bytes) c) (send_round-IsDeaf (b ∷ bytes) c v) e

-- What a socket does between two segments: the calls that send and close, and its timers.
pub data Acts (c : Conn) : Conn → Type 0 where
  write : {d : Conn} (bytes : List ℕ) → tcp_send bytes c ≡ some d → Acts c d
  shut : Acts c (tcp_close c).0
  delayed_ack : Acts c (tcp_send_delack c)
  timeout : Acts c (tcp_retransmission_timeout c)
  closed : Acts c (tcp_linger c)

close_in-IsDeaf : (s : State) (c : Conn) → IsDeaf c.sk → IsDeaf (close_in s c).0.sk
unfolding close_in
close_in-IsDeaf listen c v =
    tcp_free_sock-IsDeaf _
      (record { rcv_wnd = v.rcv_wnd; receive_queue = v.receive_queue; ofo_queue = v.ofo_queue })
close_in-IsDeaf _ c v = grind (arith, tcp_queue_fin-IsDeaf)

tcp_retransmission_timeout-IsDeaf :
    (c : Conn) → IsDeaf c.sk → IsDeaf (tcp_retransmission_timeout c).sk
unfolding tcp_retransmission_timeout tcp_release_retransmission_timer retransmit_head
    tcp_transmit_skb tcp_notify_user tcp_handle_fin_state
tcp_retransmission_timeout-IsDeaf c v = ground arith

Acts-IsDeaf : {c d : Conn} → Acts c d → IsDeaf c.sk → IsDeaf d.sk
unfolding tcp_send tcp_close tcp_send_delack tcp_release_delack_timer tcp_linger tcp_done
Acts-IsDeaf {c} (write bytes e) v = tcp_send_from-IsDeaf _ bytes c v e
Acts-IsDeaf {c} shut v = close_in-IsDeaf c.sk.state c v
Acts-IsDeaf {c} delayed_ack v = grind (arith, sk-tcp_send_ack)
Acts-IsDeaf {c} timeout v = tcp_retransmission_timeout-IsDeaf c v
Acts-IsDeaf {c} closed v =
    tcp_free_sock-IsDeaf _
      (record { rcv_wnd = v.rcv_wnd; receive_queue = v.receive_queue; ofo_queue = v.ofo_queue })

-- The life of a socket: the segments that it takes in, and what it does between them, each with the
-- rest of the stack as it is by then.
pub data Fed (sk : TcpSock) : TcpSock → Type 0 where
  none_yet : Fed sk sk
  feed :
      {s : TcpSock} {d : Conn} (env : Env) (isn : ℕ) (skb : Skb)
      → Fed sk s
      → tcp_process isn skb (record { sk = s; env = env }) ≡ returned d
      → Fed sk d.sk
  act :
      {s : TcpSock} {d : Conn} (env : Env)
      → Fed sk s
      → Acts (record { sk = s; env = env }) d
      → Fed sk d.sk

Fed-IsDeaf : {sk s : TcpSock} → Fed sk s → IsDeaf sk → IsDeaf s
Fed-IsDeaf none_yet v = v
Fed-IsDeaf (feed env isn skb fed e) v = tcp_process-IsDeaf isn skb _ (Fed-IsDeaf fed v) e
Fed-IsDeaf (act env fed a) v = Acts-IsDeaf a (Fed-IsDeaf fed v)

conn_of : Conn → Outcome → Conn
conn_of c fault = c
conn_of c (returned d) = d
conn_of c (running d) = d

-- A listening socket takes in a SYN, and the child that it has put into the table from then on
-- takes in any segments, sends, closes, and runs the handlers of its timers but that of the
-- connection time-out, in any order. Its receive window is 0 at every point, and neither its
-- receive queue nor its out-of-order queue ever holds anything.
pub tcp_process-child-IsDeaf :
    (isn : ℕ) (syn : Skb) (listener c : Conn) (child s : TcpSock)
    → listener.sk.state ≡ listen
    → IsSyn syn
    → tcp_process isn syn listener ≡ returned c
    → c.env.socks listener.env.next ≡ some child
    → Fed child s
    → IsDeaf s
unfolding child_sock tcp_alloc_sock conn_of
tcp_process-child-IsDeaf isn syn listener c child s l is e here fed =
    let q = listener.env.next in
    let spawned = spawn_child isn syn listener in
    let same : c ≡ free_skb syn spawned =
      ap (λ o. conn_of c o) (sym e ∙ process_syn isn syn listener l is) in
    let stored : some child ≡ some (given isn syn listener) =
      sym here
      ∙ ap (λ (d : Conn). d.env.socks q) same
      ∙ ap (λ k. k q) (socks-free_skb syn spawned)
      ∙ socks-spawn_child isn syn listener q
      ∙ rw ((==_iff q q).1 refl) refl in
    let born = some-injective child (given isn syn listener) stored in
    Fed-IsDeaf fed
      (subst IsDeaf (sym born) (record { rcv_wnd = refl; receive_queue = refl; ofo_queue = refl }))
