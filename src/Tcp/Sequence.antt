-- ===== src/Tcp/Sequence.antt =====
-- The sequence numbers of the sender under incoming segments.
use toy_ip.Base.{ℕ, ◌≤◌, ◌≡◌, ◌&&◌, refl, false, arith}
use toy_ip.Tcp.Types.{State, fin_wait_2, Tcb, Skb, Conn}
use toy_ip.Tcp.Core.{
  tcp_free_sock, clear_queues, tcp_clear_timers, tcp_stop_delack_timer,
  tcp_stop_retransmission_timer, tcp_enter_time_wait,
}
use toy_ip.Tcp.Data.{tcp_data_queue, accept_skb, acknowledge, tcp_consume_ofo_queue}
use toy_ip.Tcp.Handshake.{
  spawn_child, tcp_handle_listen, is_unacceptable, synsent_syn, tcp_synsent, tcp_closed,
}
use toy_ip.Tcp.Input.{
  returned, tcp_synrecv_ack, check_syn, ack_syn_received, ack_synchronized, check_ack_in, check_ack,
  segment_text, fin_transition, accept_fin, check_fin, text_and_fin, tcp_process,
}
use toy_ip.Tcp.Ends
use toy_ip.Tcp.Ends.{Ends}
use toy_ip.Tcp.Transitions.{frames}

-- No sequence number of the sender has wrapped round: ISN, then SND.UNA, then SND.NXT.
pub record InOrder (t : Tcb) : Type 0 where
  pub started : t.isn ≤ t.snd_una
  pub sent : t.snd_una ≤ t.snd_nxt

-- What a segment may do to the sender's side: SND.UNA moves up, at most to SND.NXT.
pub record Advances (t t' : Tcb) : Type 0 where
  pub isn : t'.isn ≡ t.isn
  pub snd_nxt : t'.snd_nxt ≡ t.snd_nxt
  pub rcv_wnd : t'.rcv_wnd ≡ t.rcv_wnd
  pub up : t.snd_una ≤ t'.snd_una
  pub bound : t'.snd_una ≤ t.snd_nxt

tcb-tcp_free_sock : (c : Conn) → (tcp_free_sock c).sk.tcb ≡ c.sk.tcb
unfolding tcp_free_sock clear_queues tcp_clear_timers tcp_stop_delack_timer
    tcp_stop_retransmission_timer
tcb-tcp_free_sock c = refl

tcb-tcp_enter_time_wait : (c : Conn) → (tcp_enter_time_wait c).sk.tcb ≡ c.sk.tcb
unfolding tcp_enter_time_wait tcp_clear_timers tcp_stop_delack_timer tcp_stop_retransmission_timer
tcb-tcp_enter_time_wait c = refl

module _ (skb : Skb) (c : Conn) (o : InOrder c.sk.tcb) where
  tcp_closed-Advances : Advances c.sk.tcb (tcp_closed skb c).sk.tcb
  unfolding tcp_closed
  tcp_closed-Advances = grind (arith, frames)

  tcp_handle_listen-Advances : (isn : ℕ) → Advances c.sk.tcb (tcp_handle_listen isn skb c).sk.tcb
  unfolding tcp_handle_listen spawn_child
  tcp_handle_listen-Advances isn = grind (arith, frames)

  acceptable :
      is_unacceptable c.sk.tcb skb.th.ack_seq ≡ false
      → (c.sk.tcb.snd_una ≤ skb.th.ack_seq) × (skb.th.ack_seq ≤ c.sk.tcb.snd_nxt)
  unfolding is_unacceptable
  acceptable h = ground arith

  synsent_syn-Advances :
      (skb.th.ack && is_unacceptable c.sk.tcb skb.th.ack_seq) ≡ false
      → Advances c.sk.tcb (synsent_syn skb c).sk.tcb
  unfolding synsent_syn
  synsent_syn-Advances h = grind (arith, frames, acceptable)

  tcp_synsent-Advances : Advances c.sk.tcb (tcp_synsent skb c).sk.tcb
  unfolding tcp_synsent
  tcp_synsent-Advances = grind (arith, frames, synsent_syn-Advances)

  check_syn-Advances :
      Ends (λ d. Advances c.sk.tcb d.sk.tcb) (λ d. Advances c.sk.tcb d.sk.tcb) (check_syn skb c)
  unfolding check_syn
  check_syn-Advances = grind (arith, frames, tcb-tcp_free_sock)

  ack_syn_received-Advances :
      Ends
        (λ d. Advances c.sk.tcb d.sk.tcb)
        (λ d. Advances c.sk.tcb d.sk.tcb)
        (ack_syn_received skb c)
  unfolding ack_syn_received tcp_synrecv_ack
  ack_syn_received-Advances = grind (arith, frames)

  ack_synchronized-Advances :
      Ends
        (λ d. Advances c.sk.tcb d.sk.tcb)
        (λ d. Advances c.sk.tcb d.sk.tcb)
        (ack_synchronized skb c)
  unfolding ack_synchronized
  ack_synchronized-Advances = grind (arith, frames)

  check_ack-Advances :
      Ends (λ d. Advances c.sk.tcb d.sk.tcb) (λ d. Advances c.sk.tcb d.sk.tcb) (check_ack skb c)
  unfolding check_ack check_ack_in
  check_ack-Advances = grind (arith, frames, ack_syn_received-Advances, ack_synchronized-Advances)

tcb-acknowledge : (skb : Skb) (c : Conn) → (acknowledge skb c).sk.tcb ≡ c.sk.tcb
unfolding acknowledge
tcb-acknowledge skb c = grind (arith, frames)

-- The receiver's side: all that data and FIN change is RCV.NXT.
abbrev Receives : Tcb → Tcb → Type 0
Receives t t' = t' ≡ record t { rcv_nxt = t'.rcv_nxt }

tcp_data_queue-Receives : (skb : Skb) (c : Conn) → Receives c.sk.tcb (tcp_data_queue skb c).0.sk.tcb
unfolding tcp_data_queue accept_skb tcp_consume_ofo_queue tcp_stop_delack_timer
tcp_data_queue-Receives skb c = grind (arith, frames, tcb-acknowledge)

segment_text-Receives : (skb : Skb) (c : Conn) → Receives c.sk.tcb (segment_text skb c).0.sk.tcb
unfolding segment_text
segment_text-Receives skb c = ground (arith, tcp_data_queue-Receives skb c)

tcb-fin_transition : (s : State) (c : Conn) → (fin_transition s c).sk.tcb ≡ c.sk.tcb
unfolding fin_transition
tcb-fin_transition fin_wait_2 c = tcb-tcp_enter_time_wait c
tcb-fin_transition _ c = refl

check_fin-Receives : (skb : Skb) (c : Conn) → Receives c.sk.tcb (check_fin skb c).sk.tcb
unfolding check_fin accept_fin
check_fin-Receives skb c = grind (arith, frames, tcb-fin_transition)

text_and_fin-Receives :
    (skb : Skb) (c : Conn) → Ends (λ d. Receives c.sk.tcb d.sk.tcb) Ends.Never (text_and_fin skb c)
unfolding text_and_fin
text_and_fin-Receives skb c = grind (arith, segment_text-Receives, check_fin-Receives)

Advances-trans : {t u v : Tcb} → Advances t u → Advances u v → Advances t v
Advances-trans a b = ground arith

Advances-Receives : {t u v : Tcb} → Advances t u → Receives u v → Advances t v
Advances-Receives a b = ground arith

InOrder-Advances : {t u : Tcb} → InOrder t → Advances t u → InOrder u
InOrder-Advances o a = ground arith

-- On a socket whose numbers have not wrapped, no segment moves SND.UNA down or past SND.NXT, none
-- changes ISN, SND.NXT or the receive window, and the numbers stay in order.
pub tcp_process-Advances :
    (isn : ℕ) (skb : Skb) (c : Conn) {d : Conn}
    → InOrder c.sk.tcb
    → tcp_process isn skb c ≡ returned d
    → Advances c.sk.tcb d.sk.tcb × InOrder d.sk.tcb
tcp_process-Advances isn skb c o e =
    let a = rw e at (
      Ends.process (λ d. Advances c.sk.tcb d.sk.tcb) isn skb c (tcp_closed-Advances skb c o)
        (tcp_handle_listen-Advances skb c o isn) (λ _. tcp_synsent-Advances skb c o)
        (Ends.synchronized (λ d. Advances c.sk.tcb d.sk.tcb) (λ d. Advances c.sk.tcb d.sk.tcb)
          (λ d. Advances c.sk.tcb d.sk.tcb) skb c (λ _. check_syn-Advances skb c o)
          (λ d a.
            Ends.mono (check_ack skb d) (λ x b. Advances-trans a b) (λ x b. Advances-trans a b)
              (check_ack-Advances skb d (InOrder-Advances o a)))
          (λ d a.
            Ends.mono (text_and_fin skb d) (λ x b. Advances-Receives a b) (λ x b. absurd b)
              (text_and_fin-Receives skb d))
          (grind (arith, frames)))) in
    (a, InOrder-Advances o a)
