-- ===== src/Tcp/Reach.antt =====
-- Every step that a socket can make in its life, and the states that it can reach.
use toy_ip.Base.{
  ℕ, ℤ, ◌≡◌, ◌≢◌, ◌∙◌, sym, subst, ◌⊎◌, inl, inr, List, [], ◌∷◌, some, arith, zero, suc, drop,
}
use toy_ip.Tcp.Types.{
  State, listen, syn_sent, syn_received, established, fin_wait_2, close, close_wait, time_wait, Skb,
  Conn,
}
use toy_ip.Tcp.Core.{
  fin_state, tcp_handle_fin_state, tcp_release_retransmission_timer, tcp_release_delack_timer,
}
use toy_ip.Tcp.Output.{
  tcp_queue_transmit_skb, tcp_reset_retransmission_timer, tcp_transmit_skb, tcp_queue_fin,
  tcp_send_delack, tcp_send_syn,
}
use toy_ip.Tcp.Send.{
  tcp_begin_connect, send_size, send_round, tcp_send_from, tcp_send, retry_connect, tcp_connect_rto,
  retransmit_head, tcp_retransmission_timeout, tcp_notify_user,
}
use toy_ip.Tcp.Input.{returned, tcp_process}
use toy_ip.Tcp.Sock.{tcp_close, close_in, connect_start, connect_finish, tcp_listen}
use toy_ip.Tcp.Frame.{sk-tcp_send_ack}
use toy_ip.Tcp.Transitions.{
  ◌⟶◌, stay, syn_ack, simultaneous_open, accept, accept_with_fin, reset, passive_close,
  simultaneous_close, active_close, tcp_process-⟶, state-tcp_free_sock,
}

-- What happens to a socket: a segment, a call of the socket interface, a timer, or a change of the
-- rest of the stack and of the fields that its children and readers write.
pub data Step (c : Conn) : Conn → Type 0 where
  segment : {d : Conn} (isn : ℕ) (skb : Skb) → tcp_process isn skb c ≡ returned d → Step c d
  write : {d : Conn} (bytes : List ℕ) → tcp_send bytes c ≡ some d → Step c d
  shut : Step c (tcp_close c).0
  connect :
      (daddr dport saddr sport isn : ℕ)
      → c.sk.state ≡ close
      → Step c (connect_start daddr dport saddr sport isn c)
  connected : Step c (connect_finish c)
  passive : {d : Conn} (rc : ℤ) → tcp_listen c ≡ some (d, rc) → Step c d
  delayed_ack : Step c (tcp_send_delack c)
  connect_timeout : Step c (tcp_connect_rto c)
  timeout : Step c (tcp_retransmission_timeout c)
  other : {d : Conn} → d.sk.state ≡ c.sk.state → Step c d

pub data Reach (c : Conn) : Conn → Type 0 where
  here : Reach c c
  next : {d e : Conn} → Reach c d → Step d e → Reach c e

state-tcp_queue_transmit_skb :
    (skb : Skb) (c : Conn) → (tcp_queue_transmit_skb skb c).sk.state ≡ c.sk.state
unfolding tcp_queue_transmit_skb tcp_reset_retransmission_timer tcp_transmit_skb
    tcp_release_retransmission_timer
state-tcp_queue_transmit_skb skb c = ground arith

state-tcp_queue_fin : (c : Conn) → (tcp_queue_fin c).sk.state ≡ c.sk.state
unfolding tcp_queue_fin
state-tcp_queue_fin c = grind (arith, state-tcp_queue_transmit_skb)

state-send_round : (bytes : List ℕ) (c : Conn) → (send_round bytes c).sk.state ≡ c.sk.state
unfolding send_round
state-send_round bytes c = grind (arith, state-tcp_queue_transmit_skb)

state-tcp_send_from :
    (fuel : ℕ) (bytes : List ℕ) (c : Conn) {d : Conn}
    → tcp_send_from fuel bytes c ≡ some d
    → d.sk.state ≡ c.sk.state
unfolding tcp_send_from
state-tcp_send_from zero bytes c e = cc
state-tcp_send_from (suc fuel) [] c e = cc
state-tcp_send_from (suc fuel) (b ∷ bytes) c e =
    let rest = drop (send_size (b ∷ bytes) c.sk) (b ∷ bytes) in
    state-tcp_send_from fuel rest (send_round (b ∷ bytes) c) e ∙ state-send_round (b ∷ bytes) c

state-tcp_send_delack : (c : Conn) → (tcp_send_delack c).sk.state ≡ c.sk.state
unfolding tcp_send_delack tcp_release_delack_timer
state-tcp_send_delack c = grind (arith, sk-tcp_send_ack)

state-tcp_begin_connect :
    (isn : ℕ) (c : Conn) → c.sk.state ≡ close → (tcp_begin_connect isn c).sk.state ≡ syn_sent
unfolding tcp_begin_connect tcp_send_syn
state-tcp_begin_connect isn c e = grind (arith, state-tcp_queue_transmit_skb)

state-tcp_connect_rto :
    (c : Conn)
    → ((tcp_connect_rto c).sk.state ≡ c.sk.state) ⊎ ((tcp_connect_rto c).sk.state ≡ close)
unfolding tcp_connect_rto tcp_release_retransmission_timer retry_connect tcp_transmit_skb
    tcp_reset_retransmission_timer
state-tcp_connect_rto c = grind (arith, state-tcp_free_sock)

state-tcp_retransmission_timeout :
    (c : Conn)
    → ((tcp_retransmission_timeout c).sk.state ≡ c.sk.state)
      ⊎ ((tcp_retransmission_timeout c).sk.state ≡ fin_state c.sk.state)
unfolding tcp_retransmission_timeout tcp_release_retransmission_timer retransmit_head
    tcp_transmit_skb tcp_notify_user tcp_handle_fin_state
state-tcp_retransmission_timeout c = ground arith

-- The states that a connection can be in: all but FIN_WAIT_2 and TIME_WAIT.
abbrev Visited : State → Type 0
Visited fin_wait_2 = ⊥
Visited time_wait = ⊥
Visited _ = Unit

edge-Visited : {s t : State} → s ⟶ t → Visited s → Visited t
edge-Visited stay v = v
edge-Visited syn_ack v = tt
edge-Visited simultaneous_open v = tt
edge-Visited accept v = tt
edge-Visited accept_with_fin v = tt
edge-Visited reset v = tt
edge-Visited passive_close v = tt
edge-Visited simultaneous_close v = tt
edge-Visited active_close v = v

fin_state-Visited : (s : State) → Visited s → Visited (fin_state s)
unfolding fin_state
fin_state-Visited close_wait v = tt
fin_state-Visited established v = tt
fin_state-Visited _ v = v

Visited-eq : {s t : State} → t ≡ s → Visited s → Visited t
Visited-eq e v = subst Visited (sym e) v

close_in-Visited : (s : State) (c : Conn) → Visited c.sk.state → Visited (close_in s c).0.sk.state
unfolding close_in
close_in-Visited listen c v = rw (state-tcp_free_sock) tt
close_in-Visited syn_sent c v = tt
close_in-Visited syn_received c v = tt
close_in-Visited established c v = tt
close_in-Visited close_wait c v = tt
close_in-Visited _ c v = v

state-tcp_listen :
    (c d : Conn) (rc : ℤ)
    → tcp_listen c ≡ some (d, rc)
    → (d.sk.state ≡ c.sk.state) ⊎ (d.sk.state ≡ listen)
unfolding tcp_listen
state-tcp_listen c d rc e = grind (arith, e)

Step-Visited : {c d : Conn} → Step c d → Visited c.sk.state → Visited d.sk.state
unfolding tcp_close tcp_send connect_start connect_finish
Step-Visited {c} (segment isn skb e) v = edge-Visited (tcp_process-⟶ isn skb c e) v
Step-Visited {c} (write bytes e) v = Visited-eq (state-tcp_send_from _ bytes c e) v
Step-Visited {c} shut v = close_in-Visited c.sk.state c v
Step-Visited {c} (connect daddr dport saddr sport isn e) v =
    Visited-eq (state-tcp_begin_connect isn _ e) tt
Step-Visited connected v = v
Step-Visited {c} {d} (passive rc e) v = elim (state-tcp_listen c d rc e) [
  | inl e ↦ Visited-eq e v
  | inr e ↦ Visited-eq e tt
]
Step-Visited {c} delayed_ack v = Visited-eq (state-tcp_send_delack c) v
Step-Visited {c} connect_timeout v = elim (state-tcp_connect_rto c) [
  | inl e ↦ Visited-eq e v
  | inr e ↦ Visited-eq e tt
]
Step-Visited {c} timeout v = elim (state-tcp_retransmission_timeout c) [
  | inl e ↦ Visited-eq e v
  | inr e ↦ Visited-eq e (fin_state-Visited c.sk.state v)
]
Step-Visited (other e) v = Visited-eq e v

Reach-Visited : {c d : Conn} → Visited c.sk.state → Reach c d → Visited d.sk.state
Reach-Visited v here = v
Reach-Visited v (next r s) = Step-Visited s (Reach-Visited v r)

ne_of_Visited : (s : State) → Visited s → (s ≢ fin_wait_2) × (s ≢ time_wait)
ne_of_Visited s v = (λ e. subst Visited e v, λ e. subst Visited e v)

-- A socket that starts in CLOSE never comes to FIN_WAIT_2 or to TIME_WAIT, whatever segments
-- arrive, whatever calls are made and whichever timers fire, in any order.
pub Reach-ne :
    {c d : Conn}
    → c.sk.state ≡ close
    → Reach c d
    → (d.sk.state ≢ fin_wait_2) × (d.sk.state ≢ time_wait)
Reach-ne {d} e r = ne_of_Visited d.sk.state (Reach-Visited (Visited-eq e tt) r)
