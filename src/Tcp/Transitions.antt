-- ===== src/Tcp/Transitions.antt =====
-- The state transitions that an incoming segment makes.
use toy_ip.Base.{ℕ, ◌≡◌, refl, ◌∙◌, sym, subst, ◌⊎◌, inl, inr, true, arith}
use toy_ip.Tcp.Types.{
  State, syn_sent, syn_received, established, fin_wait_1, fin_wait_2, close, close_wait, closing,
  time_wait, Skb, Conn,
}
use toy_ip.Tcp.Core.{
  free_skb, tcp_free_sock, clear_queues, tcp_clear_timers, tcp_stop_delack_timer,
  tcp_stop_retransmission_timer, tcp_enter_time_wait,
}
use toy_ip.Tcp.Output.{tcp_send_reset, is_state}
use toy_ip.Tcp.Data.{tcp_data_queue, accept_skb, acknowledge, tcp_consume_ofo_queue}
use toy_ip.Tcp.Handshake.{spawn_child, tcp_handle_listen, synsent_syn, tcp_synsent, tcp_closed}
use toy_ip.Tcp.Input.{
  Outcome, returned, check_syn, tcp_synrecv_ack, ack_syn_received, ack_synchronized, check_ack_in,
  check_ack, segment_text, fin_transition, accept_fin, check_fin, text_and_fin, tcp_process,
}
use toy_ip.Tcp.Ends
use toy_ip.Tcp.Frame.{
  sk-free_skb, sk-tcp_send_ack, sk-tcp_send_synack, sk-tcp_send_reset,
  tcp_clean_retransmission_queue-Keeps,
}

-- The transitions of the diagram that `tcp_process` makes.
infix 40 ◌⟶◌
pub data ◌⟶◌ : State → State → Type 0 where
  stay : {s : State} → s ⟶ s
  syn_ack : syn_sent ⟶ established
  simultaneous_open : syn_sent ⟶ syn_received
  accept : syn_received ⟶ established
  accept_with_fin : syn_received ⟶ close_wait
  reset : syn_received ⟶ close
  passive_close : established ⟶ close_wait
  simultaneous_close : fin_wait_1 ⟶ closing
  active_close : fin_wait_2 ⟶ time_wait

pub ruleset edges = (
  stay, syn_ack, simultaneous_open, accept, accept_with_fin, reset, passive_close,
  simultaneous_close, active_close,
)

pub ruleset frames = (
  sk-free_skb, sk-tcp_send_ack, sk-tcp_send_synack, sk-tcp_send_reset,
  tcp_clean_retransmission_queue-Keeps,
)

pub stay_of_eq : {s t : State} → t ≡ s → s ⟶ t
stay_of_eq e = rw e stay

state-free_skb : (skb : Skb) (c : Conn) → (free_skb skb c).sk.state ≡ c.sk.state
state-free_skb skb c = rw (sk-free_skb skb c)

pub state-tcp_free_sock : (c : Conn) → (tcp_free_sock c).sk.state ≡ close
unfolding tcp_free_sock clear_queues tcp_clear_timers tcp_stop_delack_timer
    tcp_stop_retransmission_timer
state-tcp_free_sock c = refl

state-tcp_closed : (skb : Skb) (c : Conn) → (tcp_closed skb c).sk.state ≡ c.sk.state
unfolding tcp_closed
state-tcp_closed skb c =
    ground (arith, sk-free_skb skb c, sk-free_skb skb (tcp_send_reset c), sk-tcp_send_reset c)

state-tcp_handle_listen :
    (isn : ℕ) (skb : Skb) (c : Conn) → (tcp_handle_listen isn skb c).sk.state ≡ c.sk.state
unfolding tcp_handle_listen spawn_child
state-tcp_handle_listen isn skb c = ground (
  arith,
  sk-free_skb skb c,
  sk-free_skb skb (tcp_send_reset c),
  sk-free_skb skb (spawn_child isn skb c),
  sk-tcp_send_reset c,
)

synsent_syn-edge :
    (skb : Skb) (c : Conn)
    → ((synsent_syn skb c).sk.state ≡ established) ⊎ ((synsent_syn skb c).sk.state ≡ syn_received)
unfolding synsent_syn
synsent_syn-edge skb c = grind (arith, frames)

tcp_synsent-edge :
    (skb : Skb) (c : Conn) → c.sk.state ≡ syn_sent → syn_sent ⟶ (tcp_synsent skb c).sk.state
unfolding tcp_synsent
tcp_synsent-edge skb c e = grind (arith, frames, synsent_syn-edge, edges)

state-acknowledge : (skb : Skb) (c : Conn) → (acknowledge skb c).sk.state ≡ c.sk.state
unfolding acknowledge
state-acknowledge skb c = grind (arith, frames)

state-tcp_data_queue : (skb : Skb) (c : Conn) → (tcp_data_queue skb c).0.sk.state ≡ c.sk.state
unfolding tcp_data_queue accept_skb tcp_consume_ofo_queue tcp_stop_delack_timer
state-tcp_data_queue skb c = grind (arith, frames, state-acknowledge)

-- How a part of `tcp_process` may end: in which states it may return, and go on.
abbrev EndsIn : (State → Type 0) → (State → Type 0) → Outcome → Type 0
EndsIn at_return at_run = Ends.Ends (λ d. at_return d.sk.state) (λ d. at_run d.sk.state)

is_state-syn_received : (s : State) → is_state s syn_received ≡ true → s ≡ syn_received
is_state-syn_received s e = ground arith

check_syn-Ends :
    (skb : Skb) (c : Conn) → EndsIn (λ t. c.sk.state ⟶ t) (λ t. t ≡ c.sk.state) (check_syn skb c)
unfolding check_syn
check_syn-Ends skb c = grind (arith, frames, is_state-syn_received, state-tcp_free_sock, edges)

ack_syn_received-Ends :
    (skb : Skb) (c : Conn)
    → EndsIn (λ t. t ≡ c.sk.state) (λ t. t ≡ established) (ack_syn_received skb c)
unfolding ack_syn_received tcp_synrecv_ack
ack_syn_received-Ends skb c = grind (arith, frames)

ack_synchronized-Ends :
    (skb : Skb) (c : Conn)
    → EndsIn (λ t. t ≡ c.sk.state) (λ t. t ≡ c.sk.state) (ack_synchronized skb c)
unfolding ack_synchronized
ack_synchronized-Ends skb c = grind (arith, frames)

state-segment_text : (skb : Skb) (c : Conn) → (segment_text skb c).0.sk.state ≡ c.sk.state
unfolding segment_text
state-segment_text skb c = ground (arith, state-tcp_data_queue skb c)

state-tcp_enter_time_wait : (c : Conn) → (tcp_enter_time_wait c).sk.state ≡ time_wait
unfolding tcp_enter_time_wait tcp_clear_timers tcp_stop_delack_timer tcp_stop_retransmission_timer
state-tcp_enter_time_wait c = refl

-- The transition that a FIN makes.
abbrev after_fin : State → State
after_fin syn_received = close_wait
after_fin established = close_wait
after_fin fin_wait_1 = closing
after_fin fin_wait_2 = time_wait
after_fin s = s

state-fin_transition :
    (s : State) (c : Conn) → c.sk.state ≡ s → (fin_transition s c).sk.state ≡ after_fin s
unfolding fin_transition
state-fin_transition syn_received c e = refl
state-fin_transition fin_wait_2 c e = state-tcp_enter_time_wait c
state-fin_transition _ c e = grind arith

state-accept_fin : (c : Conn) → (accept_fin c).sk.state ≡ after_fin c.sk.state
unfolding accept_fin
state-accept_fin c = grind (arith, frames, state-fin_transition)

state-check_fin :
    (skb : Skb) (c : Conn)
    → ((check_fin skb c).sk.state ≡ c.sk.state)
      ⊎ ((check_fin skb c).sk.state ≡ after_fin c.sk.state)
unfolding check_fin
state-check_fin skb c = grind (arith, frames, state-accept_fin)

check_ack-Ends :
    (skb : Skb) (c : Conn)
    → EndsIn
        (λ t. t ≡ c.sk.state)
        (λ t. (t ≡ c.sk.state) ⊎ ((c.sk.state ≡ syn_received) × (t ≡ established)))
        (check_ack skb c)
unfolding check_ack check_ack_in
check_ack-Ends skb c =
    grind (arith, frames, ack_syn_received-Ends skb c, ack_synchronized-Ends skb c)

text_and_fin-Ends :
    (skb : Skb) (c : Conn)
    → EndsIn (λ t. (t ≡ c.sk.state) ⊎ (t ≡ after_fin c.sk.state)) (λ t. ⊥) (text_and_fin skb c)
unfolding text_and_fin
text_and_fin-Ends skb c = grind (arith, state-segment_text, state-check_fin)

fin_edge : (s : State) → s ⟶ after_fin s
fin_edge syn_received = accept_with_fin
fin_edge established = passive_close
fin_edge fin_wait_1 = simultaneous_close
fin_edge fin_wait_2 = active_close
fin_edge _ = stay

-- Where the part on the acknowledgement may leave the state.
abbrev Acked : State → State → Type 0
Acked s t = (t ≡ s) ⊎ ((s ≡ syn_received) × (t ≡ established))

acked_edge : (s t u : State) → Acked s t → (u ≡ t) ⊎ (u ≡ after_fin t) → s ⟶ u
acked_edge s t u (inl e) (inl f) = stay_of_eq (f ∙ e)
acked_edge s t u (inl e) (inr f) = rw (f, e) (fin_edge s)
acked_edge s t u (inr (e, e')) (inl f) = rw (e, f, e') accept
acked_edge s t u (inr (e, e')) (inr f) = rw (e, f, e') accept_with_fin

-- Whatever segment arrives, and whatever else the stack holds, `tcp_process` changes the state of
-- a socket along the edges of ⟶ alone: one of the eight transitions that it names, or none.
pub tcp_process-⟶ :
    (isn : ℕ) (skb : Skb) (c : Conn) {d : Conn}
    → tcp_process isn skb c ≡ returned d
    → c.sk.state ⟶ d.sk.state
tcp_process-⟶ isn skb c e = rw e at (
    Ends.process (λ d. c.sk.state ⟶ d.sk.state) isn skb c (stay_of_eq (state-tcp_closed skb c))
      (stay_of_eq (state-tcp_handle_listen isn skb c))
      (λ f. subst (λ s. s ⟶ (tcp_synsent skb c).sk.state) (sym f) (tcp_synsent-edge skb c f))
      (Ends.synchronized (λ d. c.sk.state ⟶ d.sk.state) (λ d. d.sk.state ≡ c.sk.state)
        (λ d. Acked c.sk.state d.sk.state) skb c (λ _. check_syn-Ends skb c)
        (λ d f.
          Ends.mono (check_ack skb d) (λ t g. stay_of_eq (g ∙ f)) (λ t g. rw f at g)
            (check_ack-Ends skb d))
        (λ d acked.
          Ends.mono (text_and_fin skb d) (λ t f. acked_edge _ _ _ acked f) (λ t f. f)
            (text_and_fin-Ends skb d))
        (stay_of_eq (grind (arith, frames)))))
