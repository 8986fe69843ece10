-- ===== src/Tcp/Ends.antt =====
-- Postconditions of the parts of `tcp_process`, and the rules by which they compose.
use toy_ip.Base.{ℕ, ◌≡◌, refl, true, inl, inr, Bool-cases, if◌then◌else◌}
use toy_ip.Tcp.Types.{State, close, listen, syn_sent, Skb, Conn}
use toy_ip.Tcp.Core.{free_skb}
use toy_ip.Tcp.Output.{tcp_send_ack}
use toy_ip.Tcp.Handshake.{tcp_closed, tcp_handle_listen, tcp_synsent}
use toy_ip.Tcp.Input.{
  Outcome, fault, returned, running, and_then, tcp_packet_filter, check_syn, check_ack,
  text_and_fin, process_synchronized, process_in, tcp_process,
}

-- What holds where a part returns, and where it lets the next part start.
abbrev pub Ends : (Conn → Type 0) → (Conn → Type 0) → Outcome → Type 0
Ends at_return at_run fault = Unit
Ends at_return at_run (returned d) = at_return d
Ends at_return at_run (running d) = at_run d

pub bind :
    (P Q R : Conn → Type 0) (m : Outcome) (k : Conn → Outcome)
    → Ends P Q m
    → ((d : Conn) → Q d → Ends P R (k d))
    → Ends P R (and_then m k)
bind P Q R fault k h next = tt
bind P Q R (returned d) k h next = h
bind P Q R (running d) k h next = next d h

pub mono :
    {P Q P' Q' : Conn → Type 0} (m : Outcome)
    → ((d : Conn) → P d → P' d)
    → ((d : Conn) → Q d → Q' d)
    → Ends P Q m
    → Ends P' Q' m
mono fault p q h = tt
mono (returned d) p q h = p d h
mono (running d) p q h = q d h

abbrev pub Never : Conn → Type 0
Never d = ⊥

module _ (P Q Q' : Conn → Type 0) (skb : Skb) (c : Conn) where
  -- A postcondition of `tcp_process` behind its `switch`, from those of its parts.
  pub synchronized :
      (tcp_packet_filter c.sk.tcb skb ≡ true → Ends P Q (check_syn skb c))
      → ((d : Conn) → Q d → Ends P Q' (check_ack skb d))
      → ((d : Conn) → Q' d → Ends P Never (text_and_fin skb d))
      → P (free_skb skb (if skb.th.rst then c else tcp_send_ack c))
      → Ends P Never (process_synchronized skb c)
  unfolding process_synchronized
  synchronized syn ack text drop = elim (Bool-cases (tcp_packet_filter c.sk.tcb skb)) [
    | inl pass ↦ rw pass (
        bind P Q' Never (and_then (check_syn skb c) (check_ack skb)) (text_and_fin skb)
          (bind P Q Q' (check_syn skb c) (check_ack skb) (syn pass) ack) text)
    | inr fail ↦ rw fail drop
  ]

module _ (P : Conn → Type 0) (isn : ℕ) (skb : Skb) (c : Conn) where
  -- A postcondition of `tcp_process`, from those of the functions that it calls.
  pub process :
      P (tcp_closed skb c)
      → P (tcp_handle_listen isn skb c)
      → (c.sk.state ≡ syn_sent → P (tcp_synsent skb c))
      → Ends P Never (process_synchronized skb c)
      → Ends P Never (tcp_process isn skb c)
  unfolding tcp_process process_in
  process closed listening sent synchronized = by_state c.sk.state refl
    where
      by_state : (s : State) → c.sk.state ≡ s → Ends P Never (process_in s isn skb c)
      by_state close e = closed
      by_state listen e = listening
      by_state syn_sent e = sent e
      by_state _ e = synchronized
