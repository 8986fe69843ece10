-- ===== src/Tcp/Frame.antt =====
-- What the functions that send, free and clean leave alone.
use toy_ip.Base.{ℕ, ◌≡◌, refl, ◌∙◌, List, [], ◌∷◌, dec, arith}
use toy_ip.Tcp.Types.{Skb, Conn}
use toy_ip.Tcp.Core.{free_skb, tcp_stop_retransmission_timer, skb_queue_free}
use toy_ip.Tcp.Output.{send_bare, tcp_transmit_skb, tcp_send_ack, tcp_send_synack, tcp_send_reset}
use toy_ip.Tcp.Handshake.{clean, tcp_clean_retransmission_queue}

-- Freeing a buffer does not touch the socket.
pub sk-free_skb : (skb : Skb) (c : Conn) → (free_skb skb c).sk ≡ c.sk
unfolding free_skb
sk-free_skb skb c = ground arith

pub sk-skb_queue_free : (queue : List Skb) (c : Conn) → (skb_queue_free queue c).sk ≡ c.sk
unfolding skb_queue_free
sk-skb_queue_free [] c = refl
sk-skb_queue_free (skb ∷ queue) c =
    let s = record skb { refcnt = dec skb.refcnt } in
    sk-skb_queue_free queue (free_skb s c) ∙ sk-free_skb s c

-- An acknowledgement does not touch the socket.
pub sk-tcp_send_ack : (c : Conn) → (tcp_send_ack c).sk ≡ c.sk
unfolding tcp_send_ack send_bare tcp_transmit_skb free_skb
sk-tcp_send_ack c = ground arith

pub sk-tcp_send_synack : (c : Conn) → (tcp_send_synack c).sk ≡ c.sk
unfolding tcp_send_synack send_bare tcp_transmit_skb free_skb
sk-tcp_send_synack c = ground arith

pub sk-tcp_send_reset :
    (c : Conn)
    → (tcp_send_reset c).sk
      ≡ record (c.sk) { tcb = record (c.sk.tcb) { snd_una = c.sk.tcb.snd_nxt } }
unfolding tcp_send_reset send_bare tcp_transmit_skb free_skb
sk-tcp_send_reset c = ground arith

-- A state and a transmission control block that a function leaves as they are.
pub record Keeps (c d : Conn) : Type 0 where
  pub state : d.sk.state ≡ c.sk.state
  pub tcb : d.sk.tcb ≡ c.sk.tcb
  pub receive_queue : d.sk.receive_queue ≡ c.sk.receive_queue
  pub ofo_queue : d.sk.ofo_queue ≡ c.sk.ofo_queue

clean-Keeps : (una : ℕ) (queue : List Skb) (c : Conn) → Keeps c (clean una queue c)
unfolding clean tcp_stop_retransmission_timer
clean-Keeps una [] c = ground arith
clean-Keeps una (skb ∷ queue) c =
    let s = record skb { refcnt = dec skb.refcnt } in
    ground (arith, sk-free_skb s c, clean-Keeps una queue (free_skb s c))

pub tcp_clean_retransmission_queue-Keeps :
    (una : ℕ) (c : Conn) → Keeps c (tcp_clean_retransmission_queue una c)
unfolding tcp_clean_retransmission_queue
tcp_clean_retransmission_queue-Keeps una c = clean-Keeps una c.sk.write_queue c
