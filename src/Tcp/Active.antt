-- ===== src/Tcp/Active.antt =====
-- A connection that is opened from this side.
use toy_ip.Base.{
  ℕ, u16, ltb, some, dec, List, [], ◌∷◌, ◌++◌, ◌∙◌, ap, ◌+◌, ◌<◌, ◌^◌, ◌≡◌, refl, Bool-cases, inl,
  inr, true, false, arith, u32,
}
use toy_ip.Tcp.Types.{close, syn_sent, established, Skb, Segment, Tcb, Conn}
use toy_ip.Tcp.Core.{
  set_tcb, set_state, tcp_stop_retransmission_timer, free_skb, tcp_release_retransmission_timer,
}
use toy_ip.Tcp.Output.{
  blank, filled, send_bare, tcp_send_ack, tcp_alloc_skb, tcp_transmit_skb,
  tcp_reset_retransmission_timer, tcp_queue_transmit_skb, tcp_send_syn, is_empty,
}
use toy_ip.Tcp.Send.{tcp_begin_connect}
use toy_ip.Tcp.Handshake.{
  clean, tcp_clean_retransmission_queue, is_unacceptable, synsent_syn, tcp_synsent,
}
use toy_ip.Tcp.Input.{returned, process_in, tcp_process}
use toy_ip.Tcp.Sock.{connect_start}
use toy_ip.Tcp.Frame.{sk-free_skb, sk-tcp_send_ack, tcp_clean_retransmission_queue-Keeps}

-- What a SYN leaves of a socket that is not connected.
pub record Started (isn : ℕ) (c : Conn) : Type 0 where
  pub state : c.sk.state ≡ syn_sent
  pub isn_is : c.sk.tcb.isn ≡ isn
  pub snd_una : c.sk.tcb.snd_una ≡ isn
  pub snd_nxt : c.sk.tcb.snd_nxt ≡ u32 (isn + 1)
  pub asleep : c.sk.wait_sleeping ≡ true

connect_start-Started :
    (daddr dport saddr sport isn : ℕ) (c : Conn)
    → c.sk.state ≡ close
    → Started isn (connect_start daddr dport saddr sport isn c)
unfolding tcp_alloc_skb connect_start tcp_begin_connect tcp_send_syn tcp_queue_transmit_skb
    tcp_transmit_skb tcp_reset_retransmission_timer tcp_release_retransmission_timer
connect_start-Started daddr dport saddr sport isn c e =
    elim (Bool-cases (is_empty c.sk.write_queue)) [
      | inl q ↦
          rw (e, q)
            (record {
              state = refl;
              isn_is = refl;
              snd_una = refl;
              snd_nxt = omega arith;
              asleep = refl;
            })
      | inr q ↦
          rw (e, q)
            (record {
              state = refl;
              isn_is = refl;
              snd_una = refl;
              snd_nxt = omega arith;
              asleep = refl;
            })
    ]

-- The SYN, with the two ports, its number and the option of the segment size.
pub record IsSynSegment (dport sport isn rmss : ℕ) (s : Segment) : Type 0 where
  pub syn : s.th.syn ≡ true
  pub ack : s.th.ack ≡ false
  pub rst : s.th.rst ≡ false
  pub fin : s.th.fin ≡ false
  pub sport_is : s.th.sport ≡ sport
  pub dport_is : s.th.dport ≡ dport
  pub seq : s.th.seq ≡ isn
  pub mss : s.th.mss ≡ some (u16 rmss)
  pub bytes : s.bytes ≡ []

sent-connect_start :
    (daddr dport saddr sport isn : ℕ) (c : Conn)
    → c.sk.state ≡ close
    → (s : Segment) × ((connect_start daddr dport saddr sport isn c).env.sent
        ≡ c.env.sent ++ (s ∷ []))
      × IsSynSegment dport sport isn c.sk.rmss s
unfolding tcp_alloc_skb connect_start tcp_begin_connect tcp_send_syn tcp_queue_transmit_skb
    tcp_transmit_skb tcp_reset_retransmission_timer tcp_release_retransmission_timer filled
sent-connect_start daddr dport saddr sport isn c e = elim (Bool-cases (is_empty c.sk.write_queue)) [
  | inl q ↦
      rw (e, q)
        (
          _,
          refl,
          record {
            syn = refl;
            ack = refl;
            rst = refl;
            fin = refl;
            sport_is = refl;
            dport_is = refl;
            seq = refl;
            mss = refl;
            bytes = refl;
          },
        )
  | inr q ↦
      rw (e, q)
        (
          _,
          refl,
          record {
            syn = refl;
            ack = refl;
            rst = refl;
            fin = refl;
            sport_is = refl;
            dport_is = refl;
            seq = refl;
            mss = refl;
            bytes = refl;
          },
        )
]

-- The SYN-ACK that acknowledges the SYN with the number `isn`.
pub record IsReply (isn : ℕ) (skb : Skb) : Type 0 where
  pub syn : skb.th.syn ≡ true
  pub ack : skb.th.ack ≡ true
  pub rst : skb.th.rst ≡ false
  pub ack_seq : skb.th.ack_seq ≡ isn + 1

-- What the SYN-ACK makes of the socket.
pub record Opened (skb : Skb) (d : Conn) : Type 0 where
  pub state : d.sk.state ≡ established
  pub awake : d.sk.wait_sleeping ≡ false
  pub rcv_nxt : d.sk.tcb.rcv_nxt ≡ u32 (skb.th.seq + 1)
  pub snd_una : d.sk.tcb.snd_una ≡ d.sk.tcb.snd_nxt

synsent_syn-Opened :
    (isn : ℕ) (skb : Skb) (c : Conn)
    → Started isn c
    → isn + 1 < 2 ^ 32
    → IsReply isn skb
    → Opened skb (synsent_syn skb c)
unfolding synsent_syn
synsent_syn-Opened isn skb c s small r =
    grind (arith, tcp_clean_retransmission_queue-Keeps, sk-tcp_send_ack)

acceptable :
    (isn : ℕ) (skb : Skb) (c : Conn)
    → Started isn c
    → isn + 1 < 2 ^ 32
    → IsReply isn skb
    → is_unacceptable c.sk.tcb skb.th.ack_seq ≡ false
unfolding is_unacceptable
acceptable isn skb c s small r = ground (arith, s, r)

-- The ACK of the SYN-ACK `skb`.
pub record IsAckSegment (isn : ℕ) (skb : Skb) (s : Segment) : Type 0 where
  pub syn : s.th.syn ≡ false
  pub ack : s.th.ack ≡ true
  pub rst : s.th.rst ≡ false
  pub fin : s.th.fin ≡ false
  pub seq : s.th.seq ≡ u32 (isn + 1)
  pub ack_seq : s.th.ack_seq ≡ u32 (skb.th.seq + 1)
  pub bytes : s.bytes ≡ []

sent-free_skb : (skb : Skb) (c : Conn) → (free_skb skb c).env.sent ≡ c.env.sent
unfolding free_skb
sent-free_skb skb c = ground arith

sent-clean : (una : ℕ) (queue : List Skb) (c : Conn) → (clean una queue c).env.sent ≡ c.env.sent
unfolding clean tcp_stop_retransmission_timer
sent-clean una [] c = ground arith
sent-clean una (skb ∷ queue) c =
    let s = record skb { refcnt = dec skb.refcnt } in
    ground (arith, sent-free_skb s c, sent-clean una queue (free_skb s c))

sent-tcp_send_ack :
    (c : Conn)
    → c.sk.state ≡ established
    → (tcp_send_ack c).env.sent
      ≡ c.env.sent
        ++ (record { th = filled c.sk c.sk.tcb.snd_nxt (record blank { ack = true }); bytes = [] }
            ∷ [])
unfolding tcp_send_ack send_bare tcp_transmit_skb tcp_alloc_skb free_skb
sent-tcp_send_ack c e = rw e refl

sent-synsent_syn :
    (isn : ℕ) (skb : Skb) (c : Conn)
    → Started isn c
    → isn + 1 < 2 ^ 32
    → IsReply isn skb
    → (s : Segment) × ((synsent_syn skb c).env.sent ≡ c.env.sent ++ (s ∷ []))
      × IsAckSegment isn skb s
unfolding synsent_syn tcp_clean_retransmission_queue filled
sent-synsent_syn isn skb c s small r =
    let t : Tcb = record (c.sk.tcb) {
      rcv_nxt = u32 (skb.th.seq + 1);
      irs = skb.th.seq;
      snd_una = skb.th.ack_seq;
    } in
    let d = tcp_clean_retransmission_queue skb.th.ack_seq (set_tcb t c) in
    let k : d.sk.tcb ≡ t =
      (tcp_clean_retransmission_queue-Keeps skb.th.ack_seq (set_tcb t c)).tcb in
    let up : ltb d.sk.tcb.isn d.sk.tcb.snd_una ≡ true = rw k (ground (arith, s, r)) in
    let e = set_state established (set_tcb (record (d.sk.tcb) { snd_una = d.sk.tcb.snd_nxt }) d) in
    let sent : Segment = record {
      th = filled e.sk e.sk.tcb.snd_nxt (record blank { ack = true });
      bytes = [];
    } in
    (
      sent,
      rw (synsent_syn, r.ack, up)
          (sent-tcp_send_ack e refl
            ∙ ap (λ l. l ++ (sent ∷ [])) (sent-clean _ c.sk.write_queue (set_tcb t c))),
      record {
        syn = refl;
        ack = refl;
        rst = refl;
        fin = refl;
        seq = rw k s.snd_nxt;
        ack_seq = rw k refl;
        bytes = refl;
      },
    )

process_reply :
    (isn isn' : ℕ) (skb : Skb) (c : Conn)
    → Started isn c
    → isn + 1 < 2 ^ 32
    → IsReply isn skb
    → tcp_process isn' skb c ≡ returned (free_skb skb (synsent_syn skb c))
unfolding tcp_process process_in tcp_synsent
process_reply isn isn' skb c s small r =
    rw (s.state, process_in, tcp_synsent, r.ack, acceptable isn skb c s small r, r.rst, r.syn) refl

Opened-free_skb : (skb s : Skb) (d : Conn) → Opened skb d → Opened skb (free_skb s d)
Opened-free_skb skb s d o = grind (arith, sk-free_skb)

-- On a socket in CLOSE, `tcp_v4_connect` sends a SYN from `sport` to `dport`, with the number `isn`
-- and the option of the segment size, and nothing else. It comes to sleep in SYN_SENT, with the
-- number of its SYN for SND.UNA and the next one for SND.NXT. The SYN-ACK that acknowledges the SYN,
-- without a wrap of the number, is answered with an ACK with the next number, which acknowledges
-- that of the SYN-ACK, and with nothing else. It takes the socket to ESTABLISHED with the number
-- after that of the SYN-ACK for RCV.NXT and everything acknowledged, and wakes the thread up.
pub active_open :
    (daddr dport saddr sport isn isn' : ℕ) (skb : Skb) (c : Conn)
    → c.sk.state ≡ close
    → isn + 1 < 2 ^ 32
    → IsReply isn skb
    → let c1 = connect_start daddr dport saddr sport isn c in
      Started isn c1
      × ((s : Segment) × (c1.env.sent ≡ c.env.sent ++ (s ∷ []))
          × IsSynSegment dport sport isn c.sk.rmss s)
      × (d : Conn) × (tcp_process isn' skb c1 ≡ returned d)
      × Opened skb d
      × (s : Segment) × (d.env.sent ≡ c1.env.sent ++ (s ∷ []))
      × IsAckSegment isn skb s
active_open daddr dport saddr sport isn isn' skb c e small r =
    let c1 = connect_start daddr dport saddr sport isn c in
    let s = connect_start-Started daddr dport saddr sport isn c e in
    let (ack, sent, good) = sent-synsent_syn isn skb c1 s small r in
    (
      s,
      sent-connect_start daddr dport saddr sport isn c e,
      free_skb skb (synsent_syn skb c1),
      process_reply isn isn' skb c1 s small r,
      Opened-free_skb skb skb _ (synsent_syn-Opened isn skb c1 s small r),
      ack,
      sent-free_skb skb (synsent_syn skb c1) ∙ sent,
      good,
    )
