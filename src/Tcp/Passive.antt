-- ===== src/Tcp/Passive.antt =====
-- A connection that is opened from the other side, from the SYN to `tcp_accept`.
use toy_ip.Base.{
  ℕ, ◌+◌, ◌<◌, ◌^◌, ◌≡◌, ◌≢◌, refl, ◌∙◌, ap, true, false, some, [], ◌∷◌, ◌++◌, arith, u32, leb,
  ◌==◌, if◌then◌else◌, remove, ==_iff,
}
use toy_ip.Tcp.Types.{listen, syn_received, established, Skb, Segment, TcpSock, Env, Conn}
use toy_ip.Tcp.Core.{free_skb}
use toy_ip.Tcp.Output.{filled, tcp_alloc_skb, send_bare, tcp_transmit_skb, tcp_send_synack}
use toy_ip.Tcp.Handshake.{child_sock, tcp_alloc_sock, spawn_child, tcp_handle_listen, store}
use toy_ip.Tcp.Input.{
  returned, running, tcp_packet_filter, check_syn, tcp_synrecv_ack, ack_syn_received, check_ack_in,
  check_ack, segment_text, check_fin, text_and_fin, process_synchronized, process_in, tcp_process,
}
use toy_ip.Tcp.Sock.{Socks, write_back, tcp_accept}
use toy_ip.Tcp.Frame.{sk-free_skb, sk-tcp_send_synack}

-- A SYN without ACK and RST.
pub record IsSyn (skb : Skb) : Type 0 where
  pub syn : skb.th.syn ≡ true
  pub ack : skb.th.ack ≡ false
  pub rst : skb.th.rst ≡ false

-- The answer to a SYN-ACK with the number `isn` that itself answered `syn`.
pub record IsAnswer (isn : ℕ) (syn skb : Skb) : Type 0 where
  pub no_syn : skb.th.syn ≡ false
  pub no_fin : skb.th.fin ≡ false
  pub ack : skb.th.ack ≡ true
  pub no_data : skb.dlen ≡ 0
  pub seq : skb.th.seq ≡ u32 (syn.th.seq + 1)
  pub ack_seq : skb.th.ack_seq ≡ isn + 1

pub socks-free_skb : (skb : Skb) (c : Conn) → (free_skb skb c).env.socks ≡ c.env.socks
unfolding free_skb
socks-free_skb skb c = ground arith

socks-tcp_send_synack : (c : Conn) → (tcp_send_synack c).env.socks ≡ c.env.socks
unfolding tcp_send_synack send_bare tcp_transmit_skb free_skb
socks-tcp_send_synack c = ground arith

-- The child as `tcp_handle_listen` leaves it.
abbrev pub child : ℕ → Skb → Conn → TcpSock
child isn syn c =
    let sk = child_sock c.env.next isn c.sk syn in
    record sk { tcb = record (sk.tcb) { snd_nxt = u32 (isn + 1); snd_una = isn } }

module _ (isn : ℕ) (syn : Skb) (c : Conn) where
  pub process_syn :
      c.sk.state ≡ listen
      → IsSyn syn
      → tcp_process isn syn c ≡ returned (free_skb syn (spawn_child isn syn c))
  unfolding tcp_process process_in tcp_handle_listen
  process_syn l s = rw (l, process_in, s.rst, s.ack, s.syn) refl

  pub socks-spawn_child :
      (q : ℕ)
      → (spawn_child isn syn c).env.socks q
        ≡ (if c.env.next == q then some (child isn syn c) else c.env.socks q)
  unfolding spawn_child store
  socks-spawn_child q =
      let env : Env = record (c.env) { next = c.env.next + 1 } in
      let answered : Conn = record { sk = child_sock c.env.next isn c.sk syn; env = env } in
      rw (sk-tcp_send_synack answered, socks-tcp_send_synack answered) refl

  sk-spawn_child :
      (spawn_child isn syn c).sk ≡ record (c.sk) { listen_queue = c.env.next ∷ c.sk.listen_queue }
  unfolding spawn_child
  sk-spawn_child = refl

-- The ACK that answers the SYN-ACK, at a child whose parent still listens.
module _ (isn isn' : ℕ) (syn ack : Skb) (listener : Conn) (env : Env) (parent : TcpSock) where
  abbrev at_child : Conn
  at_child = record { sk = child isn syn listener; env = env }

  -- The parent with the child in its other queue, and the child with the acknowledgement.
  abbrev accepting : TcpSock
  accepting = record parent {
    listen_queue = remove listener.env.next parent.listen_queue;
    accept_queue = listener.env.next ∷ remove listener.env.next parent.accept_queue;
    wait_sleeping = false;
  }

  abbrev answered : Conn
  answered =
      let sk = child isn syn listener in
      record {
        sk = record sk { state = established; tcb = record (sk.tcb) { snd_una = ack.th.ack_seq } };
        env = record env { socks = store listener.sk.address accepting env.socks };
      }

  filter_passes : IsAnswer isn syn ack → tcp_packet_filter at_child.sk.tcb ack ≡ true
  unfolding tcp_packet_filter child_sock tcp_alloc_sock
  filter_passes a = ground arith

  check_syn_passes : IsAnswer isn syn ack → check_syn ack at_child ≡ running at_child
  unfolding check_syn
  check_syn_passes a = rw a.no_syn refl

  check_ack_answers :
      isn + 1 < 2 ^ 32
      → IsAnswer isn syn ack
      → env.socks listener.sk.address ≡ some parent
      → parent.state ≡ listen
      → check_ack ack at_child ≡ running answered
  unfolding check_ack check_ack_in ack_syn_received tcp_synrecv_ack child_sock tcp_alloc_sock
  check_ack_answers small a e l =
      let up : leb isn ack.th.ack_seq ≡ true = ground arith in
      let sent : leb ack.th.ack_seq (u32 (isn + 1)) ≡ true = ground arith in
      rw (a.ack, up, sent, e, l) refl

  no_text : IsAnswer isn syn ack → text_and_fin ack answered ≡ returned (free_skb ack answered)
  unfolding text_and_fin segment_text check_fin
  no_text a = rw (a.no_data, a.no_fin) refl

  process_ack :
      isn + 1 < 2 ^ 32
      → IsAnswer isn syn ack
      → env.socks listener.sk.address ≡ some parent
      → parent.state ≡ listen
      → tcp_process isn' ack at_child ≡ returned (free_skb ack answered)
  unfolding tcp_process process_in process_synchronized child_sock
  process_ack small a e l =
      rw (filter_passes a, check_syn_passes a, check_ack_answers small a e l, no_text a) refl

sent-free_skb : (skb : Skb) (c : Conn) → (free_skb skb c).env.sent ≡ c.env.sent
unfolding free_skb
sent-free_skb skb c = ground arith

-- A SYN-ACK with the number `isn` for the segment `syn`.
pub record IsSynAck (isn : ℕ) (syn : Skb) (s : Segment) : Type 0 where
  pub syn_bit : s.th.syn ≡ true
  pub ack_bit : s.th.ack ≡ true
  pub seq : s.th.seq ≡ isn
  pub ack_seq : s.th.ack_seq ≡ u32 (syn.th.seq + 1)

sent-spawn_child :
    (isn : ℕ) (syn : Skb) (c : Conn)
    → (s : Segment) × ((spawn_child isn syn c).env.sent ≡ c.env.sent ++ (s ∷ []))
      × IsSynAck isn syn s
unfolding spawn_child tcp_send_synack send_bare tcp_alloc_skb tcp_transmit_skb filled free_skb
    child_sock tcp_alloc_sock
sent-spawn_child isn syn c =
    (_, refl, record { syn_bit = refl; ack_bit = refl; seq = refl; ack_seq = refl })

store_same : (p : ℕ) (sk : TcpSock) (socks : Socks) → store p sk socks p ≡ some sk
unfolding store
store_same p sk socks = ground arith

store_other : (p q : ℕ) (sk : TcpSock) (socks : Socks) → p ≢ q → store p sk socks q ≡ socks q
unfolding store
store_other p q sk socks ne = ground arith

socks-write_back :
    (c : Conn) (p q : ℕ)
    → c.sk.freed ≡ false
    → c.sk.address ≡ p
    → (write_back c).socks q ≡ store p c.sk c.env.socks q
unfolding write_back
socks-write_back c p q live e = rw (live, e) refl

-- A listening socket that is not freed, and whose address the next allocation does not return,
-- answers a SYN with a SYN-ACK and makes a child in SYN_RECEIVED. The ACK that
-- answers the SYN-ACK, without data and without a wrap of the number, takes the child to
-- ESTABLISHED, and the next `tcp_accept` on the listening socket gives out that child.
pub passive_open :
    (isn isn' : ℕ) (syn ack : Skb) (c : Conn)
    → c.sk.state ≡ listen
    → c.sk.freed ≡ false
    → c.sk.address ≢ c.env.next
    → isn + 1 < 2 ^ 32
    → IsSyn syn
    → IsAnswer isn syn ack
    → (c1 : Conn) × (tcp_process isn syn c ≡ returned c1)
      × ((s : Segment) × (c1.env.sent ≡ c.env.sent ++ (s ∷ [])) × IsSynAck isn syn s)
      × (sk : TcpSock) × ((write_back c1).socks c.env.next ≡ some sk)
      × (sk.state ≡ syn_received)
      × (c2 : Conn) × (tcp_process isn' ack (record { sk = sk; env = write_back c1 }) ≡ returned c2)
      × (c2.sk.state ≡ established)
      × (l : TcpSock) × (c2.env.socks c.sk.address ≡ some l)
      × ((tcp_accept l).1 ≡ some c.env.next)
unfolding tcp_accept child_sock
passive_open isn isn' syn ack c l f fresh small s a =
    let c1 : Conn = free_skb syn (spawn_child isn syn c) in
    let sk1 : c1.sk ≡ record (c.sk) { listen_queue = c.env.next ∷ c.sk.listen_queue } =
      sk-free_skb syn (spawn_child isn syn c) ∙ sk-spawn_child isn syn c in
    let p = c.sk.address in
    let q = c.env.next in
    let live : c1.sk.freed ≡ false = ap (λ k. k.freed) sk1 ∙ f in
    let here : c1.sk.address ≡ p = ap (λ k. k.address) sk1 in
    let parent : (write_back c1).socks c.sk.address ≡ some c1.sk =
      socks-write_back c1 p p live here ∙ store_same p c1.sk c1.env.socks in
    let stored : (write_back c1).socks c.env.next ≡ some (child isn syn c) =
      socks-write_back c1 p q live here
      ∙ store_other p q c1.sk c1.env.socks fresh
      ∙ ap (λ k. k q) (socks-free_skb syn (spawn_child isn syn c))
      ∙ socks-spawn_child isn syn c q
      ∙ rw ((==_iff q q).1 refl) refl in
    let done =
      process_ack isn isn' syn ack c (write_back c1) c1.sk small a parent
        (ap (λ k. k.state) sk1 ∙ l) in
    let after = answered isn isn' syn ack c (write_back c1) c1.sk in
    let (seg, sent, good) = sent-spawn_child isn syn c in
    (
      c1,
      process_syn isn syn c l s,
      (seg, sent-free_skb syn (spawn_child isn syn c) ∙ sent, good),
      child isn syn c,
      stored,
      refl,
      _,
      done,
      ap (λ k. k.state) (sk-free_skb ack after),
      _,
      ap (λ k. k p) (socks-free_skb ack after) ∙ store_same p _ _,
      refl,
    )
