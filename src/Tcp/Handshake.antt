-- ===== src/Tcp/Handshake.antt =====
-- toy_src/tcp_input.c: the retransmission queue, and a segment in CLOSE, LISTEN and SYN_SENT. The
-- header `th` of a buffer is its field `th`.
use toy_ip.Base.{
  ℕ, ◌+◌, Bool, false, ◌&&◌, ◌||◌, Option, none, some, List, [], ◌∷◌, ◌++◌, u32, pos, dec, ltb, leb,
  ◌==◌, if◌then◌else◌,
}
use toy_ip.Tcp.Types.{syn_received, established, close, Tcb, Skb, TcpSock, Conn}
use toy_ip.Tcp.Core.{set_state, set_tcb, free_skb, tcp_stop_retransmission_timer}
use toy_ip.Tcp.Output.{tcp_send_ack, tcp_send_synack, tcp_send_reset}

-- The loop of `tcp_clean_retransmission_queue`, and the stop of the timer behind it.
unfoldable pub clean : ℕ → List Skb → Conn → Conn
clean una [] c =
    tcp_stop_retransmission_timer (record c { sk = record (c.sk) { write_queue = [] } })
clean una (skb ∷ queue) c =
    let rest = clean una queue (free_skb (record skb { refcnt = dec skb.refcnt }) c) in
    if leb skb.end_seq una
    then rest
    else record c { sk = record (c.sk) { write_queue = skb ∷ queue } }

unfoldable pub tcp_clean_retransmission_queue : ℕ → Conn → Conn
tcp_clean_retransmission_queue una c = clean una c.sk.write_queue c

-- Writes the socket at an address.
unfoldable pub store : ℕ → TcpSock → (ℕ → Option TcpSock) → ℕ → Option TcpSock
store p sk socks q = if p == q then some sk else socks q

-- `tcp_alloc_sock` with the fields of `struct sock` zero.
unfoldable pub tcp_alloc_sock : ℕ → TcpSock
tcp_alloc_sock address = record {
  address = address;
  freed = false;
  state = close;
  err = pos 0;
  sport = 0;
  dport = 0;
  saddr = 0;
  daddr = 0;
  tcp_header_len = 0;
  tcb = record {
    snd_una = 0;
    snd_nxt = 0;
    snd_wnd = 0;
    snd_up = 0;
    snd_wl1 = 0;
    isn = 0;
    rcv_nxt = 0;
    rcv_wnd = 0;
    irs = 0;
  };
  psh = false;
  fin = false;
  backoff = 0;
  listen_queue = [];
  accept_queue = [];
  wait_sleeping = false;
  recv_sleeping = false;
  parent = none;
  retransmit = none;
  delack = none;
  keepalive = none;
  linger = none;
  delacks = 0;
  rmss = 1460;
  smss = 1460;
  receive_queue = [];
  write_queue = [];
  ofo_queue = [];
}

-- The child of `tcp_listen_child_sock` in the state in which `tcp_handle_listen` answers the SYN.
unfoldable pub child_sock : ℕ → ℕ → TcpSock → Skb → TcpSock
child_sock address isn sk skb =
    let blank = tcp_alloc_sock address in
    record blank {
      saddr = skb.daddr;
      daddr = skb.saddr;
      sport = skb.th.dport;
      dport = skb.th.sport;
      parent = some sk.address;
      state = syn_received;
      tcb = record (blank.tcb) {
        irs = skb.th.seq;
        isn = isn;
        snd_nxt = isn;
        rcv_nxt = u32 (skb.th.seq + 1);
      };
    }

-- The SYN branch of `tcp_handle_listen`; `isn` is what `tcp_generate_isn` returns.
unfoldable pub spawn_child : ℕ → Skb → Conn → Conn
spawn_child isn skb c =
    let address = c.env.next in
    let env = record (c.env) { next = address + 1 } in
    let child = child_sock address isn c.sk skb in
    let answered = tcp_send_synack (record { sk = child; env = env }) in
    let t = answered.sk.tcb in
    let child' = record (answered.sk) {
      tcb = record t { snd_nxt = u32 (isn + 1); snd_una = isn };
    } in
    record {
      sk = record (c.sk) { listen_queue = address ∷ c.sk.listen_queue };
      env = record (answered.env) {
        socks = store address child' answered.env.socks;
        established = answered.env.established ++ (address ∷ []);
      };
    }

unfoldable pub tcp_handle_listen : ℕ → Skb → Conn → Conn
tcp_handle_listen isn skb c = free_skb skb (
    if skb.th.rst
    then c
    else if skb.th.ack
    then tcp_send_reset c
    else if skb.th.syn
    then spawn_child isn skb c
    else c)

-- `tcp_synsent` once the SYN is accepted.
unfoldable pub synsent_syn : Skb → Conn → Conn
synsent_syn skb c =
    let th = skb.th in
    let t = record (c.sk.tcb) { rcv_nxt = u32 (th.seq + 1); irs = th.seq } in
    let d =
      if th.ack
      then tcp_clean_retransmission_queue th.ack_seq (set_tcb (record t { snd_una = th.ack_seq }) c)
      else set_tcb t c in
    let t' = d.sk.tcb in
    if ltb t'.isn t'.snd_una
    then (let e =
          tcp_send_ack (set_state established (set_tcb (record t' { snd_una = t'.snd_nxt }) d)) in
        record e { sk = record (e.sk) { wait_sleeping = false } })
    else tcp_send_synack (set_state syn_received (set_tcb (record t' { snd_una = t'.isn }) d))

-- Whether an acknowledgement is out of the range that `tcp_synsent` accepts.
unfoldable pub is_unacceptable : Tcb → ℕ → Bool
is_unacceptable t ack_seq =
    (ltb ack_seq t.isn || ltb t.snd_nxt ack_seq) || (ltb ack_seq t.snd_una || ltb t.snd_nxt ack_seq)

-- No RST goes out at `reset_and_discard`, so it is the same as `discard`.
unfoldable pub tcp_synsent : Skb → Conn → Conn
tcp_synsent skb c = free_skb skb (
    if skb.th.ack && is_unacceptable c.sk.tcb skb.th.ack_seq
    then c
    else if skb.th.rst
    then c
    else if skb.th.syn
    then synsent_syn skb c
    else c)

unfoldable pub tcp_closed : Skb → Conn → Conn
tcp_closed skb c = free_skb skb (if skb.th.rst then c else tcp_send_reset c)
