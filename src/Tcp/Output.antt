-- ===== src/Tcp/Output.antt =====
-- toy_src/tcp_output.c. A segment is handed to `ip_output` by appending it to `sent`; the code
-- that `ip_output` returns is only passed on or printed by the functions of this file, and is
-- left out.
use toy_ip.Base.{
  ℕ, ◌+◌, ◌*◌, ◌^◌, Bool, true, false, none, some, List, [], ◌∷◌, ◌++◌, u16, u32, pos, ◌==◌,
  if◌then◌else◌, take, length,
}
use toy_ip.Timer.{connect_rto, retransmission_timeout}
use toy_ip.Tcp.Types.{
  State, listen, syn_sent, syn_received, established, close, close_wait, TcpHdr, Skb, TcpSock, Env,
  Conn,
}
use toy_ip.Tcp.Core.{
  set_state, set_tcb, free_skb, start_timer, tcp_release_retransmission_timer,
  tcp_release_delack_timer,
}

abbrev pub is_state : State → State → Bool
is_state listen listen = true
is_state syn_sent syn_sent = true
is_state syn_received syn_received = true
is_state established established = true
is_state State.fin_wait_1 State.fin_wait_1 = true
is_state State.fin_wait_2 State.fin_wait_2 = true
is_state close close = true
is_state close_wait close_wait = true
is_state State.closing State.closing = true
is_state State.last_ack State.last_ack = true
is_state State.time_wait State.time_wait = true
is_state _ _ = false

-- A header of zero bytes.
abbrev pub blank : TcpHdr
blank = record {
  sport = 0;
  dport = 0;
  seq = 0;
  ack_seq = 0;
  hl = 0;
  fin = false;
  syn = false;
  rst = false;
  psh = false;
  ack = false;
  win = 0;
  mss = none;
}

-- `tcp_alloc_skb` with `dlen` bytes of data already copied in and the header fields that the
-- caller sets before it transmits; its address is `env.next`.
unfoldable pub tcp_alloc_skb : TcpHdr → List ℕ → Env → Skb
tcp_alloc_skb th bytes env = record {
  address = env.next;
  refcnt = pos 0;
  seq = 0;
  end_seq = 0;
  dlen = length bytes;
  payload = bytes;
  th = th;
  saddr = 0;
  daddr = 0;
}

abbrev pub alloc : Conn → Conn
alloc c = record c { env = record (c.env) { next = c.env.next + 1 } }

-- The header that `tcp_transmit_skb` fills in, in host byte order.
unfoldable pub filled : TcpSock → ℕ → TcpHdr → TcpHdr
filled sk seq th = record th {
  hl = if th.hl == 0 then 5 else th.hl;
  sport = sk.sport;
  dport = sk.dport;
  seq = seq;
  ack_seq = sk.tcb.rcv_nxt;
  win = u16 sk.tcb.rcv_wnd;
}

-- The buffer after `tcp_transmit_skb`: the range of sequence numbers for the retransmission queue.
unfoldable pub stamped : TcpSock → ℕ → Skb → Skb
stamped sk seq skb = record skb {
  th = filled sk seq skb.th;
  seq = sk.tcb.snd_una;
  end_seq = u32 (sk.tcb.snd_una + skb.dlen);
}

unfoldable pub tcp_transmit_skb : Skb → ℕ → Conn → Conn
tcp_transmit_skb skb seq c = record c {
  env = record (c.env) {
    sent =
        c.env.sent
        ++ (record { th = filled c.sk seq skb.th; bytes = take skb.dlen skb.payload } ∷ []);
  };
}

-- `backoff` is below 8 wherever `tcp_connect_rto` leaves it, so the shift does not wrap.
unfoldable pub tcp_reset_retransmission_timer : Conn → Conn
tcp_reset_retransmission_timer c =
    let released = tcp_release_retransmission_timer c in
    let pointer = released.env.timers.next in
    let started =
      if is_state released.sk.state syn_sent
      then start_timer (500 * 2 ^ released.sk.backoff) connect_rto released
      else start_timer 500 retransmission_timeout released in
    record started { sk = record (released.sk) { retransmit = some pointer } }

abbrev pub is_empty {ℓ} : {A : Type ℓ} → List A → Bool
is_empty [] = true
is_empty (_ ∷ _) = false

unfoldable pub tcp_queue_transmit_skb : Skb → Conn → Conn
tcp_queue_transmit_skb skb c =
    let armed = if is_empty c.sk.write_queue then tcp_reset_retransmission_timer c else c in
    let t = armed.sk.tcb in
    let out = tcp_transmit_skb skb t.snd_nxt armed in
    record out {
      sk = record (armed.sk) {
        write_queue = armed.sk.write_queue ++ (stamped armed.sk t.snd_nxt skb ∷ []);
        tcb = record t { snd_nxt = u32 (t.snd_nxt + skb.dlen) };
      };
    }

-- A buffer without data that is sent once and freed.
unfoldable pub send_bare : TcpHdr → Conn → Conn
send_bare th c =
    let skb = tcp_alloc_skb th [] c.env in
    free_skb skb (tcp_transmit_skb skb c.sk.tcb.snd_nxt (alloc c))

unfoldable pub tcp_send_synack : Conn → Conn
tcp_send_synack c =
    if is_state c.sk.state syn_received
    then send_bare (record blank { syn = true; ack = true }) c
    else c

unfoldable pub tcp_send_ack : Conn → Conn
tcp_send_ack c = if is_state c.sk.state close then c else send_bare (record blank { ack = true }) c

unfoldable pub tcp_send_delack : Conn → Conn
tcp_send_delack c =
    tcp_send_ack (tcp_release_delack_timer (record c { sk = record (c.sk) { delacks = 0 } }))

-- `snd_una = snd_nxt`, then a RST.
unfoldable pub tcp_send_reset : Conn → Conn
tcp_send_reset c =
    let t = c.sk.tcb in
    send_bare (record blank { rst = true }) (set_tcb (record t { snd_una = t.snd_nxt }) c)

unfoldable pub tcp_send_syn : Conn → Conn
tcp_send_syn c =
    let skb =
      tcp_alloc_skb (record blank { syn = true; hl = 6; mss = some (u16 c.sk.rmss) }) [] c.env in
    elim c.sk.state [
      | syn_sent ↦ tcp_queue_transmit_skb skb (set_state syn_sent (alloc c))
      | close ↦ tcp_queue_transmit_skb skb (set_state syn_sent (alloc c))
      | listen ↦ tcp_queue_transmit_skb skb (set_state syn_sent (alloc c))
      | _ ↦ c
    ]

-- The buffer of a FIN, in `tcp_send_fin` and in `tcp_queue_fin`.
abbrev fin_hdr : TcpHdr
fin_hdr = record blank { fin = true; ack = true }

unfoldable pub tcp_send_fin : Conn → Conn
tcp_send_fin c =
    if is_state c.sk.state close
    then c
    else tcp_queue_transmit_skb (tcp_alloc_skb fin_hdr [] c.env) (alloc c)

unfoldable pub tcp_queue_fin : Conn → Conn
tcp_queue_fin c =
    let d = tcp_queue_transmit_skb (tcp_alloc_skb fin_hdr [] c.env) (alloc c) in
    let t = d.sk.tcb in set_tcb (record t { snd_nxt = u32 (t.snd_nxt + 1) }) d
