-- ===== src/Tcp/Input.antt =====
-- toy_src/tcp_input.c: `tcp_process`.
use toy_ip.Base.{
  ℕ, ◌+◌, Bool, true, false, not, ◌&&◌, ◌||◌, none, some, ◌∷◌, u32, sub32, ltb, leb, ◌==◌,
  if◌then◌else◌, is_some, remove,
}
use toy_ip.Tcp.Types.{
  State, listen, syn_sent, syn_received, established, fin_wait_1, fin_wait_2, close, close_wait,
  closing, last_ack, Tcb, Skb, Conn,
}
use toy_ip.Tcp.Core.{set_state, set_tcb, free_skb, tcp_enter_time_wait, tcp_free_sock}
use toy_ip.Tcp.Output.{tcp_send_ack, tcp_send_reset, is_state}
use toy_ip.Tcp.Data.{tcp_data_queue}
use toy_ip.Tcp.Handshake.{
  tcp_clean_retransmission_queue, store, tcp_handle_listen, tcp_synsent, tcp_closed,
}

-- The end of a part of `tcp_process`: an access to memory that was freed or to NULL, a return, or
-- the state in which the next part starts.
pub data Outcome : Type 0 where
  fault : Outcome
  returned : Conn → Outcome
  running : Conn → Outcome

abbrev pub and_then : Outcome → (Conn → Outcome) → Outcome
and_then fault k = fault
and_then (returned c) k = returned c
and_then (running c) k = k c

unfoldable pub tcp_packet_filter : Tcb → Skb → Bool
tcp_packet_filter t skb =
    if ltb 0 skb.dlen && (t.rcv_wnd == 0)
    then false
    else not (ltb skb.th.seq t.rcv_nxt || ltb (u32 (t.rcv_nxt + t.rcv_wnd)) skb.th.seq)

-- `wait_wakeup` of `recv_wait`, by `recv_notify`
abbrev pub notify : Conn → Conn
notify c = record c { sk = record (c.sk) { recv_sleeping = false } }

-- `tcp_established_or_syn_recvd_socks_remove`: the `list_del_init` unlinks the socket from the list
-- that it is in, whichever that is.
abbrev pub unlink_established : Conn → Conn
unlink_established c = record c {
  env = record (c.env) {
    established = remove c.sk.address c.env.established;
    connecting = remove c.sk.address c.env.connecting;
  };
}

-- Part 4: a SYN is answered by a RST, and a passively opened socket is freed. Behind that the code
-- drops a buffer without ACK, which does not touch the socket; with ACK it reads the freed socket.
unfoldable pub check_syn : Skb → Conn → Outcome
check_syn skb c =
    if skb.th.syn
    then (let d = tcp_send_reset c in
        let e = tcp_free_sock (unlink_established d) in
        if is_state d.sk.state syn_received && is_some d.sk.parent
        then (if skb.th.ack then fault else returned (free_skb skb e))
        else running d)
    else running c

-- `tcp_synrecv_ack`: a parent that is NULL or freed is a fault; one that does not listen refuses.
unfoldable pub tcp_synrecv_ack : Conn → Outcome
tcp_synrecv_ack c = elim c.sk.parent [
  | none ↦ fault
  | some p ↦ elim (c.env.socks p) [
    | none ↦ fault
    | some parent ↦
        if is_state parent.state listen
        then running (record c {
          env = record (c.env) {
            socks =
                store p
                  (record parent {
                    listen_queue = remove c.sk.address parent.listen_queue;
                    accept_queue = c.sk.address ∷ remove c.sk.address parent.accept_queue;
                    wait_sleeping = false;
                  })
                  c.env.socks;
          };
        })
        else returned c
  ]
]

-- Part 5 in SYN_RECEIVED.
unfoldable pub ack_syn_received : Skb → Conn → Outcome
ack_syn_received skb c =
    let t = c.sk.tcb in
    let ack_seq = skb.th.ack_seq in
    if leb t.snd_una ack_seq && leb ack_seq t.snd_nxt
    then elim (tcp_synrecv_ack c) [
      | fault ↦ fault
      | returned d ↦ returned (free_skb skb d)
      | running d ↦ running (set_state established (set_tcb (record t { snd_una = ack_seq }) d))
    ]
    else returned (free_skb skb (tcp_send_reset c))

-- Part 5 in the states from ESTABLISHED on.
unfoldable pub ack_synchronized : Skb → Conn → Outcome
ack_synchronized skb c =
    let t = c.sk.tcb in
    let ack_seq = skb.th.ack_seq in
    let d =
      if ltb t.snd_una ack_seq && leb ack_seq t.snd_nxt
      then tcp_clean_retransmission_queue ack_seq (set_tcb (record t { snd_una = ack_seq }) c)
      else c in
    if ltb d.sk.tcb.snd_nxt ack_seq
    then returned (free_skb skb d)
    else if ltb ack_seq d.sk.tcb.snd_una
    then returned (free_skb skb d)
    else running d

unfoldable pub check_ack_in : State → Skb → Conn → Outcome
check_ack_in syn_received skb c = ack_syn_received skb c
check_ack_in established skb c = ack_synchronized skb c
check_ack_in fin_wait_1 skb c = ack_synchronized skb c
check_ack_in fin_wait_2 skb c = ack_synchronized skb c
check_ack_in close_wait skb c = ack_synchronized skb c
check_ack_in closing skb c = ack_synchronized skb c
check_ack_in last_ack skb c = ack_synchronized skb c
check_ack_in _ skb c = running c

unfoldable pub check_ack : Skb → Conn → Outcome
check_ack skb c = if skb.th.ack then check_ack_in c.sk.state skb c else returned (free_skb skb c)

-- Part 7: the states in which data is taken.
abbrev pub takes_data : State → Bool
takes_data established = true
takes_data fin_wait_1 = true
takes_data fin_wait_2 = true
takes_data _ = false

unfoldable pub segment_text : Skb → Conn → Conn × Skb
segment_text skb c =
    if takes_data c.sk.state && ltb 0 skb.dlen
    then (let (d, skb') = tcp_data_queue skb c in (notify d, skb'))
    else (c, skb)

-- Part 8, behind the acknowledgement of the FIN.
unfoldable pub fin_transition : State → Conn → Conn
fin_transition syn_received c = notify (set_state close_wait c)
fin_transition established c = notify (set_state close_wait c)
fin_transition fin_wait_1 c = set_state closing c
fin_transition fin_wait_2 c = tcp_enter_time_wait c
fin_transition _ c = c

-- CLOSE, LISTEN and SYN_SENT leave by `drop_and_unlock`, which frees the buffer as the end does.
abbrev pub is_unsynchronized : State → Bool
is_unsynchronized close = true
is_unsynchronized listen = true
is_unsynchronized syn_sent = true
is_unsynchronized _ = false

unfoldable pub accept_fin : Conn → Conn
accept_fin c =
    let t = c.sk.tcb in
    let d = tcp_send_ack (record c {
      sk = record (c.sk) { tcb = record t { rcv_nxt = u32 (t.rcv_nxt + 1) }; fin = true };
    }) in
    fin_transition c.sk.state (notify d)

unfoldable pub check_fin : Skb → Conn → Conn
check_fin skb c = free_skb skb (
    if skb.th.fin && (sub32 c.sk.tcb.rcv_nxt skb.dlen == skb.seq)
    then (if is_unsynchronized c.sk.state then c else accept_fin c)
    else c)

unfoldable pub text_and_fin : Skb → Conn → Outcome
text_and_fin skb c = let (d, skb') = segment_text skb c in returned (check_fin skb' d)

-- `tcp_process` behind the `switch` on CLOSE, LISTEN and SYN_SENT.
unfoldable pub process_synchronized : Skb → Conn → Outcome
process_synchronized skb c =
    if tcp_packet_filter c.sk.tcb skb
    then and_then (and_then (check_syn skb c) (check_ack skb)) (text_and_fin skb)
    else returned (free_skb skb (if skb.th.rst then c else tcp_send_ack c))

unfoldable pub process_in : State → ℕ → Skb → Conn → Outcome
process_in close isn skb c = returned (tcp_closed skb c)
process_in listen isn skb c = returned (tcp_handle_listen isn skb c)
process_in syn_sent isn skb c = returned (tcp_synsent skb c)
process_in _ isn skb c = process_synchronized skb c

unfoldable pub tcp_process : ℕ → Skb → Conn → Outcome
tcp_process isn skb c = process_in c.sk.state isn skb c
