-- ===== src/Tcp/Data.antt =====
-- toy_src/tcp_data.c: the receive queue and the queue of segments that came out of order.
use toy_ip.Base.{
  ℕ, zero, suc, ◌+◌, ◌-◌, Bool, true, false, ◌||◌, Option, none, some, List, [], ◌∷◌, ◌++◌, u8, u32,
  inc, dec, lt_one, ltb, ◌==◌, if◌then◌else◌, take, drop, length,
}
use toy_ip.Timer.{send_delack}
use toy_ip.Tcp.Types.{Skb, TcpSock, Conn}
use toy_ip.Tcp.Core.{free_skb, start_timer, tcp_stop_delack_timer}
use toy_ip.Tcp.Output.{tcp_send_ack}

abbrev pub hold : Skb → Skb
hold skb = record skb { refcnt = inc skb.refcnt }

abbrev pub cons_some : Skb → Option (List Skb) → Option (List Skb)
cons_some next none = none
cons_some next (some queue) = some (next ∷ queue)

-- The walk of `tcp_data_insert_ordered`: the queue with the buffer put in, or `none` if there is a
-- buffer with its sequence number. `skb_queue_add` is `list_add(&new->list, &next->list)`, which
-- links the new buffer behind `next`. A buffer that runs into `next` is passed over with a message.
unfoldable pub insert_before_larger : Skb → List Skb → Option (List Skb)
insert_before_larger skb [] = some (hold skb ∷ [])
insert_before_larger skb (next ∷ queue) =
    let rest = cons_some next (insert_before_larger skb queue) in
    if ltb skb.seq next.seq
    then (if ltb next.seq skb.end_seq then rest else some (next ∷ hold skb ∷ queue))
    else if skb.seq == next.seq
    then none
    else rest

-- The queue afterwards, and the buffer with its reference count.
unfoldable pub tcp_data_insert_ordered : List Skb → Skb → List Skb × Skb
tcp_data_insert_ordered queue skb = elim (insert_before_larger skb queue) [
  | none ↦ (queue, skb)
  | some q ↦ (q, hold skb)
]

-- The loop of `tcp_consume_ofo_queue`: what it leaves of the queue, what it moves to the receive
-- queue, and `rcv_nxt`.
unfoldable pub consume : ℕ → List Skb → List Skb × List Skb × ℕ
consume rcv_nxt [] = ([], [], rcv_nxt)
consume rcv_nxt (skb ∷ queue) =
    let rest = consume (u32 (rcv_nxt + skb.dlen)) queue in
    if rcv_nxt == skb.seq then (rest.0, skb ∷ rest.1, rest.2) else (skb ∷ queue, [], rcv_nxt)

unfoldable pub tcp_consume_ofo_queue : TcpSock → TcpSock
tcp_consume_ofo_queue sk =
    let (left, moved, rcv_nxt) = consume sk.tcb.rcv_nxt sk.ofo_queue in
    record sk {
      ofo_queue = left;
      receive_queue = sk.receive_queue ++ moved;
      tcb = record (sk.tcb) { rcv_nxt = rcv_nxt };
    }

-- `th->psh || (skb->dlen == tsk->rmss && ++tsk->delacks > 1)`: the test, and `delacks` after it.
unfoldable pub ack_now : Skb → TcpSock → Bool × ℕ
ack_now skb sk =
    if skb.th.psh
    then (true, sk.delacks)
    else if skb.dlen == sk.rmss
    then (ltb 1 (u8 (sk.delacks + 1)), u8 (sk.delacks + 1))
    else (false, sk.delacks)

-- The acknowledgement that `tcp_data_queue` sends at once, or leaves to a timer.
unfoldable pub acknowledge : Skb → Conn → Conn
acknowledge skb c =
    let (now, delacks) = ack_now skb c.sk in
    if now
    then tcp_send_ack (record c { sk = record (c.sk) { delacks = 0 } })
    else (let pointer = c.env.timers.next in
        let started = start_timer 200 send_delack c in
        record started { sk = record (c.sk) { delacks = delacks; delack = some pointer } })

-- An in-sequence buffer: the receive queue and `rcv_nxt`.
unfoldable pub accept_skb : Skb → TcpSock → TcpSock
accept_skb skb sk =
    let t = sk.tcb in
    tcp_consume_ofo_queue (record sk {
      receive_queue = sk.receive_queue ++ (hold skb ∷ []);
      tcb = record t { rcv_nxt = u32 (t.rcv_nxt + skb.dlen) };
    })

-- The connection afterwards, and the buffer with its reference count.
unfoldable pub tcp_data_queue : Skb → Conn → Conn × Skb
tcp_data_queue skb c =
    if c.sk.tcb.rcv_wnd == 0
    then (free_skb skb c, skb)
    else if skb.seq == c.sk.tcb.rcv_nxt
    then (acknowledge skb (tcp_stop_delack_timer (record c { sk = accept_skb skb c.sk })), hold skb)
    else (let (queue, skb') = tcp_data_insert_ordered c.sk.ofo_queue skb in
        (tcp_send_ack (record c { sk = record (c.sk) { ofo_queue = queue } }), skb'))

-- The variables of the loop of `tcp_data_dequeue`: the receive queue, the bit TCP_PSH of the flags,
-- the addresses of the buffers freed, the bytes copied to `user_buf`, and `rlen`.
pub record Reading : Type 0 where
  pub queue : List Skb
  pub psh : Bool
  pub freed : List ℕ
  pub buf : List ℕ
  pub rlen : ℕ

-- `dlen = (rlen + skb->dlen) > userlen ? (userlen - rlen) : skb->dlen`
unfoldable pub chunk : ℕ → ℕ → Skb → ℕ
chunk userlen rlen skb = if ltb userlen (u32 (rlen + skb.dlen)) then userlen - rlen else skb.dlen

-- A round of the loop at the buffer at the head of the queue.
unfoldable pub read_round : ℕ → Skb → List Skb → Reading → Reading
read_round userlen skb queue r =
    let dlen = chunk userlen r.rlen skb in
    let left = record skb { dlen = skb.dlen - dlen; payload = drop dlen skb.payload } in
    let copied = record r { buf = r.buf ++ take dlen skb.payload; rlen = u32 (r.rlen + dlen) } in
    if left.dlen == 0
    then record copied {
      queue = queue;
      psh = r.psh || skb.th.psh;
      freed = r.freed ++ (if lt_one (dec skb.refcnt) then skb.address ∷ [] else []);
    }
    else record copied { queue = left ∷ queue }

-- `while (!skb_queue_empty(&sk->receive_queue) && rlen < userlen)`
unfoldable pub read_loop : ℕ → ℕ → Reading → Option Reading
read_loop zero userlen r = none
read_loop (suc fuel) userlen r = elim r.queue [
  | [] ↦ some r
  | skb ∷ queue ↦
      (let rest = read_loop fuel userlen (read_round userlen skb queue r) in
        if ltb r.rlen userlen then rest else some r)
]

-- Each round but the last takes a buffer off the queue, so two rounds more than there are buffers
-- are enough (`Dequeue.tcp_data_dequeue_total`).
unfoldable pub tcp_data_dequeue : ℕ → TcpSock → Option Reading
tcp_data_dequeue userlen sk =
    read_loop (length sk.receive_queue + 2) userlen
      (record { queue = sk.receive_queue; psh = sk.psh; freed = []; buf = []; rlen = 0 })
