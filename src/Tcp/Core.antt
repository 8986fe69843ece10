-- ===== src/Tcp/Core.antt =====
-- toy_src/tcp.c and the buffer queues of toy_src/skbuff.h: states, timers of a socket, release of
-- buffers and of a socket.
use toy_ip.Base.{ℕ, true, Option, none, some, List, [], ◌∷◌, ◌++◌, dec, lt_one, if◌then◌else◌}
use toy_ip.Timer.{Handler, linger, timer_add, timer_cancel, timer_release}
use toy_ip.Tcp.Types.{
  State, close, close_wait, last_ack, established, fin_wait_1, time_wait, Tcb, Skb, Conn,
}

-- `tcp_set_state`
abbrev pub set_state : State → Conn → Conn
set_state s c = record c { sk = record (c.sk) { state = s } }

abbrev pub set_tcb : Tcb → Conn → Conn
set_tcb t c = record c { sk = record (c.sk) { tcb = t } }

-- `free_skb`: the buffer goes back only if its count is below 1.
unfoldable pub free_skb : Skb → Conn → Conn
free_skb skb c =
    if lt_one skb.refcnt
    then record c { env = record (c.env) { freed = c.env.freed ++ (skb.address ∷ []) } }
    else c

-- `skb_queue_free`, on the buffers of the queue in turn.
unfoldable pub skb_queue_free : List Skb → Conn → Conn
skb_queue_free [] c = c
skb_queue_free (skb ∷ queue) c =
    skb_queue_free queue (free_skb (record skb { refcnt = dec skb.refcnt }) c)

-- `timer_add` with this socket for its argument.
abbrev pub start_timer : ℕ → Handler → Conn → Conn
start_timer expire handler c = record c {
  env = record (c.env) { timers = timer_add expire handler c.sk.address c.env.timers };
}

abbrev pub cancel_timer : Option ℕ → Conn → Conn
cancel_timer t c = record c { env = record (c.env) { timers = timer_cancel t c.env.timers } }

abbrev pub release_timer : Option ℕ → Conn → Conn
release_timer t c = record c { env = record (c.env) { timers = timer_release t c.env.timers } }

unfoldable pub tcp_stop_retransmission_timer : Conn → Conn
tcp_stop_retransmission_timer c =
    let c' = cancel_timer c.sk.retransmit c in
    record c' { sk = record (c.sk) { retransmit = none } }

unfoldable pub tcp_release_retransmission_timer : Conn → Conn
tcp_release_retransmission_timer c =
    let c' = release_timer c.sk.retransmit c in
    record c' { sk = record (c.sk) { retransmit = none } }

unfoldable pub tcp_stop_delack_timer : Conn → Conn
tcp_stop_delack_timer c =
    let c' = cancel_timer c.sk.delack c in record c' { sk = record (c.sk) { delack = none } }

unfoldable pub tcp_release_delack_timer : Conn → Conn
tcp_release_delack_timer c =
    let c' = release_timer c.sk.delack c in record c' { sk = record (c.sk) { delack = none } }

unfoldable pub tcp_clear_timers : Conn → Conn
tcp_clear_timers c =
    let c' = tcp_stop_delack_timer (tcp_stop_retransmission_timer c) in
    cancel_timer c'.sk.keepalive c'

unfoldable pub fin_state : State → State
fin_state close_wait = last_ack
fin_state established = fin_wait_1
fin_state s = s

unfoldable pub tcp_handle_fin_state : Conn → Conn
tcp_handle_fin_state c = set_state (fin_state c.sk.state) c

unfoldable pub tcp_enter_time_wait : Conn → Conn
tcp_enter_time_wait c =
    let cleared = tcp_clear_timers (set_state time_wait c) in
    let ready = cancel_timer cleared.sk.linger cleared in
    let pointer = ready.env.timers.next in
    let started = start_timer 3000 linger ready in
    record started { sk = record (started.sk) { linger = some pointer } }

-- `tcp_clear_queues` and `sk_free`
unfoldable pub clear_queues : Conn → Conn
clear_queues c =
    let a = skb_queue_free c.sk.ofo_queue c in
    let b = skb_queue_free c.sk.receive_queue a in
    let d = skb_queue_free c.sk.write_queue b in
    record d { sk = record (c.sk) { ofo_queue = []; receive_queue = []; write_queue = [] } }

unfoldable pub tcp_free_sock : Conn → Conn
tcp_free_sock c =
    let d = clear_queues (tcp_clear_timers (set_state close c)) in
    record d { sk = record (d.sk) { freed = true } }
