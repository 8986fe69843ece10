-- ===== src/Tcp/Send.antt =====
-- toy_src/tcp_output.c: the start of a connection, the sending of data, and the retransmissions.
use toy_ip.Base.{
  ℕ, zero, suc, ◌+◌, true, false, Option, none, some, List, [], ◌∷◌, u8, u32, ℤ, negsuc, ltb,
  if◌then◌else◌, take, drop, length,
}
use toy_ip.Timer.{retransmission_timeout}
use toy_ip.Tcp.Types.{established, close_wait, Skb, Conn, TcpSock}
use toy_ip.Tcp.Core.{
  set_tcb, start_timer, tcp_release_retransmission_timer, tcp_handle_fin_state, tcp_free_sock,
}
use toy_ip.Tcp.Output.{
  is_state, blank, tcp_alloc_skb, alloc, stamped, tcp_transmit_skb, tcp_reset_retransmission_timer,
  is_empty, tcp_queue_transmit_skb, tcp_send_syn,
}

unfoldable pub tcp_begin_connect : ℕ → Conn → Conn
tcp_begin_connect isn c =
    let t = c.sk.tcb in
    let ready = record c {
      sk = record (c.sk) {
        tcp_header_len = 20;
        tcb = record t {
          isn = isn;
          snd_wnd = 0;
          snd_wl1 = 0;
          snd_una = isn;
          snd_up = isn;
          snd_nxt = isn;
          rcv_nxt = 0;
          rcv_wnd = 44477;
        };
      };
    } in
    let d = tcp_send_syn ready in
    let t' = d.sk.tcb in set_tcb (record t' { snd_nxt = u32 (t'.snd_nxt + 1) }) d

-- `dlen = slen > mss ? mss : slen`, where `slen` is the number of bytes left.
unfoldable pub send_size : List ℕ → TcpSock → ℕ
send_size bytes sk = if ltb sk.smss (length bytes) then sk.smss else length bytes

-- A round of the loop of `tcp_send`; the last segment has PSH.
unfoldable pub send_round : List ℕ → Conn → Conn
send_round bytes c =
    let dlen = send_size bytes c.sk in
    let th = record blank { ack = true; psh = is_empty (drop dlen bytes) } in
    tcp_queue_transmit_skb (tcp_alloc_skb th (take dlen bytes) c.env) (alloc c)

-- The loop of `tcp_send` over `buf`, of which `bytes` is left.
unfoldable pub tcp_send_from : ℕ → List ℕ → Conn → Option Conn
tcp_send_from zero bytes c = none
tcp_send_from (suc fuel) bytes c =
    let rest = tcp_send_from fuel (drop (send_size bytes c.sk) bytes) (send_round bytes c) in
    if is_empty bytes then some c else rest

-- Each round sends at least a byte if `smss` is positive, so one round more than there are bytes
-- is enough (`Segments.tcp_send_total`).
unfoldable pub tcp_send : List ℕ → Conn → Option Conn
tcp_send bytes c = tcp_send_from (length bytes + 1) bytes c

-- `tcp_notify_user`
unfoldable pub tcp_notify_user : Conn → Conn
tcp_notify_user c =
    if is_state c.sk.state close_wait
    then record c { sk = record (c.sk) { wait_sleeping = false } }
    else c

-- -ETIMEDOUT
abbrev etimedout : ℤ
etimedout = negsuc 109

unfoldable pub retry_connect : List Skb → Conn → Conn
retry_connect [] c = c
retry_connect (skb ∷ queue) c =
    let out = tcp_transmit_skb skb c.sk.tcb.snd_una c in
    let s = out.sk in
    tcp_reset_retransmission_timer (record out {
      sk = record s {
        backoff = u8 (s.backoff + 1);
        write_queue = stamped s s.tcb.snd_una skb ∷ queue;
      };
    })

unfoldable pub tcp_connect_rto : Conn → Conn
tcp_connect_rto c =
    let d = tcp_release_retransmission_timer c in
    if is_state d.sk.state established
    then d
    else if ltb 3 d.sk.backoff
    then tcp_free_sock (record d { sk = record (d.sk) { err = etimedout } })
    else retry_connect d.sk.write_queue d

unfoldable pub retransmit_head : List Skb → Conn → Conn
retransmit_head [] c = tcp_notify_user c
retransmit_head (skb ∷ queue) c =
    let s = c.sk in
    let out = tcp_transmit_skb skb s.tcb.snd_una c in
    let pointer = out.env.timers.next in
    let started = start_timer 500 retransmission_timeout out in
    let d = record started {
      sk = record s {
        retransmit = some pointer;
        write_queue = stamped s s.tcb.snd_una skb ∷ queue;
      };
    } in
    if skb.th.fin then tcp_handle_fin_state d else d

unfoldable pub tcp_retransmission_timeout : Conn → Conn
tcp_retransmission_timeout c =
    let d = tcp_release_retransmission_timer c in retransmit_head d.sk.write_queue d
