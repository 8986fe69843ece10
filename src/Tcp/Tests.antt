-- ===== src/Tcp/Tests.antt =====
-- Runs of the TCP functions, and their theorems at concrete sockets and segments.
use toy_ip.Base.{ℕ, ◌≡◌, ◌≢◌, refl, [], ◌∷◌, ◌++◌, true, false, some, arith}
use toy_ip.Timer.{timer_add, timer_cancel, timer_release, modify}
use toy_ip.Tcp.Types.{
  listen, syn_received, Segment, established, fin_wait_2, close, close_wait, time_wait, Skb,
  TcpSock, Conn,
}
use toy_ip.Tcp.Core.{
  free_skb, tcp_stop_delack_timer, tcp_stop_retransmission_timer, tcp_clear_timers,
}
use toy_ip.Tcp.Output.{
  send_bare, tcp_alloc_skb, tcp_transmit_skb, filled, stamped, tcp_send_ack, tcp_send_synack,
}
use toy_ip.Tcp.Data.{
  insert_before_larger, tcp_data_insert_ordered, consume, tcp_consume_ofo_queue, ack_now,
  acknowledge, accept_skb, tcp_data_queue,
}
use toy_ip.Tcp.Handshake.{
  clean, tcp_clean_retransmission_queue, store, spawn_child, tcp_handle_listen, tcp_alloc_sock,
  child_sock, tcp_closed,
}
use toy_ip.Tcp.Input.{
  Outcome, returned, tcp_packet_filter, check_syn, ack_synchronized, check_ack_in, check_ack,
  segment_text, fin_transition, accept_fin, check_fin, text_and_fin, process_synchronized,
  process_in, tcp_process,
}
use toy_ip.Tcp.Transitions.{◌⟶◌, tcp_process-⟶}
use toy_ip.Tcp.Sequence.{InOrder, Advances, tcp_process-Advances}
use toy_ip.Tcp.Reach.{segment, here, next, Reach-ne}
use toy_ip.Tcp.Deaf.{IsDeaf, none_yet, feed, act, shut, tcp_process-child-IsDeaf}
use toy_ip.Tcp.Sock.{write_back, tcp_accept, tcp_close}
use toy_ip.Tcp.Passive.{IsSynAck, passive_open}
use toy_ip.Tcp.Sock.{connect_start}
use toy_ip.Tcp.Active.{Started, IsSynSegment, Opened, IsAckSegment, active_open}
use toy_ip.Tcp.Fixtures.{tcb, sock, env, conn, data_skb}

abbrev fin_skb : Skb
fin_skb = let skb = data_skb 9 500 [] in record skb { th = record (skb.th) { fin = true } }

-- `tcp_process`, with the functions that the runs of this file go through.
run : ℕ → Skb → Conn → Outcome
unfolding timer_add timer_cancel timer_release modify free_skb tcp_stop_delack_timer
    tcp_stop_retransmission_timer tcp_clear_timers send_bare tcp_alloc_skb tcp_transmit_skb filled
    stamped tcp_send_ack tcp_send_synack insert_before_larger tcp_data_insert_ordered consume
    tcp_consume_ofo_queue ack_now acknowledge accept_skb tcp_data_queue clean
    tcp_clean_retransmission_queue store tcp_packet_filter check_syn ack_synchronized check_ack_in
    check_ack segment_text fin_transition accept_fin check_fin text_and_fin process_synchronized
    process_in tcp_process tcp_alloc_sock child_sock
run = tcp_process

fin_closes :
    (d : Conn) × (tcp_process 0 fin_skb conn ≡ returned d)
    × (d.sk.state ≡ close_wait)
    × (d.sk.tcb.rcv_nxt ≡ 501)
unfolding run
fin_closes = (_, refl, refl, refl)

tcp_process-⟶_example : established ⟶ close_wait
unfolding run
tcp_process-⟶_example = tcp_process-⟶ 0 fin_skb conn refl

tcp_process-Advances_example :
    let sk = record sock { tcb = tcb } in
    Advances tcb (record tcb { snd_una = 200; rcv_nxt = 501 })
    × InOrder (record tcb { snd_una = 200; rcv_nxt = 501 })
unfolding run
tcp_process-Advances_example = tcp_process-Advances 0 fin_skb conn (omega arith) refl

-- From CLOSE over a listening socket; a RST leaves it there.
abbrev fresh : Conn
fresh = record { sk = record sock { state = close }; env = env }

abbrev rst_skb : Skb
rst_skb = let skb = data_skb 9 500 [] in record skb { th = record (skb.th) { rst = true } }

Reach-ne_example : (close ≢ fin_wait_2) × (close ≢ time_wait)
unfolding run tcp_closed
Reach-ne_example =
    Reach-ne {c = fresh} {d = record fresh { env = record env { freed = 9 ∷ [] } }} refl
      (next here (segment 0 rst_skb refl))

-- A SYN from 20, and the data that follows it.
abbrev syn_skb : Skb
syn_skb =
    let skb = data_skb 8 499 [] in record skb { th = record (skb.th) { syn = true; ack = false } }

-- A listening socket, and the ACK that follows the SYN-ACK with number 700.
abbrev listening : Conn
listening = record { sk = record sock { state = listen }; env = env }

-- The child of a listening socket after the SYN, the data that follows it, and a close.
abbrev child : TcpSock
child =
    let sk = child_sock 50 700 sock syn_skb in
    record sk { tcb = record (sk.tcb) { snd_nxt = 701; snd_una = 700 } }

data_is_dropped :
    (d : Conn) × (tcp_process 0 (data_skb 9 500 (1 ∷ 2 ∷ [])) (record { sk = child; env = env })
      ≡ returned d)
    × (d.sk.receive_queue ≡ [])
    × (d.env.freed ≡ 50 ∷ 9 ∷ [])
unfolding run
data_is_dropped = (_, refl, refl, refl)

tcp_process-child-IsDeaf_example : IsDeaf (tcp_close (record data_is_dropped.0 { env = env })).0.sk
unfolding run data_is_dropped spawn_child store tcp_handle_listen
tcp_process-child-IsDeaf_example =
    tcp_process-child-IsDeaf 700 syn_skb listening _ child _ refl
      (record { syn = refl; ack = refl; rst = refl }) refl refl
      (act env (feed env 0 (data_skb 9 500 (1 ∷ 2 ∷ [])) none_yet refl) shut)

abbrev answer_skb : Skb
answer_skb = let skb = data_skb 9 500 [] in record skb { th = record (skb.th) { ack_seq = 701 } }

passive_open_example :
    (c1 : Conn) × (tcp_process 700 syn_skb listening ≡ returned c1)
    × ((s : Segment) × (c1.env.sent ≡ [] ++ (s ∷ [])) × IsSynAck 700 syn_skb s)
    × (sk : TcpSock) × ((write_back c1).socks 50 ≡ some sk)
    × (sk.state ≡ syn_received)
    × (c2 : Conn) × (tcp_process 0 answer_skb (record { sk = sk; env = write_back c1 })
        ≡ returned c2)
    × (c2.sk.state ≡ established)
    × (l : TcpSock) × (c2.env.socks 1 ≡ some l)
    × ((tcp_accept l).1 ≡ some 50)
passive_open_example =
    passive_open 700 0 syn_skb answer_skb listening refl refl (omega arith) (omega arith)
      (record { syn = refl; ack = refl; rst = refl })
      (record {
        no_syn = refl;
        no_fin = refl;
        ack = refl;
        no_data = refl;
        seq = refl;
        ack_seq = refl;
      })

-- The SYN-ACK for a SYN with number 700.
abbrev reply_skb : Skb
reply_skb =
    let skb = data_skb 9 499 [] in record skb { th = record (skb.th) { syn = true; ack_seq = 701 } }

active_open_example :
    let c1 = connect_start 20 80 10 4000 700 fresh in
    Started 700 c1
    × ((s : Segment) × (c1.env.sent ≡ [] ++ (s ∷ [])) × IsSynSegment 80 4000 700 sock.rmss s)
    × (d : Conn) × (tcp_process 0 reply_skb c1 ≡ returned d)
    × Opened reply_skb d
    × (s : Segment) × (d.env.sent ≡ c1.env.sent ++ (s ∷ []))
    × IsAckSegment 700 reply_skb s
active_open_example =
    active_open 20 80 10 4000 700 0 reply_skb fresh refl (omega arith)
      (record { syn = refl; ack = refl; rst = refl; ack_seq = refl })
