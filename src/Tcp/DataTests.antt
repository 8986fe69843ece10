-- ===== src/Tcp/DataTests.antt =====
-- Sending, reordering and reading at concrete buffers.
use toy_ip.Base.{ℕ, ◌<◌, min, ◌≡◌, refl, List, [], ◌∷◌, ◌++◌, some, arith, length}
use toy_ip.Tcp.Types.{Skb, TcpSock, Conn}
use toy_ip.Tcp.Data.{
  Reading, hold, tcp_data_insert_ordered, consume, tcp_consume_ofo_queue, accept_skb,
  tcp_data_dequeue,
}
use toy_ip.Tcp.Handshake.{tcp_clean_retransmission_queue}
use toy_ip.Tcp.Send.{tcp_send}
use toy_ip.Tcp.Segments.{Sends, tcp_send_total}
use toy_ip.Tcp.Forgets.{tcp_send-forgets}
use toy_ip.Tcp.Stream.{stream}
use toy_ip.Tcp.Dequeue.{tcp_data_dequeue_total}
use toy_ip.Tcp.Reassembly.{Chain, Waits, accept_skb_lem, tcp_data_insert_ordered-behind}
use toy_ip.Tcp.Fixtures.{tcb, sock, env, data_skb}

-- Three buffers of which the first two are in sequence.
abbrev first : Skb
first = data_skb 1 500 (1 ∷ 2 ∷ 3 ∷ [])

abbrev second : Skb
second = data_skb 2 503 (4 ∷ 5 ∷ [])

abbrev fourth : Skb
fourth = data_skb 4 510 (9 ∷ [])

abbrev waiting : TcpSock
waiting = record sock { ofo_queue = second ∷ fourth ∷ [] }

accept_skb_runs :
    ((accept_skb first waiting).tcb.rcv_nxt ≡ 505)
    × ((accept_skb first waiting).ofo_queue ≡ fourth ∷ [])
unfolding accept_skb tcp_consume_ofo_queue consume
accept_skb_runs = (refl, refl)

accept_skb_lem_example :
    let sk' = accept_skb first waiting in
    (moved : List Skb) × (sk'.receive_queue ≡ [] ++ (hold first ∷ moved))
    × (moved ++ sk'.ofo_queue ≡ second ∷ fourth ∷ [])
    × Chain 500 (hold first ∷ moved) sk'.tcb.rcv_nxt
    × Waits sk'.tcb.rcv_nxt sk'.ofo_queue
accept_skb_lem_example = accept_skb_lem first waiting refl

tcp_data_insert_ordered-behind_example :
    let queue' = (tcp_data_insert_ordered (fourth ∷ []) second).0 in
    (queue' ≡ fourth ∷ hold second ∷ []) × (consume 503 queue' ≡ (queue', [], 503))
tcp_data_insert_ordered-behind_example =
    tcp_data_insert_ordered-behind second fourth [] (omega arith) (omega arith)

abbrev readable : TcpSock
readable = record sock { receive_queue = first ∷ second ∷ [] }

tcp_data_dequeue_total_example :
    (r : Reading) × (tcp_data_dequeue 4 readable ≡ some r)
    × (r.rlen ≡ min 4 5)
    × (length r.buf ≡ r.rlen)
    × (r.buf ++ stream r.queue ≡ 1 ∷ 2 ∷ 3 ∷ 4 ∷ 5 ∷ [])
tcp_data_dequeue_total_example = tcp_data_dequeue_total 4 readable (omega arith) (omega arith)

-- Seven bytes in segments of at most three, with nothing in flight.
abbrev idle : Conn
idle = record { sk = record sock { smss = 3; tcb = record tcb { snd_una = 200 } }; env = env }

abbrev seven : List ℕ
seven = 1 ∷ 2 ∷ 3 ∷ 4 ∷ 5 ∷ 6 ∷ 7 ∷ []

tcp_send_total_example : (d : Conn) × (tcp_send seven idle ≡ some d) × Sends seven idle d
tcp_send_total_example = tcp_send_total seven idle (omega arith)

tcp_send-forgets_example :
    (d : Conn) × (tcp_send seven idle ≡ some d)
    × (203 < d.sk.tcb.snd_nxt)
    × ((tcp_clean_retransmission_queue 203 d).sk.write_queue ≡ [])
tcp_send-forgets_example =
    tcp_send-forgets seven idle (omega arith) (omega arith) refl refl (omega arith)
