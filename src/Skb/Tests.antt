-- ===== src/Skb/Tests.antt =====
-- Concrete buffers and queues of toy_src/skbuff.c and toy_src/skbuff.h.
use toy_ip.Base.{
  ℕ, ℤ, pos, ◌==◌, if◌then◌else◌, ◌≡◌, refl, none, some, [], ◌∷◌, arith, ◌==◌, if◌then◌else◌,
}
use toy_ip.Skb.{Buffer}
use toy_ip.Skb.Layers.{
  tcp_segment, transmissions, push_tcp, push_ip, send_udp, send_arp_request, send_arp_reply,
  send_icmp_reply,
}
use toy_ip.Skb.Fit.{sent, tcp_fits, datagrams_fit}
use toy_ip.Skb.Queue.{
  SkBuffHead, skb_peek, skb_dequeue, skb_queue_tail, skb_queue_add, Freed, released, skb_drain,
}
use toy_ip.Skb.Refine.{release_all, Holds, queue_refines}
use toy_ip.Links.{Heap}

-- A SYN with its option, sent three times.
tcp_fits_example :
    (b : Buffer) × (tcp_segment 4 0 ≡ some b)
    × (transmissions 2 6 b ≡ some (sent 58 0))
    × (t : Buffer) × (push_tcp 6 b ≡ some t)
    × (t.position ≡ 34)
    × (i : Buffer) × (push_ip t ≡ some i)
    × (i.position ≡ 14)
tcp_fits_example = tcp_fits 2 1 0 (omega arith) (omega arith)

datagrams_fit_example :
    (send_udp 100 ≡ some (sent 42 100))
    × (send_arp_request ≡ some (record { size = 42; position = 0; len = 42; dlen = 0 }))
    × (send_arp_reply ≡ some (record { size = 1600; position = 0; len = 42; dlen = 0 }))
    × (send_icmp_reply 1567 ≡ none)
datagrams_fit_example = datagrams_fit 100 1567 (omega arith) (omega arith)

-- Two buffers at 1 and 2 hang on the head at 9.
abbrev two : Heap
two = record {
  next = λ p. if p == 9 then 1 else (if p == 1 then 2 else 9);
  prev = λ p. if p == 9 then 2 else (if p == 2 then 1 else 9);
}

abbrev pair : SkBuffHead
pair = record { head = 9; qlen = 2 }

pair-Holds : Holds two pair (1 ∷ 2 ∷ [])
pair-Holds = record {
  ring = record { fwd = (refl, (refl, refl)); bwd = (refl, (refl, refl)); distinct = omega arith };
  count = refl;
}

-- The second buffer has another reference.
abbrev counters : ℕ → ℤ
counters p = if p == 2 then pos 2 else pos 1

queue_refines_example :
    (skb_peek two pair ≡ some 1)
    × (skb_peek two pair ≡ some (skb_dequeue two pair).2)
    × Holds (skb_dequeue two pair).0 (skb_dequeue two pair).1 (2 ∷ [])
    × Holds (skb_queue_tail 5 two pair).0 (skb_queue_tail 5 two pair).1 (1 ∷ 2 ∷ 5 ∷ [])
    × Holds (skb_queue_add 5 1 two pair).0 (skb_queue_add 5 1 two pair).1 (1 ∷ 5 ∷ 2 ∷ [])
    × (f : Freed) × (skb_drain 3 two pair counters ≡ some f)
    × Holds f.links f.queue []
    × (f.refcnts ≡ released 2 (released 1 counters))
    × (f.freed ≡ 1 ∷ [])
unfolding release_all
queue_refines_example =
    queue_refines two pair [] 1 (2 ∷ []) 5 counters pair-Holds
      ((λ e. omega arith), ((λ e. omega arith), ((λ e. omega arith), tt))) (omega arith)
