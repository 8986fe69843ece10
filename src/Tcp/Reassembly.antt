-- ===== src/Tcp/Reassembly.antt =====
-- What is delivered in order, and what waits in the out-of-order queue.
use mathlib.Core.List.{Perm}
use mathlib.Core.List.Perm
use toy_ip.Base.{
  ℕ, ◌+◌, ◌≤◌, ◌<◌, ◌≡◌, ◌≢◌, refl, ap, ◌⊎◌, inl, inr, List, [], ◌∷◌, ◌++◌, append_assoc, Option,
  none, some, arith, ltb, ◌==◌, u32, All, Bool-cases,
}
use toy_ip.Tcp.Types.{Skb, TcpSock}
use toy_ip.Tcp.Data.{
  hold, cons_some, insert_before_larger, tcp_data_insert_ordered, consume, tcp_consume_ofo_queue,
  accept_skb,
}

-- The buffers follow one another without a gap, from sequence number `r` to `r'`.
abbrev pub Chain : ℕ → List Skb → ℕ → Type 0
Chain r [] r' = r' ≡ r
Chain r (skb ∷ queue) r' = (skb.seq ≡ r) × Chain (u32 (r + skb.dlen)) queue r'

-- No buffer with the number `r` stands at the head.
abbrev pub Waits : ℕ → List Skb → Type 0
Waits r [] = Unit
Waits r (skb ∷ queue) = r ≢ skb.seq

-- `tcp_consume_ofo_queue` splits the queue into a run without a gap, which it delivers and counts
-- in RCV.NXT, and a rest that does not go on from there.
pub consume_lem :
    (r : ℕ) (queue : List Skb)
    → let (left, moved, r') = consume r queue in
      (moved ++ left ≡ queue) × Chain r moved r' × Waits r' left
unfolding consume
consume_lem r [] = (refl, refl, tt)
consume_lem r (skb ∷ queue) =
    let (whole, chain, waits) = consume_lem (u32 (r + skb.dlen)) queue in
    elim (Bool-cases (r == skb.seq)) [
      | inl e ↦ rw e (ap (λ q. skb ∷ q) whole, (ground arith, chain), waits)
      | inr ne ↦ rw ne (refl, refl, ground arith)
    ]

-- An in-sequence buffer is appended to the receive queue with the run of waiting buffers that
-- follows it: together they lead without a gap from the old RCV.NXT to the new one, and what is
-- left in the out-of-order queue does not go on from there.
pub accept_skb_lem :
    (skb : Skb) (sk : TcpSock)
    → skb.seq ≡ sk.tcb.rcv_nxt
    → let sk' = accept_skb skb sk in
      (moved : List Skb) × (sk'.receive_queue ≡ sk.receive_queue ++ (hold skb ∷ moved))
      × (moved ++ sk'.ofo_queue ≡ sk.ofo_queue)
      × Chain sk.tcb.rcv_nxt (hold skb ∷ moved) sk'.tcb.rcv_nxt
      × Waits sk'.tcb.rcv_nxt sk'.ofo_queue
unfolding accept_skb tcp_consume_ofo_queue
accept_skb_lem skb sk e =
    let r = u32 (sk.tcb.rcv_nxt + skb.dlen) in
    let (whole, chain, waits) = consume_lem r sk.ofo_queue in
    (
      (consume r sk.ofo_queue).1,
      append_assoc sk.receive_queue (hold skb ∷ []) _,
      whole,
      (e, chain),
      waits,
    )

-- What the walk makes of a queue: the same buffers and the new one, or nothing.
abbrev Inserted : Skb → List Skb → Option (List Skb) → Type 0
Inserted skb queue none = Unit
Inserted skb queue (some q) = Perm q (hold skb ∷ queue)

cons_some-Inserted :
    (skb next : Skb) (queue : List Skb) (m : Option (List Skb))
    → Inserted skb queue m
    → Inserted skb (next ∷ queue) (cons_some next m)
cons_some-Inserted skb next queue none h = tt
cons_some-Inserted skb next queue (some q) h =
    Perm.trans (Perm.cons next h) (Perm.swap (hold skb) next queue)

insert_before_larger-Inserted :
    (skb : Skb) (queue : List Skb) → Inserted skb queue (insert_before_larger skb queue)
unfolding insert_before_larger
insert_before_larger-Inserted skb [] = Perm.refl _
insert_before_larger-Inserted skb (next ∷ queue) =
    let rest =
      cons_some-Inserted skb next queue (insert_before_larger skb queue)
        (insert_before_larger-Inserted skb queue) in
    elim (Bool-cases (ltb skb.seq next.seq)) [
      | inl lt ↦ elim (Bool-cases (ltb next.seq skb.end_seq)) [
        | inl over ↦ rw (lt, over) rest
        | inr fits ↦ rw (lt, fits) (Perm.swap (hold skb) next queue)
      ]
      | inr ge ↦ elim (Bool-cases (skb.seq == next.seq)) [
        | inl same ↦ rw (ge, same) tt
        | inr other ↦ rw (ge, other) rest
      ]
    ]

-- `tcp_data_insert_ordered` keeps every buffer of the queue and adds at most the new one: either
-- the queue then holds the same buffers and the new one, whose count is raised, or neither the
-- queue nor the buffer is changed.
pub tcp_data_insert_ordered-perm :
    (queue : List Skb) (skb : Skb)
    → let (queue', skb') = tcp_data_insert_ordered queue skb in
      (Perm queue' (skb' ∷ queue) × (skb' ≡ hold skb)) ⊎ ((queue' ≡ queue) × (skb' ≡ skb))
unfolding tcp_data_insert_ordered
tcp_data_insert_ordered-perm queue skb = by_result (insert_before_larger skb queue) refl
  where
    by_result :
        (m : Option (List Skb))
        → insert_before_larger skb queue ≡ m
        → let (queue', skb') = tcp_data_insert_ordered queue skb in
          (Perm queue' (skb' ∷ queue) × (skb' ≡ hold skb)) ⊎ ((queue' ≡ queue) × (skb' ≡ skb))
    by_result none e = rw (e, tcp_data_insert_ordered) (inr (refl, refl))
    by_result (some q) e =
        rw (e, tcp_data_insert_ordered)
          (inl (rw e at (insert_before_larger-Inserted skb queue), refl))

-- A buffer that comes before the first of the queue and does not run into it is linked behind it.
-- There it stays out of order: when RCV.NXT has come up to the buffer, nothing is delivered.
pub tcp_data_insert_ordered-behind :
    (skb next : Skb) (queue : List Skb)
    → skb.seq < next.seq
    → skb.end_seq ≤ next.seq
    → let queue' = (tcp_data_insert_ordered (next ∷ queue) skb).0 in
      (queue' ≡ next ∷ hold skb ∷ queue) × (consume skb.seq queue' ≡ (queue', [], skb.seq))
unfolding tcp_data_insert_ordered insert_before_larger consume
tcp_data_insert_ordered-behind skb next queue lt le = (ground arith, ground arith)

insert_before_larger-last :
    (skb : Skb) (queue : List Skb)
    → All (λ (x : Skb). x.seq < skb.seq) queue
    → insert_before_larger skb queue ≡ some (queue ++ (hold skb ∷ []))
unfolding insert_before_larger
insert_before_larger-last skb [] h = refl
insert_before_larger-last skb (next ∷ queue) h = ground (arith, insert_before_larger-last skb queue)

-- A buffer whose number is above all those that wait is put at the end.
pub tcp_data_insert_ordered-last :
    (skb : Skb) (queue : List Skb)
    → All (λ (x : Skb). x.seq < skb.seq) queue
    → tcp_data_insert_ordered queue skb ≡ (queue ++ (hold skb ∷ []), hold skb)
unfolding tcp_data_insert_ordered
tcp_data_insert_ordered-last skb queue below =
    rw (insert_before_larger-last skb queue below, tcp_data_insert_ordered) refl
