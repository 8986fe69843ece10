-- ===== src/Skb/Queue.antt =====
-- The queues of buffers of toy_src/skbuff.h: a head of a circular list with a counter. A buffer is
-- the address of its `list` field, which stands first in `struct sk_buff`.
use mathlib.Core.Option
use toy_ip.Base.{
  ℤ, dec, lt_one, ◌==◌, if◌then◌else◌, ℕ, zero, suc, List, [], ◌∷◌, ◌+◌, Bool, Option, none, some,
  u32, sub32, ltb, if◌then◌else◌,
}
use toy_ip.Links.{Heap, list_init, list_add, list_add_tail, list_del}

-- `struct sk_buff_head`, which stands at the address `head`.
pub record SkBuffHead : Type 0 where
  pub head : ℕ
  pub qlen : ℕ

unfoldable pub skb_queue_len : SkBuffHead → ℕ
skb_queue_len q = q.qlen

unfoldable pub skb_queue_init : ℕ → Heap → Heap × SkBuffHead
skb_queue_init head h = (list_init head h, record { head = head; qlen = 0 })

unfoldable pub skb_queue_add : ℕ → ℕ → Heap → SkBuffHead → Heap × SkBuffHead
skb_queue_add new_item next h q = (list_add new_item next h, record q { qlen = u32 (q.qlen + 1) })

unfoldable pub skb_queue_tail : ℕ → Heap → SkBuffHead → Heap × SkBuffHead
skb_queue_tail new_item h q =
    (list_add_tail new_item q.head h, record q { qlen = u32 (q.qlen + 1) })

-- The first buffer is push_taken without a test.
unfoldable pub skb_dequeue : Heap → SkBuffHead → Heap × SkBuffHead × ℕ
skb_dequeue h q =
    let skb = h.next q.head in (list_del skb h, record q { qlen = sub32 q.qlen 1 }, skb)

unfoldable pub skb_queue_empty : SkBuffHead → Bool
skb_queue_empty q = ltb (skb_queue_len q) 1

unfoldable pub skb_peek : Heap → SkBuffHead → Option ℕ
skb_peek h q = if skb_queue_empty q then none else some (h.next q.head)

-- `skb->refcnt--`, over the counters of all buffers.
abbrev pub released : ℕ → (ℕ → ℤ) → ℕ → ℤ
released skb refcnts q = if skb == q then dec (refcnts skb) else refcnts q

-- What is left after `skb_queue_free`: the pointers, the queue, the counters, and the buffers that
-- were freed in turn.
pub record Freed : Type 0 where
  pub links : Heap
  pub queue : SkBuffHead
  pub refcnts : ℕ → ℤ
  pub freed : List ℕ

-- `free_skb` before what comes behind it.
abbrev pub free_first : ℕ → ℤ → Freed → Freed
free_first skb refcnt f = if lt_one refcnt then record f { freed = skb ∷ f.freed } else f

-- `skb_queue_free`; `none` is fuel that does not last.
unfoldable pub skb_drain : ℕ → Heap → SkBuffHead → (ℕ → ℤ) → Option Freed
skb_drain zero h q refcnts = none
skb_drain (suc fuel) h q refcnts = elim (skb_peek h q) [
  | none ↦ some (record { links = h; queue = q; refcnts = refcnts; freed = [] })
  | some skb ↦
      let d = skb_dequeue h q in
      let left = released skb refcnts in
      Option.map (free_first skb (left skb)) (skb_drain fuel d.0 d.1 left)
]
