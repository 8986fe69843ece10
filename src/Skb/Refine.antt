-- ===== src/Skb/Refine.antt =====
-- A queue of buffers is a list of them: the ring and the counter of toy_src/skbuff.h against the
-- operations on lists that the protocols' models use.
use toy_ip.Base.{
  ℤ, lt_one, Bool-cases, inl, inr, if◌then◌else◌, ℕ, suc, ◌+◌, ◌^◌, ◌<◌, ◌≡◌, refl, sym, ap, subst,
  Option, none, some, List, [], ◌∷◌, ◌++◌, length, drop, ◌∙◌, length-append, arith,
}
use toy_ip.Links.{Heap, list_del}
use toy_ip.Links.Chains.{Apart}
use toy_ip.Links.Ring.{IsRing}
use toy_ip.Links.Operations.{list_add_behind, list_add_tail-IsRing, list_del-IsRing}
use toy_ip.Skb.Queue.{
  SkBuffHead, skb_queue_len, skb_queue_add, skb_queue_tail, skb_dequeue, skb_queue_empty, skb_peek,
  Freed, released, skb_drain,
}

-- The ring at the head holds the buffers in order, and the counter their number.
pub record Holds (h : Heap) (q : SkBuffHead) (skbs : List ℕ) : Type 0 where
  pub ring : IsRing h q.head skbs
  pub count : q.qlen ≡ length skbs

abbrev pub first : List ℕ → Option ℕ
first [] = none
first (skb ∷ skbs) = some skb

-- The operations on a queue that holds a known list.
module _ (h : Heap) (q : SkBuffHead) where
  skb_queue_tail-Holds :
      (new : ℕ) (skbs : List ℕ)
      → Holds h q skbs
      → Apart new (q.head ∷ skbs)
      → length skbs + 1 < 2 ^ 32
      → Holds (skb_queue_tail new h q).0 (skb_queue_tail new h q).1 (skbs ++ new ∷ [])
  unfolding skb_queue_tail
  skb_queue_tail-Holds new skbs r apart fits = record {
    ring = list_add_tail-IsRing new q.head skbs h r.ring apart;
    count = omega (arith, length-append {0} skbs (new ∷ []), r.count);
  }

  skb_queue_add-Holds :
      (new next : ℕ) (xs ys : List ℕ)
      → Holds h q (xs ++ next ∷ ys)
      → Apart new (q.head ∷ (xs ++ next ∷ ys))
      → length xs + length ys + 2 < 2 ^ 32
      → Holds (skb_queue_add new next h q).0 (skb_queue_add new next h q).1 (xs ++ next ∷ new ∷ ys)
  unfolding skb_queue_add
  skb_queue_add-Holds new next xs ys r apart fits = record {
    ring = list_add_behind new q.head next xs ys h r.ring apart;
    count =
        omega (
          arith,
          length-append {0} xs (next ∷ ys),
          length-append {0} xs (next ∷ new ∷ ys),
          r.count,
        );
  }

  skb_dequeue-Holds :
      (skb : ℕ) (skbs : List ℕ)
      → Holds h q (skb ∷ skbs)
      → length skbs + 1 < 2 ^ 32
      → ((skb_dequeue h q).2 ≡ skb) × Holds (skb_dequeue h q).0 (skb_dequeue h q).1 skbs
  unfolding skb_dequeue
  skb_dequeue-Holds skb skbs r fits = (
    r.ring.fwd.0,
    record {
      ring =
          subst (λ k. IsRing (list_del k h) q.head skbs) (sym r.ring.fwd.0)
            (list_del-IsRing skb q.head [] skbs h r.ring);
      count = omega (arith, r.count);
    },
  )

  skb_peek_lem : (skbs : List ℕ) → Holds h q skbs → skb_peek h q ≡ first skbs
  unfolding skb_peek skb_queue_empty skb_queue_len
  skb_peek_lem [] r = rw r.count refl
  skb_peek_lem (skb ∷ skbs) r = rw (r.count, r.ring.fwd.0) (ground arith)

dequeue_any :
    (h : Heap) (q : SkBuffHead) (xs : List ℕ) (next : ℕ) (ys : List ℕ)
    → Holds h q (xs ++ next ∷ ys)
    → length xs + length ys + 2 < 2 ^ 32
    → (first (xs ++ next ∷ ys) ≡ some (skb_dequeue h q).2)
      × Holds (skb_dequeue h q).0 (skb_dequeue h q).1 (drop 1 (xs ++ next ∷ ys))
dequeue_any h q [] next ys r fits =
    let d = skb_dequeue-Holds h q next ys r (omega arith) in (ap some (sym d.0), d.1)
dequeue_any h q (x ∷ xs) next ys r fits =
    let d =
      skb_dequeue-Holds h q x (xs ++ next ∷ ys) r
        (omega (arith, length-append {0} xs (next ∷ ys))) in
    (ap some (sym d.0), d.1)

-- The same on a list: each buffer in turn loses a reference, and those that have none left go.
unfoldable pub release_all : List ℕ → (ℕ → ℤ) → (ℕ → ℤ) × List ℕ
release_all [] refcnts = (refcnts, [])
release_all (skb ∷ skbs) refcnts =
    let left = released skb refcnts in
    let (after, freed) = release_all skbs left in
    (after, if lt_one (left skb) then skb ∷ freed else freed)

-- `skb_queue_free` takes every buffer of the queue, in order, and leaves it empty.
skb_drain_lem :
    (skbs : List ℕ) (h : Heap) (q : SkBuffHead) (refcnts : ℕ → ℤ)
    → Holds h q skbs
    → length skbs < 2 ^ 32
    → (f : Freed) × (skb_drain (suc (length skbs)) h q refcnts ≡ some f)
      × Holds f.links f.queue []
      × (f.refcnts ≡ (release_all skbs refcnts).0)
      × (f.freed ≡ (release_all skbs refcnts).1)
unfolding skb_drain release_all
skb_drain_lem [] h q refcnts r fits = (_, rw (skb_drain, skb_peek_lem h q [] r) refl, r, refl, refl)
skb_drain_lem (skb ∷ skbs) h q refcnts r fits =
    let d = skb_dequeue-Holds h q skb skbs r (omega arith) in
    let left = released skb refcnts in
    let (f, runs, empty, counted, freed) =
      skb_drain_lem skbs (skb_dequeue h q).0 (skb_dequeue h q).1 left d.1 (omega arith) in
    elim (Bool-cases (lt_one (left skb))) [
      | inl e ↦ (
        record f { freed = skb ∷ f.freed },
        rw (skb_drain, skb_peek_lem h q (skb ∷ skbs) r, runs, e) refl,
        empty,
        counted,
        rw e (ap (λ l. skb ∷ l) freed),
      )
      | inr e ↦ (
        f,
        rw (skb_drain, skb_peek_lem h q (skb ∷ skbs) r, runs, e) refl,
        empty,
        counted,
        rw e freed,
      )
    ]

-- For a queue that holds the buffers `xs`, then `next`, then `ys`, and a buffer `new` that is not in
-- it: `skb_peek` finds the first one, `skb_dequeue` returns it and leaves the others,
-- `skb_queue_tail` puts `new` last, and `skb_queue_add` puts it directly behind `next`; each keeps
-- the counter equal to their number. `skb_queue_free` ends and leaves the queue empty; it takes a
-- reference from each buffer in order, and frees those that have none left.
pub queue_refines :
    (h : Heap) (q : SkBuffHead) (xs : List ℕ) (next : ℕ) (ys : List ℕ) (new : ℕ) (refcnts : ℕ → ℤ)
    → Holds h q (xs ++ next ∷ ys)
    → Apart new (q.head ∷ (xs ++ next ∷ ys))
    → length xs + length ys + 2 < 2 ^ 32
    → (skb_peek h q ≡ first (xs ++ next ∷ ys))
      × (skb_peek h q ≡ some (skb_dequeue h q).2)
      × Holds (skb_dequeue h q).0 (skb_dequeue h q).1 (drop 1 (xs ++ next ∷ ys))
      × Holds (skb_queue_tail new h q).0 (skb_queue_tail new h q).1 ((xs ++ next ∷ ys) ++ new ∷ [])
      × Holds (skb_queue_add new next h q).0 (skb_queue_add new next h q).1 (xs ++ next ∷ new ∷ ys)
      × (f : Freed) × (skb_drain (length (xs ++ next ∷ ys) + 1) h q refcnts ≡ some f)
      × Holds f.links f.queue []
      × (f.refcnts ≡ (release_all (xs ++ next ∷ ys) refcnts).0)
      × (f.freed ≡ (release_all (xs ++ next ∷ ys) refcnts).1)
queue_refines h q xs next ys new refcnts r apart fits =
    let size = length-append {0} xs (next ∷ ys) in
    let out = dequeue_any h q xs next ys r fits in
    let all = skb_drain_lem (xs ++ next ∷ ys) h q refcnts r (omega (arith, size)) in
    (
      skb_peek_lem h q (xs ++ next ∷ ys) r,
      skb_peek_lem h q (xs ++ next ∷ ys) r ∙ out.0,
      out.1,
      skb_queue_tail-Holds h q new (xs ++ next ∷ ys) r apart (omega (arith, size)),
      skb_queue_add-Holds h q new next xs ys r apart fits,
      all.0,
      subst (λ n. skb_drain n h q refcnts ≡ some all.0) (omega arith) all.1,
      all.2,
      all.3,
      all.4,
    )
