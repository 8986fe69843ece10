-- ===== src/Udp/Table.antt =====
-- Walks over the table of UDP sockets, and what a second `udp_sendto` does to it.
use toy_ip.Base.{
  ℕ, zero, suc, ◌+◌, ◌<◌, ◌≡◌, ◌≢◌, refl, sym, ◌∙◌, List, [], ◌∷◌, ◌++◌, Option, none, some, Bool,
  false, arith, length, All-append, if◌then◌else◌, ◌==◌, length-append,
}
use toy_ip.Links.{Heap, put, list_add_tail, list_for_each}
use toy_ip.Links.Chains.{
  Fwd, Bwd, Apart, Distinct-split, put_other, put_same, All-map, Fwd-append, Fwd-split, Bwd-split,
}
use toy_ip.Links.Ring.{IsRing, Fwd-from}
use toy_ip.Links.Walk.{for_each_from_lem}
use toy_ip.Udp.{UdpSock, Udp, unconnected, Found, lost, absent, found, find_from, udp_lookup_sock}
use toy_ip.Udp.Calls.{
  Call, udp_sk_in_socks, prepare_sendto, udp_sendto, udp_send, udp_generate_port,
}

-- The first socket of a list of addresses that passes a test.
abbrev pub first : (UdpSock → Bool) → (ℕ → Option UdpSock) → List ℕ → Found
first test socks [] = absent
first test socks (p ∷ table) =
    let rest = first test socks table in
    elim (socks p) [ none ↦ lost | some sk ↦ if test sk then found sk else rest ]

-- A walk over the table finds the first socket that passes the test.
pub find_from-first :
    (fuel a : ℕ) (test : UdpSock → Bool) (xs : List ℕ) (u : Udp)
    → Fwd u.links.next a xs u.head
    → Apart u.head xs
    → length xs < fuel
    → find_from fuel test (u.links.next a) u ≡ first test u.socks xs
unfolding find_from
find_from-first zero a test xs u f d l = absurd (omega arith)
find_from-first (suc fuel) a test [] u f d l = ground arith
find_from-first (suc fuel) a test (x ∷ xs) u f d l =
    let rest = find_from-first fuel x test xs u f.1 d.1 (omega arith) in
    ground (arith, f.0, d.0, rest)

-- If the table is a ring, `udp_lookup_sock` ends, and finds the first socket of the table with the
-- port, or none if no socket of the table has it. It is lost only at an address without a socket.
pub udp_lookup_sock_lem :
    (fuel dport : ℕ) (xs : List ℕ) (u : Udp)
    → IsRing u.links u.head xs
    → length xs < fuel
    → udp_lookup_sock fuel dport u ≡ first (λ sk. sk.sport == dport) u.socks xs
unfolding udp_lookup_sock
udp_lookup_sock_lem fuel dport xs u r l =
    find_from-first fuel u.head (λ sk. sk.sport == dport) xs u r.fwd r.distinct.0 l

prev_last :
    (g : ℕ → ℕ) (a y : ℕ) (ys : List ℕ) (b q : ℕ) → Bwd g a (y ∷ ys) b → Apart q (y ∷ ys) → g b ≢ q
prev_last g a y [] b q h p = λ e. p.0 (sym e ∙ h.1)
prev_last g a y (z ∷ zs) b q h p = prev_last g y z zs b q h.1 p.1

-- A node of the ring that is put to its end again: the ring now closes behind it.
relink-Fwd :
    (h : Heap) (head a y : ℕ) (xs ys : List ℕ)
    → IsRing h head (xs ++ (a ∷ y ∷ ys))
    → Fwd (list_add_tail a head h).next head (xs ++ (a ∷ [])) head
unfolding list_add_tail
relink-Fwd h head a y xs ys r =
    let (f, f') = Fwd-split h.next head xs a (y ∷ ys) head r.fwd in
    let (g, g') = Bwd-split h.prev head xs a (y ∷ ys) head r.bwd in
    let (dx, dy, d) = Distinct-split (head ∷ xs) (a ∷ y ∷ ys) r.distinct in
    let next' = put a head (put (h.prev head) a h.next) in
    let keep : (x : ℕ) → Apart x (a ∷ y ∷ ys) → next' x ≡ h.next x = λ x p.
      put_other a head (put (h.prev head) a h.next) x (λ e. p.0 (sym e))
      ∙ put_other (h.prev head) a h.next x (prev_last h.prev a y ys head x g' p.1) in
    Fwd-append next' head xs a [] head
      (Fwd-from h.next next' head head xs a (keep head d.0)
        (All-map (λ x. Apart x (a ∷ y ∷ ys)) (λ x. next' x ≡ h.next x) xs keep d.1) f)
      (put_same a head (put (h.prev head) a h.next))

-- A socket of the table that is not connected and not the last of the table: when it sends by
-- `udp_sendto` with an address again, it is put to the end of the table while it is still in it.
-- A walk over the table then ends behind it, so that all sockets behind it are lost.
pub udp_sendto-loses :
    (fuel stackaddr daddr dport y : ℕ) (xs ys bytes : List ℕ) (sk : UdpSock) (u : Udp)
    → sk.state ≡ unconnected
    → IsRing u.links u.head (xs ++ (sk.address ∷ y ∷ ys))
    → length xs + 1 < fuel
    → (d : Call) × (udp_sendto stackaddr sk bytes (some (daddr, dport)) u ≡ some d)
      × (list_for_each fuel d.1.head d.1.links ≡ some (xs ++ (sk.address ∷ [])))
unfolding udp_sendto prepare_sendto udp_sk_in_socks udp_send udp_generate_port list_for_each
udp_sendto-loses fuel stackaddr daddr dport y xs ys bytes sk u s r l =
    let (f, f') = Fwd-split u.links.next u.head xs sk.address (y ∷ ys) u.head r.fwd in
    let (dx, dy, d) = Distinct-split (u.head ∷ xs) (sk.address ∷ y ∷ ys) r.distinct in
    let out : (u.links.next sk.address == sk.address) ≡ false = ground (arith, f'.0, dy.0.0) in
    let walk =
      for_each_from_lem fuel u.head u.head (xs ++ (sk.address ∷ []))
        (list_add_tail sk.address u.head u.links) (relink-Fwd u.links u.head sk.address y xs ys r)
        (All-append (λ x. u.head ≢ x) xs (sk.address ∷ []) dx.0 (d.0.0, tt))
        (omega (arith, length-append xs (sk.address ∷ []))) in
    rw (s, out) (_, refl, walk)
