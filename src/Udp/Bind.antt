-- ===== src/Udp/Bind.antt =====
-- What binding and closing of UDP sockets come to.
use toy_ip.Base.{
  ap, Bool, Bool-cases, ℕ, ◌≡◌, ◌≢◌, refl, inl, inr, Option, none, some, arith, ◌==◌, List, [], ◌∷◌,
  length, ◌<◌, All,
}
use toy_ip.Links.{put}
use toy_ip.Links.Ring.{IsRing}
use toy_ip.Udp.Table.{first, find_from-first}
use toy_ip.Udp.{UdpSock, Udp, failed, lost, Found, absent, found, find_from}
use toy_ip.Udp.Calls.{udp_alloc_sock, udp_port_used, udp_set_sport, udp_bind, udp_close}

-- Each address of the table holds a socket.
abbrev pub Held : (ℕ → Option UdpSock) → List ℕ → Type 0
Held socks xs = All (λ p. (sk : UdpSock) × (socks p ≡ some sk)) xs

first-Held :
    (test : UdpSock → Bool) (socks : ℕ → Option UdpSock) (xs : List ℕ)
    → Held socks xs
    → first test socks xs ≢ lost
first-Held test socks [] h = ground arith
first-Held test socks (x ∷ xs) h = ground (arith, h.0.1, first-Held test socks xs h.1)

udp_set_sport-fails :
    (fuel sport : ℕ) (sk : UdpSock) (u : Udp) (xs : List ℕ)
    → IsRing u.links u.head xs
    → Held u.socks xs
    → length xs < fuel
    → (sk' : UdpSock) × (udp_set_sport fuel sport sk u ≡ some (sk', failed))
      × (sk' ≡ record sk { sport = sk'.sport })
unfolding udp_set_sport udp_port_used
udp_set_sport-fails fuel sport sk u xs r h l =
    by_found (first test u.socks xs) (find_from-first fuel u.head test xs u r.fwd r.distinct.0 l)
      (first-Held test u.socks xs h)
  where
    test : UdpSock → Bool
    test s = s.sport == sport

    by_found :
        (m : Found)
        → find_from fuel test (u.links.next u.head) u ≡ m
        → m ≢ lost
        → (sk' : UdpSock) × (udp_set_sport fuel sport sk u ≡ some (sk', failed))
          × (sk' ≡ record sk { sport = sk'.sport })
    by_found lost e n = absurd (n refl)
    by_found absent e n = elim (Bool-cases (sport == 0)) [
      | inl no_port ↦ (sk, rw (udp_set_sport, no_port) refl, refl)
      | inr port ↦
          (record sk { sport = sport }, rw (udp_set_sport, udp_port_used, port, e) refl, refl)
    ]
    by_found (found s) e n = (sk, ground (arith, e), refl)

-- On a ring of sockets, `udp_bind` ends and answers -1, whatever the address and the port. It
-- changes at most the port of the socket, and does not put the socket into the table.
pub udp_bind-fails :
    (fuel saddr sport : ℕ) (sk : UdpSock) (u : Udp) (xs : List ℕ)
    → IsRing u.links u.head xs
    → Held u.socks xs
    → length xs < fuel
    → (sk' : UdpSock) × (udp_bind fuel saddr sport sk u ≡ some ((sk', u), failed))
      × (sk' ≡ record sk { sport = sk'.sport })
unfolding udp_bind
udp_bind-fails fuel saddr sport sk u xs r h l =
    let (sk', e, same) = udp_set_sport-fails fuel sport sk u xs r h l in
    elim (Bool-cases (sk.saddr == 0)) [
      | inl free ↦ (sk', rw (free, e) refl, same)
      | inr bound ↦ (sk, rw bound refl, refl)
    ]

-- A socket that was just allocated, whatever address and port it is bound to first, cannot be
-- closed: `udp_bind` leaves it unlinked, and `udp_close` writes through its NULL pointers.
pub udp_close-faults :
    (fuel address saddr sport : ℕ) (u : Udp) (xs : List ℕ)
    → let (sk, v) = udp_alloc_sock address u in
      IsRing v.links v.head xs
      → Held v.socks xs
      → length xs < fuel
      → (sk' : UdpSock) × (udp_bind fuel saddr sport sk v ≡ some ((sk', v), failed))
        × (udp_close sk' v ≡ none)
unfolding udp_alloc_sock udp_close put
udp_close-faults fuel address saddr sport u xs r h l =
    let (sk, v) = udp_alloc_sock address u in
    let (sk', e, same) = udp_bind-fails fuel saddr sport sk v xs r h l in
    let same_address : sk'.address ≡ address = ap (λ s. s.address) same in
    (sk', e, ground (arith, same_address))
