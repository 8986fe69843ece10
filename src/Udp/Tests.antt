-- ===== src/Udp/Tests.antt =====
-- UDP sockets at concrete addresses.
use toy_ip.Base.{
  ℕ, ◌*◌, ◌-◌, ◌≡◌, refl, List, [], ◌∷◌, none, some, false, arith, pos, if◌then◌else◌, ◌==◌,
}
use toy_ip.Links.{Heap, put, list_for_each}
use toy_ip.Links.Ring.{IsRing}
use toy_ip.Udp.{
  Datagram, UdpSock, Udp, unconnected, Found, found, find_from, udp_lookup_sock, failed,
}
use toy_ip.Udp.Calls.{Call, udp_sendto, udp_bind, udp_alloc_sock}
use toy_ip.Udp.Table.{udp_sendto-loses}
use toy_ip.Udp.Bind.{Held, udp_bind-fails}
use toy_ip.Udp.Queue.{reads, delivery, reads-queue}

-- The head 1 with the sockets 2, 3 and 4 of ports 20, 30 and 40.
abbrev sock : ℕ → UdpSock
sock p = record {
  address = p;
  state = unconnected;
  saddr = 0;
  daddr = 0;
  sport = p * 10;
  dport = 0;
  receive_queue = [];
  recv_sleeping = false;
}

abbrev ring : Heap
ring = record {
  next = put 1 2 (put 2 3 (put 3 4 (put 4 1 (λ q. 0))));
  prev = put 1 4 (put 4 3 (put 3 2 (put 2 1 (λ q. 0))));
}

abbrev udp : Udp
udp = record {
  head = 1;
  links = ring;
  socks = λ q. if q == 0 then none else some (sock q);
  amount = pos 3;
  port = 40000;
  tick = 17;
  sent = [];
  freed = [];
}

-- The functions that these runs go through.
run : ℕ → Udp → Found
unfolding put find_from udp_lookup_sock udp_alloc_sock
run fuel u = udp_lookup_sock fuel 30 u

links_of_table : IsRing udp.links udp.head (2 ∷ 3 ∷ 4 ∷ [])
unfolding run
links_of_table = record {
  fwd = (refl, (refl, (refl, refl)));
  bwd = (refl, (refl, (refl, refl)));
  distinct = omega arith;
}

finds_the_port : udp_lookup_sock 4 30 udp ≡ found (sock 3)
unfolding run
finds_the_port = refl

-- The socket 2 sends a second time: 3 and 4 are lost.
udp_sendto-loses_example :
    (d : Call) × (udp_sendto 99 (sock 2) (7 ∷ []) (some (50, 60)) udp ≡ some d)
    × (list_for_each 9 d.1.head d.1.links ≡ some (2 ∷ []))
udp_sendto-loses_example =
    udp_sendto-loses 9 99 50 60 3 [] (4 ∷ []) (7 ∷ []) (sock 2) udp refl links_of_table
      (omega arith)

udp_bind-fails_example :
    (sk' : UdpSock) × (udp_bind 4 99 50 (sock 5) udp ≡ some ((sk', udp), failed))
    × (sk' ≡ record (sock 5) { sport = sk'.sport })
udp_bind-fails_example =
    udp_bind-fails 4 99 50 (sock 5) udp (2 ∷ 3 ∷ 4 ∷ []) links_of_table
      ((sock 2, refl), ((sock 3, refl), ((sock 4, refl), tt))) (omega arith)

abbrev fresh : Call
fresh = udp_alloc_sock 9 udp

links_of_fresh : IsRing fresh.1.links fresh.1.head (2 ∷ 3 ∷ 4 ∷ [])
unfolding run
links_of_fresh = record {
  fwd = (refl, (refl, (refl, refl)));
  bwd = (refl, (refl, (refl, refl)));
  distinct = omega arith;
}

socks_of_fresh : Held fresh.1.socks (2 ∷ 3 ∷ 4 ∷ [])
unfolding run
socks_of_fresh = ((sock 2, refl), ((sock 3, refl), ((sock 4, refl), tt)))

-- A datagram of three bytes, and an empty one.
abbrev datagram : ℕ → List ℕ → Datagram
datagram len bytes = record {
  address = 70;
  refcnt = pos 0;
  sport = 60;
  dport = 30;
  len = len;
  saddr = 50;
  dlen = len - 8;
  payload = bytes;
}

abbrev three : Datagram
three = datagram 11 (1 ∷ 2 ∷ 3 ∷ [])

abbrev empty : Datagram
empty = datagram 8 []

abbrev readable : UdpSock
readable = record (sock 3) { receive_queue = three ∷ three ∷ [] }

reads-queue_example : reads 2 2 readable udp ≡ some (delivery 2 three ∷ delivery 2 three ∷ [])
reads-queue_example =
    reads-queue 2 readable udp (three ∷ three ∷ []) (omega arith) (omega arith) refl (omega arith)

abbrev blocked : UdpSock
blocked = record (sock 3) { receive_queue = empty ∷ three ∷ [] }

-- A header with length 3, and what lies behind it in the buffer.
abbrev short : Datagram
short = datagram 3 (0 ∷ 0 ∷ 0 ∷ 0 ∷ [])
