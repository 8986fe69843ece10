-- ===== src/Udp/Queue.antt =====
-- Datagrams in and out of the receive queue.
use toy_ip.Base.{
  none, Option, ℕ, zero, suc, ◌+◌, ◌≤◌, ◌<◌, ◌^◌, ◌≡◌, refl, List, [], ◌∷◌, ◌++◌, some, true, false,
  arith, length, take, pos, dec, min, map, All,
}
use mathlib.Core.Option
use toy_ip.Udp.{
  Datagram, UdpSock, Udp, found, udp_lookup_sock, put_sock, free_datagram, udp_init_segment, udp_in,
  Read, read_code, udp_data_dequeue, asleep, finished, recv_round, udp_recvfrom,
}

-- Reading of `n` datagrams in turn, with a buffer of `userlen` bytes. `none` is a read that copies
-- what is behind a buffer.
unfoldable pub reads : ℕ → ℕ → UdpSock → Udp → Option (List Read)
reads zero userlen sk u = some []
reads (suc n) userlen sk u = elim (udp_data_dequeue userlen sk u) [
  | none ↦ none
  | some (after, r) ↦ Option.map (λ rest. r ∷ rest) (reads n userlen after.0 after.1)
]

-- The first bytes of a datagram, as many as the user asks for, with its sender.
abbrev pub delivery : ℕ → Datagram → Read
delivery userlen d = record {
  bytes = take (min userlen d.dlen) d.payload;
  sender = some (d.saddr, d.sport);
  code = pos (min userlen d.dlen);
}

-- A datagram with at least one byte, all of which lie in its buffer.
abbrev pub Holds : Datagram → Type 0
Holds d = (0 < d.dlen) × (d.dlen ≤ length d.payload)

dequeue_first :
    (userlen : ℕ) (sk : UdpSock) (u : Udp) (d : Datagram) (queue : List Datagram)
    → 0 < userlen
    → userlen < 2 ^ 31
    → sk.receive_queue ≡ d ∷ queue
    → Holds d
    → udp_data_dequeue userlen sk u
      ≡ some (
        (record sk { receive_queue = queue }, free_datagram (record d { refcnt = dec d.refcnt }) u),
        delivery userlen d,
      )
unfolding udp_data_dequeue read_code
dequeue_first userlen sk u d queue room int e h = ground arith

-- The reads of a queue of datagrams that hold at least a byte and lie whole in their buffers, with
-- room for at least a byte and for fewer than 2 ^ 31, do not read behind a buffer, and deliver
-- each datagram once and in order, cut to the length that the user asks for.
pub reads-queue :
    (userlen : ℕ) (sk : UdpSock) (u : Udp) (queue : List Datagram)
    → 0 < userlen
    → userlen < 2 ^ 31
    → sk.receive_queue ≡ queue
    → All Holds queue
    → reads (length queue) userlen sk u ≡ some (map (delivery userlen) queue)
unfolding reads
reads-queue userlen sk u [] room int e h = refl
reads-queue userlen sk u (d ∷ queue) room int e h =
    let first = dequeue_first userlen sk u d queue room int e h.0 in
    let rest =
      reads-queue userlen (record sk { receive_queue = queue })
        (free_datagram (record d { refcnt = dec d.refcnt }) u) queue room int refl h.1 in
    rw (reads, first, rest) refl

-- An empty datagram at the head of the queue is taken off and freed, and `udp_recvfrom` goes to
-- sleep, whatever waits behind it.
pub udp_recvfrom-sleeps :
    (len : ℕ) (sk : UdpSock) (u : Udp) (d : Datagram) (queue : List Datagram)
    → sk.receive_queue ≡ d ∷ queue
    → d.dlen ≡ 0
    → udp_recvfrom [] len sk u
      ≡ asleep (
        record sk { receive_queue = queue; recv_sleeping = true },
        free_datagram (record d { refcnt = dec d.refcnt }) u,
      )
unfolding udp_recvfrom recv_round udp_data_dequeue read_code
udp_recvfrom-sleeps len sk u d queue e z = ground arith

read_whole :
    (userlen n : ℕ) (sk : UdpSock) (u : Udp) (d : Datagram) (queue : List Datagram)
    → sk.receive_queue ≡ d ∷ queue
    → d.dlen ≡ n
    → 0 < n
    → n < 2 ^ 31
    → n ≤ length d.payload
    → n ≤ userlen
    → recv_round userlen sk u
      ≡ finished
          (
            record sk { receive_queue = queue },
            free_datagram (record d { refcnt = dec d.refcnt }) u,
          )
          (record { bytes = take n d.payload; sender = some (d.saddr, d.sport); code = pos n })
unfolding recv_round udp_data_dequeue read_code
read_whole userlen n sk u d queue e dlen some_bytes int inside room = ground arith

-- A datagram with bytes that comes in for a socket with an empty queue, and is read with room for
-- all of them.
pub udp_in-udp_recvfrom :
    (fuel userlen n : ℕ) (d : Datagram) (sk : UdpSock) (u : Udp)
    → udp_lookup_sock fuel d.dport u ≡ found sk
    → sk.receive_queue ≡ []
    → d.len ≡ n + 8
    → 0 < n
    → n < 2 ^ 16
    → n ≤ length d.payload
    → n ≤ userlen
    → (sk' : UdpSock) × (v : Udp) × (udp_in fuel d u ≡ some v)
      × (v.socks sk.address ≡ some sk')
      × (after : UdpSock × Udp) × (udp_recvfrom [] userlen sk' v
          ≡ finished after
              (record { bytes = take n d.payload; sender = some (d.saddr, d.sport); code = pos n }))
unfolding udp_in put_sock udp_init_segment udp_recvfrom
udp_in-udp_recvfrom fuel userlen n d sk u e empty len some_bytes small inside room =
    let d' = udp_init_segment d in
    let dlen : d'.dlen ≡ n = omega (arith, len) in
    let sk' = record sk { receive_queue = sk.receive_queue ++ (d' ∷ []); recv_sleeping = false } in
    let v = put_sock sk' u in
    (
      sk',
      v,
      rw (e, udp_in) refl,
      ground arith,
      _,
      read_whole userlen n sk' v d' [] (rw empty refl) dlen some_bytes (omega arith) inside room,
    )
