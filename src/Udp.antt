-- ===== src/Udp.antt =====
-- toy_src/udp.c and toy_src/udp_sock.c. The table of sockets is the circular list of
-- toy_src/list.h; the address of a socket is that of its `link`, its first field.
use toy_ip.Base.{
  ◌-◌, ◌^◌, length, ℕ, zero, suc, ◌+◌, ◌%◌, Bool, true, false, not, Option, none, some, List, [],
  ◌∷◌, ◌++◌, u16, sub32, ℤ, pos, negsuc, dec, lt_one, ltb, ◌==◌, if◌then◌else◌, length, take,
}
use toy_ip.Links.{Heap, list_add_tail, list_del_init}
pub mod Calls
pub mod Wire
pub mod Delivered
pub mod Bind
pub mod Queue
pub mod Table
mod Tests
mod WireTests

-- `enum udp_state`
pub data UdpState : Type 0 where
  unconnected connected closed : UdpState

-- A `struct sk_buff` that holds a datagram: `sport`, `dport` and `len` of its UDP header and
-- `saddr` of its IP header, in host byte order, and the bytes that lie behind `payload`.
pub record Datagram : Type 0 where
  pub address : ℕ
  pub refcnt : ℤ
  pub sport : ℕ
  pub dport : ℕ
  pub len : ℕ
  pub saddr : ℕ
  pub dlen : ℕ
  pub payload : List ℕ

-- `struct udp_sock`
pub record UdpSock : Type 0 where
  pub address : ℕ
  pub state : UdpState
  pub saddr : ℕ
  pub daddr : ℕ
  pub sport : ℕ
  pub dport : ℕ
  pub receive_queue : List Datagram
  pub recv_sleeping : Bool

-- What `udp_send` hands to `ip_output`.
pub record Packet : Type 0 where
  pub saddr : ℕ
  pub daddr : ℕ
  pub sport : ℕ
  pub dport : ℕ
  pub len : ℕ
  pub bytes : List ℕ

-- `udp_socks` is `head`; `links` holds its nodes, `amount` is `udp_sock_amount`, `port` the counter
-- of `udp_generate_port`, `tick` that of the timers.
pub record Udp : Type 0 where
  pub head : ℕ
  pub links : Heap
  pub socks : ℕ → Option UdpSock
  pub amount : ℤ
  pub port : ℕ
  pub tick : ℕ
  pub sent : List Packet
  pub freed : List ℕ

abbrev pub ok : ℤ
ok = pos 0

abbrev pub failed : ℤ
failed = negsuc 0

abbrev pub increment : ℤ → ℤ
increment n = elim n [ pos k ↦ pos (k + 1) | negsuc zero ↦ pos 0 | negsuc (suc k) ↦ negsuc k ]

unfoldable pub put_sock : UdpSock → Udp → Udp
put_sock sk u = record u { socks = λ q. if sk.address == q then some sk else u.socks q }

-- `free_skb`
unfoldable pub free_datagram : Datagram → Udp → Udp
free_datagram d u = if lt_one d.refcnt then record u { freed = u.freed ++ (d.address ∷ []) } else u

-- The socket that a walk over the table finds; `lost` is a walk that does not end or meets a node
-- that is no socket.
pub data Found : Type 0 where
  lost absent : Found
  found : UdpSock → Found

unfoldable pub find_from : ℕ → (UdpSock → Bool) → ℕ → Udp → Found
find_from zero test p u = lost
find_from (suc fuel) test p u =
    let rest = find_from fuel test (u.links.next p) u in
    if p == u.head
    then absent
    else elim (u.socks p) [ none ↦ lost | some sk ↦ if test sk then found sk else rest ]

-- `udp_lookup_sock`
unfoldable pub udp_lookup_sock : ℕ → ℕ → Udp → Found
udp_lookup_sock fuel dport u = find_from fuel (λ sk. sk.sport == dport) (u.links.next u.head) u

-- `udp_init_segment`: `len - UDP_HDR_LEN` is stored in 32 bits.
unfoldable pub udp_init_segment : Datagram → Datagram
udp_init_segment d = record d { dlen = sub32 d.len 8 }

-- `udp_in`; `none` is a walk that is lost.
unfoldable pub udp_in : ℕ → Datagram → Udp → Option Udp
udp_in fuel d u = elim (udp_lookup_sock fuel d.dport u) [
  | lost ↦ none
  | absent ↦ some (free_datagram (udp_init_segment d) u)
  | found sk ↦ some (
      put_sock
        (record sk {
          receive_queue = sk.receive_queue ++ (udp_init_segment d ∷ []);
          recv_sleeping = false;
        })
        u)
]

-- What `udp_data_dequeue` answers: the bytes in the user's buffer, the sender, and the code.
pub record Read : Type 0 where
  pub bytes : List ℕ
  pub sender : Option (ℕ × ℕ)
  pub code : ℤ

-- `rlen == 0 ? -1 : (int)rlen`, for an unsigned `rlen` of 32 bits.
unfoldable pub read_code : ℕ → ℤ
read_code rlen =
    if rlen == 0 then failed else if ltb rlen (2 ^ 31) then pos rlen else negsuc (2 ^ 32 - 1 - rlen)

-- `none` is a `memcpy` from behind the end of the buffer.
unfoldable pub udp_data_dequeue : ℕ → UdpSock → Udp → Option ((UdpSock × Udp) × Read)
udp_data_dequeue userlen sk u = elim sk.receive_queue [
  | [] ↦ some ((sk, u), record { bytes = []; sender = none; code = failed })
  | d ∷ queue ↦
      (let rlen = if ltb userlen d.dlen then userlen else d.dlen in
        if ltb (length d.payload) rlen
        then none
        else some (
          (
            record sk { receive_queue = queue },
            free_datagram (record d { refcnt = dec d.refcnt }) u,
          ),
          record {
            bytes = take rlen d.payload;
            sender = some (d.saddr, d.sport);
            code = read_code rlen;
          },
        ))
]

-- A thread that sleeps on `recv_wait`, the end of a call, or a read behind the end of a buffer.
pub data Receive : Type 0 where
  asleep : UdpSock × Udp → Receive
  finished : UdpSock × Udp → Read → Receive
  overread : Receive

-- A round of the loops of `udp_recvfrom` and `udp_read`, which go on where the code is -1.
unfoldable pub recv_round : ℕ → UdpSock → Udp → Receive
recv_round len sk u = elim (udp_data_dequeue len sk u) [
  | none ↦ overread
  | some (after, r) ↦ elim r.code [
    | pos n ↦ finished after r
    | negsuc zero ↦ asleep (record (after.0) { recv_sleeping = true }, after.1)
    | negsuc (suc n) ↦ finished after r
  ]
]

-- `udp_recvfrom`. Each element of the list is what others do
-- while the thread sleeps.
unfoldable pub udp_recvfrom : List (UdpSock × Udp → UdpSock × Udp) → ℕ → UdpSock → Udp → Receive
udp_recvfrom [] len sk u = recv_round len sk u
udp_recvfrom (others ∷ later) len sk u = elim (recv_round len sk u) [
  | finished after r ↦ finished after r
  | asleep after ↦ udp_recvfrom later len (others after).0 (others after).1
  | overread ↦ overread
]

-- The same call without an address for the sender.
abbrev pub unnamed : Receive → Receive
unnamed (asleep after) = asleep after
unnamed (finished after r) = finished after (record r { sender = none })
unnamed overread = overread

-- `udp_read`; what is left of the user's buffer behind the bytes read is zero.
unfoldable pub udp_read : List (UdpSock × Udp → UdpSock × Udp) → ℕ → UdpSock → Udp → Receive
udp_read others len sk u = unnamed (udp_recvfrom others len sk u)
