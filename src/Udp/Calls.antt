-- ===== src/Udp/Calls.antt =====
-- toy_src/udp_sock.c: the calls that bind, connect, send and close. The addresses and ports are in
-- host byte order. A socket that a call works on is given beside the rest of the stack.
use toy_ip.Base.{
  ℕ, ◌+◌, ◌%◌, Bool, true, false, not, Option, none, some, List, [], ◌∷◌, ◌++◌, u16, ℤ, pos, negsuc,
  dec, ltb, ◌==◌, if◌then◌else◌, length,
}
use toy_ip.Links.{put, list_add_tail, list_del_init}
use toy_ip.Udp.{
  UdpState, unconnected, connected, UdpSock, Datagram, Udp, ok, failed, increment, free_datagram,
  lost, absent, found, find_from,
}

abbrev pub Call : Type 0
Call = UdpSock × Udp

-- `udp_alloc_sock` at an address: all bytes are 0, those of `link` too.
unfoldable pub udp_alloc_sock : ℕ → Udp → Call
udp_alloc_sock address u = (
  record {
    address = address;
    state = unconnected;
    saddr = 0;
    daddr = 0;
    sport = 0;
    dport = 0;
    receive_queue = [];
    recv_sleeping = false;
  },
  record u {
    links = record { next = put address 0 u.links.next; prev = put address 0 u.links.prev };
  },
)

unfoldable pub udp_generate_port : Udp → Udp × ℕ
udp_generate_port u = (record u { port = u.port + 1 }, u16 (u.port + 1 + u.tick % 10000))

abbrev pub link : UdpSock → Udp → Udp
link sk u = record u { links = list_add_tail sk.address u.head u.links }

unfoldable pub udp_socks_enqueue : UdpSock → Udp → Udp
udp_socks_enqueue sk u = let v = link sk u in record v { amount = increment u.amount }

unfoldable pub udp_socks_remove : UdpSock → Udp → Udp
udp_socks_remove sk u = record u { links = list_del_init sk.address u.links; amount = dec u.amount }

unfoldable pub udp_sk_in_socks : UdpSock → Udp → Bool
udp_sk_in_socks sk u = u.links.next sk.address == sk.address

-- `none` is a walk that is lost.
unfoldable pub udp_port_used : ℕ → ℕ → Udp → Option Bool
udp_port_used fuel port u = elim (find_from fuel (λ sk. sk.sport == port) (u.links.next u.head) u) [
  | lost ↦ none
  | absent ↦ some false
  | found sk ↦ some true
]

-- The code is that of `rc`, which starts as -1.
unfoldable pub udp_set_sport : ℕ → ℕ → UdpSock → Udp → Option (UdpSock × ℤ)
udp_set_sport fuel sport sk u =
    if sport == 0 then some (sk, failed) else elim (udp_port_used fuel sport u) [
      | none ↦ none
      | some true ↦ some (sk, failed)
      | some false ↦ some (record sk { sport = sport }, failed)
    ]

unfoldable pub udp_bind : ℕ → ℕ → ℕ → UdpSock → Udp → Option (Call × ℤ)
udp_bind fuel saddr sport sk u =
    if not (sk.saddr == 0) then some ((sk, u), failed) else elim (udp_set_sport fuel sport sk u) [
      | none ↦ none
      | some (sk', negsuc n) ↦ some ((sk', u), failed)
      | some (sk', pos n) ↦
          (let bound = record sk' { saddr = saddr } in
            some ((bound, udp_socks_enqueue bound u), ok))
    ]

-- `udp_clean_up_receive_queue`, on the buffers in turn.
unfoldable pub free_datagrams : List Datagram → Udp → Udp
free_datagrams [] u = u
free_datagrams (d ∷ queue) u =
    free_datagrams queue (free_datagram (record d { refcnt = dec d.refcnt }) u)

abbrev pub is_connected : UdpState → Bool
is_connected connected = true
is_connected _ = false

abbrev pub is_unconnected : UdpState → Bool
is_unconnected unconnected = true
is_unconnected _ = false

-- `stackaddr` is the address of the stack.
unfoldable pub udp_connect : (stackaddr daddr dport : ℕ) → UdpSock → Udp → Call
udp_connect stackaddr daddr dport sk u =
    let sk' = if is_connected sk.state then record sk { receive_queue = [] } else sk in
    let u' = if is_connected sk.state then free_datagrams sk.receive_queue u else u in
    let (v, sport) = udp_generate_port u' in
    let d = record sk' {
      dport = dport;
      daddr = daddr;
      saddr = stackaddr;
      sport = sport;
      state = connected;
    } in
    (d, if sk.saddr == 0 then udp_socks_enqueue d v else v)

unfoldable pub udp_send : UdpSock → List ℕ → Udp → Udp
udp_send sk bytes u = record u {
  sent =
      u.sent
      ++ (record {
        saddr = sk.saddr;
        daddr = sk.daddr;
        sport = sk.sport;
        dport = sk.dport;
        len = u16 (length bytes + 8);
        bytes = bytes;
      }
          ∷ []);
}

-- `none` is the code -1; else the code is that of `ip_output`. UDP_MAX_BUFSZ is 65527.
unfoldable pub udp_write : UdpSock → List ℕ → Udp → Option Udp
udp_write sk bytes u = if ltb 65527 (length bytes) then none else some (udp_send sk bytes u)

-- A call with an address on a socket that is not connected, up to the `udp_send`.
unfoldable pub prepare_sendto : (stackaddr daddr dport : ℕ) → UdpSock → Udp → Call
prepare_sendto stackaddr daddr dport sk u =
    let (v, sport) = udp_generate_port u in
    let d = record sk { daddr = daddr; dport = dport; sport = sport; saddr = stackaddr } in
    (d, if not (udp_sk_in_socks d v) then link d v else v)

-- `none` is the code -1; else the code is that of `ip_output`. The address is that of `skaddr`.
unfoldable pub udp_sendto : ℕ → UdpSock → List ℕ → Option (ℕ × ℕ) → Udp → Option Call
udp_sendto stackaddr sk bytes none u =
    if is_connected sk.state then some (sk, udp_send sk bytes u) else none
udp_sendto stackaddr sk bytes (some (daddr, dport)) u =
    if is_unconnected sk.state
    then (let (d, v) = prepare_sendto stackaddr daddr dport sk u in some (d, udp_send d bytes v))
    else none

-- `udp_close`: `none` is a write through the NULL pointers of a `link` that was never set.
unfoldable pub udp_close : UdpSock → Udp → Option Udp
udp_close sk u =
    if u.links.prev sk.address == 0
    then none
    else (let v = udp_socks_remove sk u in
        some (record v { socks = λ q. if sk.address == q then none else v.socks q }))
