-- ===== src/Receive.antt =====
-- `netdev_rx_loop` of toy_src/netdev.c with all that a frame is given to: toy_src/arp.c,
-- toy_src/ip_input.c, toy_src/icmpv4.c, toy_src/tcp.c and toy_src/udp.c. A buffer is the bytes from
-- its head to its end.
use toy_ip.Base.{ℕ, zero, suc, ◌-◌, Option, none, some, List, [], ◌∷◌, ◌++◌, length, drop}
use toy_ip.Arp.{NetDev, Arp, arp_rcv}
use toy_ip.Ip.{Incoming, to_icmp, to_tcp, to_udp}
use toy_ip.Ip.Icmp.{Answer, answered, icmpv4_incoming}
use toy_ip.Ethernet.{Received, to_arp, to_ip, netdev_receive}
use toy_ip.Udp.{Udp, udp_in}
use toy_ip.Udp.Wire.{udp_received}
use toy_ip.Tcp.Types.{Env}
use toy_ip.Tcp.Wire.{tcp_init_segment}
use toy_ip.Tcp.Sock.{tcp_in}
pub mod Frames
mod Exchange
mod Tests

-- What the protocols keep, and the ICMP messages handed to `ip_output` with their addresses.
pub record Stack : Type 0 where
  pub arp : Arp
  pub udp : Udp
  pub tcp : Env
  pub replies : List (ℕ × List ℕ)

-- What `tun_read` reads, and what the code takes from the system for this frame: the address of the
-- buffer, the number of `tcp_generate_isn`, the time of day in milliseconds. `fuel` is for the walk
-- over the table of UDP sockets.
pub record Input : Type 0 where
  pub frame : List ℕ
  pub address : ℕ
  pub isn : ℕ
  pub ts_recv : ℕ
  pub fuel : ℕ

abbrev pub cleared : ℕ → List ℕ
cleared zero = []
cleared (suc n) = 0 ∷ cleared n

-- The buffer of BUFLEN bytes that `alloc_skb` has cleared, after the read.
unfoldable pub buffer : Input → List ℕ
buffer i = i.frame ++ cleared (1600 - length i.frame)

abbrev pub set_tcp : Stack → Option Env → Option Stack
set_tcp s none = none
set_tcp s (some env) = some (record s { tcp = env })

abbrev pub set_udp : Stack → Option Udp → Option Stack
set_udp s none = none
set_udp s (some udp) = some (record s { udp = udp })

abbrev pub add_reply : Stack → Answer → Option Stack
add_reply s Answer.fault = none
add_reply s Answer.stuck = none
add_reply s Answer.dropped = some s
add_reply s (answered daddr message) =
    some (record s { replies = s.replies ++ (daddr, message) ∷ [] })

-- The calls in the `switch` of `ip_rcv`, on the datagram. `none` is an access behind the end of the
-- buffer or a fault of the protocol.
unfoldable pub take_datagram : Input → List ℕ → Incoming → Stack → Option Stack
take_datagram i datagram Incoming.fault s = none
take_datagram i datagram Incoming.dropped s = some s
take_datagram i datagram (to_icmp ih) s = add_reply s (icmpv4_incoming i.ts_recv ih datagram)
take_datagram i datagram (to_tcp ih) s = elim (tcp_init_segment i.address ih datagram) [
  | none ↦ none
  | some skb ↦ set_tcp s (tcp_in i.isn skb s.tcp)
]
take_datagram i datagram (to_udp ih) s = elim (udp_received i.address ih datagram) [
  | none ↦ none
  | some d ↦ set_udp s (udp_in i.fuel d s.udp)
]

-- The calls in the `switch` of `netdev_receive`; the payload of a frame lies behind 14 bytes.
unfoldable pub take_frame : NetDev → Input → List ℕ → Received → Stack → Option Stack
take_frame dev i bytes Received.fault s = none
take_frame dev i bytes Received.dropped s = some s
take_frame dev i bytes (to_arp p) s = some (record s { arp = arp_rcv dev i.address p s.arp })
take_frame dev i bytes (to_ip incoming) s = take_datagram i (drop 14 bytes) incoming s

-- A round of `netdev_rx_loop`.
unfoldable pub rx_round : NetDev → (stackaddr : ℕ) → Input → Stack → Option Stack
rx_round dev stackaddr i s = take_frame dev i (buffer i) (netdev_receive stackaddr (buffer i)) s

-- `netdev_rx_loop`: `none` in the list is a read that fails, and its end is the end of `running`.
unfoldable pub netdev_rx_loop :
    NetDev → (stackaddr : ℕ) → List (Option Input) → Stack → Option Stack
netdev_rx_loop dev stackaddr [] s = some s
netdev_rx_loop dev stackaddr (none ∷ reads) s = some s
netdev_rx_loop dev stackaddr (some i ∷ reads) s = elim (rx_round dev stackaddr i s) [
  | none ↦ none
  | some t ↦ netdev_rx_loop dev stackaddr reads t
]
