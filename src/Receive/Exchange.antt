-- ===== src/Receive/Exchange.antt =====
-- A datagram from the call that sends it to the call that reads it: toy_src/udp_sock.c,
-- toy_src/netdev.c, toy_src/ip_input.c and toy_src/udp.c.
use toy_ip.Base.{
  length-append, ℕ, ◌+◌, ◌^◌, ◌<◌, ◌≤◌, ◌≡◌, refl, ◌∙◌, ap, some, List, [], ◌∷◌, ◌++◌, pos, length,
  take_front, All, arith,
}
use toy_ip.Arp.{NetDev}
use toy_ip.Checksum.Words.{IsByte}
use toy_ip.Ip.{ip_header}
use toy_ip.Ethernet.{frame_bytes}
use toy_ip.Udp.{Udp, UdpSock, Packet, found, udp_lookup_sock, finished, udp_recvfrom}
use toy_ip.Udp.Calls.{udp_send}
use toy_ip.Udp.Queue.{udp_in-udp_recvfrom}
use toy_ip.Udp.Wire.{udp_packet_bytes}
use toy_ip.Receive.{Stack, Input, set_udp, rx_round}
use toy_ip.Receive.Frames.{rx_datagram}

-- A socket whose ports fit in 16 bits and whose addresses in 32 sends from 1 to 1558 bytes, over a
-- device that has its source address. The
-- machine with the address `daddr` finds a socket with an empty queue at the port, and reads the
-- frame of the datagram, with two hardware addresses of 6 bytes. Then the round of
-- `netdev_rx_loop` ends without a fault, it changes nothing but the state of UDP, and
-- `udp_recvfrom` of the socket that was found, with room for all the bytes, returns without sleeping:
-- with the bytes, their number, and the address and the port of the sender.
pub rx_round-udp_recvfrom :
    (id userlen : ℕ) (sk rk : UdpSock) (bytes dmac smac : List ℕ) (u : Udp)
    → sk.sport < 2 ^ 16
    → sk.dport < 2 ^ 16
    → id < 2 ^ 16
    → sk.saddr < 2 ^ 32
    → sk.daddr < 2 ^ 32
    → All IsByte bytes
    → 0 < length bytes
    → length bytes ≤ 1558
    → length bytes ≤ userlen
    → length dmac ≡ 6
    → length smac ≡ 6
    → (dev : NetDev) (i : Input) (s : Stack) → udp_lookup_sock i.fuel sk.dport s.udp ≡ found rk
    → rk.receive_queue ≡ []
    → (p : Packet) × ((udp_send sk bytes u).sent ≡ u.sent ++ p ∷ [])
      × (header : List ℕ) × (ip_header (28 + length bytes) id 17 sk.saddr sk.daddr ≡ some header)
      × (wire : List ℕ) × (udp_packet_bytes p ≡ some wire)
      × (v : Udp) × (rx_round dev sk.daddr
            (record i { frame = frame_bytes dmac smac 2048 (header ++ wire) })
            s
          ≡ some (record s { udp = v }))
      × (rk' : UdpSock) × (v.socks rk.address ≡ some rk')
      × (after : UdpSock × Udp) × (udp_recvfrom [] userlen rk' v
          ≡ finished after (record {
            bytes = bytes;
            sender = some (sk.saddr, sk.sport);
            code = pos (length bytes);
          }))
rx_round-udp_recvfrom id userlen sk rk bytes dmac smac u hsp hdp hi hs hd all some_bytes small room
      hdm hsm dev i s look empty =
    let (p, packet, header, writes, wire, sends, rest, round) =
      rx_datagram id sk bytes dmac smac u hsp hdp hi hs hd all small hdm hsm dev i s in
    let (rk', v, queued, stored, after, reads) =
      udp_in-udp_recvfrom i.fuel userlen (length bytes) _ rk s.udp look empty refl some_bytes
        (omega arith) (omega (arith, length-append bytes rest)) room in
    (
      p,
      packet,
      header,
      writes,
      wire,
      sends,
      v,
      round ∙ ap (set_udp s) queued,
      rk',
      stored,
      after,
      rw (reads, take_front bytes rest) refl,
    )
