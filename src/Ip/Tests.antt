-- ===== src/Ip/Tests.antt =====
-- An echo request, and a datagram to the gateway.
use toy_ip.Base.{ℕ, ◌≡◌, refl, some, List, [], ◌∷◌, ◌++◌, arith, length}
use toy_ip.Checksum.{checksum, bytes16}
use toy_ip.Arp.{ArpPacket, Arp, arp_request, arp_rcv, arp_get_hwaddr, reply}
use toy_ip.Route.{netdev, default_route, route_init}
use toy_ip.Ip.{IpHdr, demux}
use toy_ip.Ethernet.{frame_bytes, to_ip, netdev_receive}
use toy_ip.Ip.Output.{header_of}
use toy_ip.Ip.Icmp.{fault, answered, icmpv4_incoming}
use toy_ip.Ip.Echo.{IsEcho, icmpv4_incoming-echo, icmpv4_incoming-short}
use toy_ip.Ip.Neighbour.{
  Out, transmitted, failed, next_hop, net_device, dst_neigh_output, ip_output,
}
use toy_ip.Ip.Resolve.{device_hwaddr, dst_neigh_output-unanswered, ip_output-delivers}

abbrev twenty : List ℕ
twenty = 0 ∷ 0 ∷ 0 ∷ 0 ∷ 0 ∷ 0 ∷ 0 ∷ 0 ∷ 0 ∷ 0 ∷ 0 ∷ 0 ∷ 0 ∷ 0 ∷ 0 ∷ 0 ∷ 0 ∷ 0 ∷ 0 ∷ 0 ∷ []

abbrev hdr : ℕ → IpHdr
hdr len = record {
  ihl = 5;
  version = 4;
  len = len;
  id = 1;
  ttl = 64;
  proto = 1;
  saddr = 20;
  daddr = 10;
}

-- Two bytes behind the message belong to the buffer and not to the message.
abbrev rest : List ℕ
rest = 0 ∷ 1 ∷ 2 ∷ 3 ∷ 0 ∷ 0 ∷ []

abbrev echo : IsEcho (hdr 28) (twenty ++ (8 ∷ 0 ∷ 9 ∷ 9 ∷ rest)) 0 9 9 rest
echo = record {
  message = refl;
  are_bytes = omega arith;
  long = omega arith;
  inside = omega arith;
  buffer = omega arith;
  field = omega arith;
}

icmpv4_incoming-echo_example :
    (csum : ℕ) × (icmpv4_incoming 5 (hdr 28) (twenty ++ (8 ∷ 0 ∷ 9 ∷ 9 ∷ rest))
      ≡ answered 20 (0 ∷ 0 ∷ bytes16 csum ++ (0 ∷ 1 ∷ 2 ∷ 3 ∷ [])))
    × (checksum (0 ∷ 0 ∷ bytes16 csum ++ (0 ∷ 1 ∷ 2 ∷ 3 ∷ [])) 0 ≡ some 0)
icmpv4_incoming-echo_example =
    icmpv4_incoming-echo (hdr 28) (twenty ++ (8 ∷ 0 ∷ 9 ∷ 9 ∷ rest)) 0 9 9 rest echo 5

icmpv4_incoming-short_example :
    icmpv4_incoming 5 (hdr 10) (twenty ++ (8 ∷ 0 ∷ 9 ∷ 9 ∷ rest)) ≡ fault
icmpv4_incoming-short_example =
    icmpv4_incoming-short 5 (hdr 10) (twenty ++ (8 ∷ 0 ∷ 9 ∷ 9 ∷ rest)) (0 ∷ 9 ∷ 9 ∷ rest) refl
      (omega arith) (omega arith) (omega arith)

-- Nothing is known, and the next hop is the gateway at 10.0.1.1.
abbrev gateway : ℕ
gateway = 0x0a000101

abbrev nothing : Out
nothing = record { arp = record { cache = []; sent = []; freed = [] }; frames = [] }

abbrev address : ℕ → ℕ
address k = k

abbrev nobody : ℕ → Arp → Arp
nobody k arp = arp

dst_neigh_output-unanswered_example :
    dst_neigh_output address nobody (default_route gateway) 0x0a000104 20 twenty nothing
    ≡ some (
      failed,
      record nothing {
        arp = arp_request (net_device netdev) 2 0x0a000104 gateway (
            arp_request
              (net_device netdev)
              1
              0x0a000104
              gateway
              (arp_request (net_device netdev) 0 0x0a000104 gateway nothing.arp));
      },
    )
unfolding arp_get_hwaddr next_hop
dst_neigh_output-unanswered_example =
    dst_neigh_output-unanswered address nobody (default_route gateway) 0x0a000104 20 twenty nothing
      refl (λ k arp h. h)

abbrev answer_packet : ArpPacket
answer_packet = record {
  hwtype = 1;
  protype = 2048;
  opcode = reply;
  smac = 6 ∷ 5 ∷ 4 ∷ 3 ∷ 2 ∷ 1 ∷ [];
  sip = gateway;
  dmac = (net_device netdev).hwaddr;
  dip = 0x0a000104;
}

abbrev answers : ℕ → Arp → Arp
answers k arp = arp_rcv (net_device netdev) 9 answer_packet arp

abbrev known : Out
known = record nothing {
  arp = record nothing.arp {
    cache = record { hwtype = 1; sip = gateway; smac = 6 ∷ 5 ∷ 4 ∷ 3 ∷ 2 ∷ 1 ∷ []; state = 2 } ∷ [];
  };
}

ip_output-delivers_example :
    (header : List ℕ) × (length header ≡ 20)
    × (ip_output address nobody (route_init gateway []) 77 3 17 20 (1 ∷ 2 ∷ []) known
        ≡ some (
          transmitted,
          record known {
            frames =
                []
                ++ (record {
                  dmac = 6 ∷ 5 ∷ 4 ∷ 3 ∷ 2 ∷ 1 ∷ [];
                  smac = device_hwaddr;
                  ethertype = 2048;
                  datagram = header ++ (1 ∷ 2 ∷ []);
                }
                    ∷ []);
          },
        ))
    × (netdev_receive 20
          (frame_bytes (6 ∷ 5 ∷ 4 ∷ 3 ∷ 2 ∷ 1 ∷ []) device_hwaddr 2048 (header ++ (1 ∷ 2 ∷ [])))
        ≡ to_ip (demux (header_of 22 3 17 0x0a000104 20)))
unfolding arp_get_hwaddr
ip_output-delivers_example =
    ip_output-delivers address nobody gateway 77 3 17 20 (1 ∷ 2 ∷ []) (6 ∷ 5 ∷ 4 ∷ 3 ∷ 2 ∷ 1 ∷ [])
      known (omega arith) (omega arith) (omega arith) refl refl
