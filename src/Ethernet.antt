-- ===== src/Ethernet.antt =====
-- toy_src/ethernet.h, the dispatch of toy_src/netdev.c, and the bytes of ARP packets in
-- toy_src/arp.h and toy_src/arp.c.
use toy_ip.Base.{ℕ, ◌+◌, Option, none, some, List, [], ◌∷◌, ◌++◌, ◌==◌, if◌then◌else◌, drop}
use toy_ip.Arp.{ArpPacket}
use toy_ip.Ip.{be16, be32, net16, net32, Incoming, ip_rcv}
pub mod Frames
mod Tests

-- What `netdev_receive` does with a frame: `fault` is a read behind the end of the buffer.
pub data Received : Type 0 where
  fault dropped : Received
  to_arp : ArpPacket → Received
  to_ip : Incoming → Received

-- The frame that `netdev_transmit` writes: the two hardware addresses, the type and the payload.
abbrev pub frame_bytes : (dmac smac : List ℕ) (ethertype : ℕ) → List ℕ → List ℕ
frame_bytes dmac smac ethertype payload = dmac ++ (smac ++ (net16 ethertype ++ payload))

-- The bytes of a packet in network order. The sizes of the addresses are 6 and 4 in a request, and
-- those of the request in a reply.
abbrev pub arp_bytes : (hwsize prosize : ℕ) → ArpPacket → List ℕ
arp_bytes hwsize prosize p =
    net16 p.hwtype
    ++ (net16 p.protype
        ++ (hwsize ∷ prosize ∷ net16 p.opcode
            ++ (p.smac ++ (net32 p.sip ++ (p.dmac ++ net32 p.dip)))))

-- `arp_hdr` and the conversions of `arp_rcv`: the packet in host order.
unfoldable pub arp_packet : List ℕ → Option ArpPacket
arp_packet
      (h0 ∷ h1 ∷ p0 ∷ p1 ∷ _ ∷ _ ∷ o0 ∷ o1 ∷ s0 ∷ s1 ∷ s2 ∷ s3 ∷ s4 ∷ s5 ∷ a0 ∷ a1 ∷ a2 ∷ a3 ∷ d0
        ∷ d1 ∷ d2 ∷ d3 ∷ d4 ∷ d5 ∷ b0 ∷ b1 ∷ b2 ∷ b3 ∷ _) =
    some (record {
      hwtype = be16 h0 h1;
      protype = be16 p0 p1;
      opcode = be16 o0 o1;
      smac = s0 ∷ s1 ∷ s2 ∷ s3 ∷ s4 ∷ s5 ∷ [];
      sip = be32 a0 a1 a2 a3;
      dmac = d0 ∷ d1 ∷ d2 ∷ d3 ∷ d4 ∷ d5 ∷ [];
      dip = be32 b0 b1 b2 b3;
    })
arp_packet _ = none

abbrev pub arp_or_fault : Option ArpPacket → Received
arp_or_fault none = fault
arp_or_fault (some p) = to_arp p

-- The `switch` on the type, 0x0806 for ARP and 0x0800 for IP.
unfoldable pub dispatch : (stackaddr : ℕ) → List ℕ → Received
dispatch stackaddr (hi ∷ lo ∷ payload) =
    if be16 hi lo == 2054
    then arp_or_fault (arp_packet payload)
    else if be16 hi lo == 2048
    then to_ip (ip_rcv stackaddr payload)
    else dropped
dispatch stackaddr _ = fault

unfoldable pub netdev_receive : (stackaddr : ℕ) → List ℕ → Received
netdev_receive stackaddr frame = dispatch stackaddr (drop 12 frame)
