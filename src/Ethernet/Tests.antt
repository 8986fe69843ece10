-- ===== src/Ethernet/Tests.antt =====
-- A request for an address in a frame, and frames of other types.
use toy_ip.Base.{ℕ, ◌≡◌, refl, List, [], ◌∷◌, ◌++◌, arith}
use toy_ip.Arp.{ArpPacket, request, broadcast_hw}
use toy_ip.Ip.{ip_rcv}
use toy_ip.Ethernet.{dropped, to_arp, to_ip, frame_bytes, arp_bytes, netdev_receive}
use toy_ip.Ethernet.Frames.{IsPacket, netdev_receive-frame_bytes}

abbrev mac : List ℕ
mac = 0 ∷ 12 ∷ 41 ∷ 109 ∷ 80 ∷ 37 ∷ []

abbrev asks : ArpPacket
asks = record {
  hwtype = 1;
  protype = 2048;
  opcode = request;
  smac = mac;
  sip = 0x0a000104;
  dmac = broadcast_hw;
  dip = 0x0a000101;
}

abbrev asks-IsPacket : IsPacket asks
asks-IsPacket = record {
  hwtype = omega arith;
  protype = omega arith;
  opcode = omega arith;
  sip = omega arith;
  dip = omega arith;
  smac = refl;
  dmac = refl;
}

netdev_receive-frame_bytes_example :
    (netdev_receive 9 (frame_bytes broadcast_hw mac 2054 (arp_bytes 6 4 asks ++ (0 ∷ 0 ∷ [])))
      ≡ to_arp asks)
    × (netdev_receive 9 (frame_bytes broadcast_hw mac 2048 (0 ∷ 0 ∷ []))
        ≡ to_ip (ip_rcv 9 (0 ∷ 0 ∷ [])))
    × (netdev_receive 9 (frame_bytes broadcast_hw mac 34525 (0 ∷ 0 ∷ [])) ≡ dropped)
netdev_receive-frame_bytes_example =
    netdev_receive-frame_bytes 9 broadcast_hw mac (0 ∷ 0 ∷ []) 6 4 asks 34525 refl refl
      asks-IsPacket (omega arith) (λ e. absurd (omega (arith, e))) (λ e. absurd (omega (arith, e)))
