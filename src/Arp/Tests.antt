-- ===== src/Arp/Tests.antt =====
-- Two machines.
use toy_ip.Base.{◌≡◌, refl, [], ◌∷◌, ◌++◌, some}
use toy_ip.Arp.{
  ArpPacket, Entry, NetDev, Frame, Arp, request, broadcast_hw, arp_get_hwaddr, arp_request, arp_rcv,
}
use toy_ip.Arp.Cache.{IsCache, arp_rcv-IsCache}
use toy_ip.Arp.Exchange.{arp_request-resolves}

abbrev here : NetDev
here = record { addr = 10; hwaddr = 0 ∷ 12 ∷ 41 ∷ 109 ∷ 80 ∷ 37 ∷ [] }

abbrev there : NetDev
there = record { addr = 20; hwaddr = 0 ∷ 12 ∷ 41 ∷ 1 ∷ 2 ∷ 3 ∷ [] }

-- A table with an old entry for the other machine.
abbrev old : Entry
old = record { hwtype = 1; sip = 20; smac = 9 ∷ []; state = 2 }

abbrev arp : Arp
arp = record { cache = old ∷ []; sent = []; freed = [] }

abbrev old-IsCache : IsCache arp.cache
old-IsCache = (refl, refl, tt, tt)

abbrev asks : ArpPacket
asks = record {
  hwtype = 1;
  protype = 2048;
  opcode = request;
  smac = there.hwaddr;
  sip = 20;
  dmac = broadcast_hw;
  dip = 10;
}

arp_rcv-IsCache_example : IsCache (arp_rcv here 5 asks arp).cache
arp_rcv-IsCache_example = arp_rcv-IsCache here 5 asks arp old-IsCache

arp_request-resolves_example :
    let asked = arp_request here 5 10 20 arp in
    (f : Frame) × (asked.sent ≡ [] ++ (f ∷ []))
    × (f.dmac ≡ broadcast_hw)
    × (arp_get_hwaddr 10 (arp_rcv there 6 f.packet arp).cache ≡ some here.hwaddr)
    × (g : Frame) × ((arp_rcv there 6 f.packet arp).sent ≡ [] ++ (g ∷ []))
    × (g.dmac ≡ here.hwaddr)
    × (arp_get_hwaddr 20 (arp_rcv here 7 g.packet asked).cache ≡ some there.hwaddr)
arp_request-resolves_example = arp_request-resolves here there 5 6 7 arp arp old-IsCache old-IsCache
