-- ===== src/Arp/Exchange.antt =====
-- A request and its reply between two machines.
use toy_ip.Base.{ℕ, ◌≡◌, refl, some, [], ◌∷◌, ◌++◌, arith}
use toy_ip.Arp.{
  ArpPacket, NetDev, Frame, Arp, request, arp_ethernet, arp_ipv4, broadcast_hw, arp_get_hwaddr,
  netdev_transmit, drop_pkt, reply_to, arp_reply, arp_request, arp_operation, arp_rcv,
}
use toy_ip.Arp.Cache.{IsCache, arp_rcv-learns}

-- A request for this machine is answered with the reply to its sender.
sent-arp_rcv :
    (dev : NetDev) (address : ℕ) (p : ArpPacket) (s : Arp)
    → p.hwtype ≡ arp_ethernet
    → p.protype ≡ arp_ipv4
    → p.dip ≡ dev.addr
    → p.opcode ≡ request
    → (arp_rcv dev address p s).sent
      ≡ s.sent
        ++ (record { dmac = p.smac; smac = dev.hwaddr; ethertype = 2054; packet = reply_to dev p }
            ∷ [])
unfolding arp_rcv arp_operation arp_reply netdev_transmit drop_pkt reply_to
sent-arp_rcv dev address p s t v d o = ground (arith, t, v, d, o)

-- Two machines whose tables hold resolved entries of Ethernet, one for an address at most: `a`
-- asks for the address of `b` by a broadcast. When `b` takes the request in, it sends one frame,
-- to `a`, and resolves the address of `a` to its hardware address; when `a` takes that frame in,
-- it resolves the address of `b` to the hardware address of `b`.
pub arp_request-resolves :
    (a b : NetDev) (n m k : ℕ) (sa sb : Arp)
    → IsCache sa.cache
    → IsCache sb.cache
    → let asked = arp_request a n a.addr b.addr sa in
      (f : Frame) × (asked.sent ≡ sa.sent ++ (f ∷ []))
      × (f.dmac ≡ broadcast_hw)
      × (arp_get_hwaddr a.addr (arp_rcv b m f.packet sb).cache ≡ some a.hwaddr)
      × (g : Frame) × ((arp_rcv b m f.packet sb).sent ≡ sb.sent ++ (g ∷ []))
      × (g.dmac ≡ a.hwaddr)
      × (arp_get_hwaddr b.addr (arp_rcv a k g.packet asked).cache ≡ some b.hwaddr)
unfolding arp_request netdev_transmit drop_pkt reply_to
arp_request-resolves a b n m k sa sb ha hb =
    let p : ArpPacket = record {
      hwtype = arp_ethernet;
      protype = arp_ipv4;
      opcode = request;
      smac = a.hwaddr;
      sip = a.addr;
      dmac = broadcast_hw;
      dip = b.addr;
    } in
    (
      _,
      refl,
      refl,
      arp_rcv-learns b m p sb hb refl refl refl,
      _,
      sent-arp_rcv b m p sb refl refl refl refl,
      refl,
      arp_rcv-learns a k (reply_to b p) (arp_request a n a.addr b.addr sa) ha refl refl refl,
    )
