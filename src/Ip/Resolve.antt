-- ===== src/Ip/Resolve.antt =====
-- Sending a datagram while the next hop is being resolved.
use toy_ip.Base.{
  ℕ, suc, ◌+◌, ◌^◌, ◌<◌, ◌≡◌, refl, ap, ◌∙◌, subst, none, some, List, [], ◌∷◌, ◌++◌, arith, length,
}
use toy_ip.Arp.{
  ArpPacket, NetDev, Arp, arp_ethernet, arp_ipv4, arp_get_hwaddr, netdev_transmit, drop_pkt,
  arp_request, arp_rcv,
}
use toy_ip.Arp.Cache.{IsCache, arp_rcv-learns}
use toy_ip.Route.{netdev, device_addr, RtEntry, default_route, route_init}
use toy_ip.Route.Lookup.{route_init-default}
use toy_ip.Ip.{demux}
use toy_ip.Ip.Output.{header_of, ip_rcv-ip_header}
use toy_ip.Ethernet.{frame_bytes, to_ip, netdev_receive}
use toy_ip.Ethernet.Frames.{ip_frame}
use toy_ip.Ip.Neighbour.{
  Out, transmitted, failed, net_device, transmit_ip, next_hop, try_agin, dst_neigh_output,
  ip_output,
}

cache-arp_request :
    (dev : NetDev) (address saddr daddr : ℕ) (arp : Arp)
    → (arp_request dev address saddr daddr arp).cache ≡ arp.cache
unfolding arp_request drop_pkt netdev_transmit
cache-arp_request dev address saddr daddr arp = refl

module _ (address : ℕ → ℕ) (others : ℕ → Arp → Arp) (dev : NetDev) (saddr daddr : ℕ)
    (datagram : List ℕ) where
  found :
      (fuel count : ℕ) (dmac : List ℕ) (s : Out)
      → arp_get_hwaddr daddr s.arp.cache ≡ some dmac
      → try_agin address others (suc fuel) dev saddr daddr count datagram s
        ≡ some (transmitted, transmit_ip dev dmac datagram s)
  unfolding try_agin
  found fuel count dmac s e = rw (try_agin, e) refl

  again :
      (fuel count : ℕ) (s : Out)
      → arp_get_hwaddr daddr s.arp.cache ≡ none
      → count + 1 < 3
      → try_agin address others (suc fuel) dev saddr daddr count datagram s
        ≡ try_agin address others fuel dev saddr daddr
            (count + 1)
            datagram
            (record s { arp = others count (arp_request dev (address count) saddr daddr s.arp) })
  unfolding try_agin
  again fuel count s e h = ground (arith, e)

  gives_up :
      (fuel : ℕ) (s : Out)
      → arp_get_hwaddr daddr s.arp.cache ≡ none
      → try_agin address others (suc fuel) dev saddr daddr 2 datagram s
        ≡ some (failed, record s { arp = arp_request dev (address 2) saddr daddr s.arp })
  unfolding try_agin
  gives_up fuel s e = rw (try_agin, e) refl

module _ (address : ℕ → ℕ) (others : ℕ → Arp → Arp) (rt : RtEntry) (saddr daddr : ℕ)
    (datagram : List ℕ) (s : Out)
    (unknown : arp_get_hwaddr (next_hop rt daddr) s.arp.cache ≡ none) where
  abbrev asks : ℕ → Arp → Arp
  asks k arp = arp_request (net_device rt.dev) (address k) saddr (next_hop rt daddr) arp

  still_unknown :
      (k : ℕ) (arp : Arp)
      → arp_get_hwaddr (next_hop rt daddr) arp.cache ≡ none
      → arp_get_hwaddr (next_hop rt daddr) (asks k arp).cache ≡ none
  still_unknown k arp e =
      rw (cache-arp_request (net_device rt.dev) (address k) saddr (next_hop rt daddr) arp) e

  -- If the hardware address of the next hop is unknown and the other threads never learn it,
  -- `dst_neigh_output` ends: it asks for the address three times, with a sleep behind the first and
  -- the second request, sends no datagram and returns -1.
  pub dst_neigh_output-unanswered :
      (quiet : (k : ℕ) (arp : Arp)
        → arp_get_hwaddr (next_hop rt daddr) arp.cache ≡ none
        → arp_get_hwaddr (next_hop rt daddr) (others k arp).cache ≡ none)
      → dst_neigh_output address others rt saddr daddr datagram s
        ≡ some (failed, record s { arp = asks 2 (others 1 (asks 1 (others 0 (asks 0 s.arp)))) })
  unfolding dst_neigh_output
  dst_neigh_output-unanswered quiet =
      let first = quiet 0 (asks 0 s.arp) (still_unknown 0 s.arp unknown) in
      let second =
        quiet 1 (asks 1 (others 0 (asks 0 s.arp)))
          (still_unknown 1 (others 0 (asks 0 s.arp)) first) in
      again address others (net_device rt.dev) saddr (next_hop rt daddr) datagram 2 0 s unknown
        (omega arith)
      ∙ again address others (net_device rt.dev) saddr (next_hop rt daddr) datagram 1 1
          (record s { arp = others 0 (asks 0 s.arp) }) first (omega arith)
      ∙ gives_up address others (net_device rt.dev) saddr (next_hop rt daddr) datagram 0
          (record s { arp = others 1 (asks 1 (others 0 (asks 0 s.arp))) }) second

  -- If the hardware address of the next hop is unknown, in a table in which every entry is resolved
  -- and of Ethernet and no two are for one address, and the packet that comes in during the first
  -- sleep is one of Ethernet and IPv4 from the next hop to the device, `dst_neigh_output` asks once
  -- and then sends the datagram in one frame to the hardware address in that packet.
  pub dst_neigh_output-answered :
      (m : ℕ) (p : ArpPacket)
      → IsCache s.arp.cache
      → p.hwtype ≡ arp_ethernet
      → p.protype ≡ arp_ipv4
      → p.dip ≡ (net_device rt.dev).addr
      → p.sip ≡ next_hop rt daddr
      → ((arp : Arp) → others 0 arp ≡ arp_rcv (net_device rt.dev) m p arp)
      → dst_neigh_output address others rt saddr daddr datagram s
        ≡ some (
          transmitted,
          transmit_ip
              (net_device rt.dev)
              p.smac
              datagram
              (record s { arp = arp_rcv (net_device rt.dev) m p (asks 0 s.arp) }),
        )
  unfolding dst_neigh_output
  dst_neigh_output-answered m p h t v d from arrives =
      let asked = asks 0 s.arp in
      let same =
        cache-arp_request (net_device rt.dev) (address 0) saddr (next_hop rt daddr) s.arp in
      let learnt : arp_get_hwaddr (next_hop rt daddr) (arp_rcv (net_device rt.dev) m p asked).cache
          ≡ some p.smac =
        subst
          (λ sip. arp_get_hwaddr sip (arp_rcv (net_device rt.dev) m p asked).cache ≡ some p.smac)
          from (arp_rcv-learns (net_device rt.dev) m p asked (rw same h) t v d) in
      again address others (net_device rt.dev) saddr (next_hop rt daddr) datagram 2 0 s unknown
        (omega arith)
      ∙ ap
          (λ arp.
            try_agin address others 2 (net_device rt.dev) saddr (next_hop rt daddr) 1 datagram
              (record s { arp = arp }))
          (arrives asked)
      ∙ found address others (net_device rt.dev) saddr (next_hop rt daddr) datagram 1 1 p.smac
          (record s { arp = arp_rcv (net_device rt.dev) m p asked }) learnt

default-next_hop : (tapaddr daddr : ℕ) → next_hop (default_route tapaddr) daddr ≡ tapaddr
unfolding next_hop
default-next_hop tapaddr daddr = refl

abbrev pub device_hwaddr : List ℕ
device_hwaddr = 0x00 ∷ 0x0c ∷ 0x29 ∷ 0x6d ∷ 0x50 ∷ 0x25 ∷ []

-- With the routes that `route_init` sets up and the hardware address of their gateway, of 6 bytes,
-- known, `ip_output` sends a payload of at most 65515 bytes, with an identification of 16 bits to an
-- address of 32 bits, in one frame to the gateway from the hardware address of the device, and
-- changes nothing else. Behind its header of 20 bytes the datagram is the payload, and
-- `netdev_receive` of the machine with the destination's address, given the bytes of the frame,
-- hands it to the protocol, with the source address 10.0.1.4. What the buffer held for the
-- destination does not matter.
pub ip_output-delivers :
    (address : ℕ → ℕ) (others : ℕ → Arp → Arp) (tapaddr in_buffer id proto daddr : ℕ)
    (payload dmac : List ℕ) (s : Out)
    → length payload + 20 < 2 ^ 16
    → id < 2 ^ 16
    → daddr < 2 ^ 32
    → arp_get_hwaddr tapaddr s.arp.cache ≡ some dmac
    → length dmac ≡ 6
    → (header : List ℕ) × (length header ≡ 20)
      × (ip_output address others (route_init tapaddr []) in_buffer id proto daddr payload s
          ≡ some (
            transmitted,
            record s {
              frames =
                  s.frames
                  ++ (record {
                    dmac = dmac;
                    smac = device_hwaddr;
                    ethertype = 2048;
                    datagram = header ++ payload;
                  }
                      ∷ []);
            },
          ))
      × (netdev_receive daddr (frame_bytes dmac device_hwaddr 2048 (header ++ payload))
          ≡ to_ip (demux (header_of (length payload + 20) id proto 0x0a000104 daddr)))
unfolding ip_output dst_neigh_output device_addr net_device transmit_ip
ip_output-delivers address others tapaddr in_buffer id proto daddr payload dmac s hl hi hd known
      six =
    let (header, written, size, accepted) =
      ip_rcv-ip_header (length payload + 20) id proto 0x0a000104 daddr hl hi (omega arith) hd
        payload in
    let sent =
      found address others (net_device netdev) 0x0a000104 tapaddr (header ++ payload) 2 0 dmac s
        known in
    (
      header,
      size,
      rw
          (
            ip_output,
            route_init-default tapaddr in_buffer,
            written,
            dst_neigh_output,
            default-next_hop tapaddr daddr,
          )
          sent,
      ip_frame daddr dmac device_hwaddr (header ++ payload) six refl ∙ ap to_ip accepted,
    )
