-- ===== src/Ip/Neighbour.antt =====
-- `dst_neigh_output` of toy_src/dst.c and `ip_output` of toy_src/ip_output.c, with
-- `netdev_transmit` of toy_src/netdev.c. The memory at which the buffers of requests are allocated,
-- and what other threads do to the ARP state in each sleep, are parameters.
use Prim.Native.Nat.{bit_and}
use toy_ip.Base.{
  ℕ, zero, suc, ◌+◌, Option, none, some, List, [], ◌∷◌, ◌++◌, not, ltb, ◌==◌, if◌then◌else◌, length,
}
use toy_ip.Arp.{NetDev, Arp, arp_get_hwaddr, arp_request}
use toy_ip.Route.{Device, loop, netdev, device_addr, RtEntry, route_lookup}
use toy_ip.Ip.{ip_header}

-- What `netdev_transmit` writes to the device for a datagram.
pub record IpFrame : Type 0 where
  pub dmac : List ℕ
  pub smac : List ℕ
  pub ethertype : ℕ
  pub datagram : List ℕ

-- The state of ARP, and the frames sent so far with datagrams in them.
pub record Out : Type 0 where
  pub arp : Arp
  pub frames : List IpFrame

-- What the functions return: what `netdev_transmit` does, or -1.
pub data Rc : Type 0 where
  transmitted failed : Rc

-- `netdev_init`: the addresses of the two devices.
unfoldable pub net_device : Device → NetDev
net_device loop = record { addr = device_addr loop; hwaddr = 0 ∷ 0 ∷ 0 ∷ 0 ∷ 0 ∷ 0 ∷ [] }
net_device netdev = record {
  addr = device_addr netdev;
  hwaddr = 0x00 ∷ 0x0c ∷ 0x29 ∷ 0x6d ∷ 0x50 ∷ 0x25 ∷ [];
}

unfoldable pub transmit_ip : NetDev → (dst_hw datagram : List ℕ) → Out → Out
transmit_ip dev dst_hw datagram s = record s {
  frames =
      s.frames
      ++ (record { dmac = dst_hw; smac = dev.hwaddr; ethertype = 2048; datagram = datagram } ∷ []);
}

-- `if (rt->flags & RT_GATEWAY) daddr = rt->gateway;`
unfoldable pub next_hop : RtEntry → ℕ → ℕ
next_hop rt daddr = if not (bit_and rt.flags 2 == 0) then rt.gateway else daddr

module _ (address : ℕ → ℕ) (others : ℕ → Arp → Arp) where
  -- From the label `try_agin` on; `none` is fuel that does not last.
  unfoldable pub try_agin :
      (fuel : ℕ) → NetDev → (saddr daddr count : ℕ) → List ℕ → Out → Option (Rc × Out)
  try_agin zero dev saddr daddr count datagram s = none
  try_agin (suc fuel) dev saddr daddr count datagram s =
      let asked = arp_request dev (address count) saddr daddr s.arp in
      let again =
        try_agin fuel dev saddr daddr (count + 1) datagram
          (record s { arp = others count asked }) in
      elim (arp_get_hwaddr daddr s.arp.cache) [
        | some dmac ↦ some (transmitted, transmit_ip dev dmac datagram s)
        | none ↦ if ltb (count + 1) 3 then again else some (failed, record s { arp = asked })
      ]

  unfoldable pub dst_neigh_output : RtEntry → (saddr daddr : ℕ) → List ℕ → Out → Option (Rc × Out)
  dst_neigh_output rt saddr daddr datagram s =
      try_agin 3 (net_device rt.dev) saddr (next_hop rt daddr) 0 datagram s

  -- `in_buffer` and `id` are what the buffer holds for the destination and the identification
  -- before the header is written.
  unfoldable pub ip_output :
      List RtEntry → (in_buffer id proto daddr : ℕ) → List ℕ → Out → Option (Rc × Out)
  ip_output routes in_buffer id proto daddr payload s = elim (route_lookup in_buffer routes) [
    | none ↦ some (failed, s)
    | some rt ↦ elim (ip_header (length payload + 20) id proto (device_addr rt.dev) daddr) [
      | none ↦ none
      | some header ↦ dst_neigh_output rt (device_addr rt.dev) daddr (header ++ payload) s
    ]
  ]
