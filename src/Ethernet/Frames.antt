-- ===== src/Ethernet/Frames.antt =====
-- What is received of the frames that are sent.
use toy_ip.Base.{
  ℕ, ◌^◌, ◌<◌, ◌≡◌, ◌≢◌, refl, ap, ◌∙◌, subst, some, List, [], ◌∷◌, ◌++◌, arith, length, drop,
  append_assoc, sym, drop_front, length-append,
}
use toy_ip.Arp.{ArpPacket}
use toy_ip.Ip.{net16, ip_rcv}
use toy_ip.Ip.Output.{be16-net16, be32-net32}
use toy_ip.Ethernet.{
  dropped, to_arp, to_ip, frame_bytes, arp_bytes, arp_packet, arp_or_fault, dispatch,
  netdev_receive,
}

-- Two addresses of 6 bytes are passed over.
headers :
    (stackaddr ethertype : ℕ) (dmac smac payload : List ℕ)
    → length dmac ≡ 6
    → length smac ≡ 6
    → netdev_receive stackaddr (frame_bytes dmac smac ethertype payload)
      ≡ dispatch stackaddr (net16 ethertype ++ payload)
unfolding netdev_receive
headers stackaddr ethertype dmac smac payload hd hs =
    let rest = net16 ethertype ++ payload in
    let size : length (dmac ++ smac) ≡ 12 = omega (arith, length-append dmac smac) in
    let behind : drop 12 (dmac ++ smac ++ rest) ≡ rest =
      subst (λ n. drop n (dmac ++ smac ++ rest) ≡ rest) size (drop_front (dmac ++ smac) rest) in
    rw (netdev_receive, sym (append_assoc dmac smac rest), behind) refl

-- Six bytes are a list of six.
six :
    (P : List ℕ → Type 0) (mac : List ℕ)
    → length mac ≡ 6
    → ((a b c d e f : ℕ) → P (a ∷ b ∷ c ∷ d ∷ e ∷ f ∷ []))
    → P mac
six P (a ∷ b ∷ c ∷ d ∷ e ∷ f ∷ []) h p = p a b c d e f
six P _ h p = absurd (omega (arith, h))

-- The fields of a packet as wide as its struct has them.
pub record IsPacket (p : ArpPacket) : Type 0 where
  pub hwtype : p.hwtype < 2 ^ 16
  pub protype : p.protype < 2 ^ 16
  pub opcode : p.opcode < 2 ^ 16
  pub sip : p.sip < 2 ^ 32
  pub dip : p.dip < 2 ^ 32
  pub smac : length p.smac ≡ 6
  pub dmac : length p.dmac ≡ 6

arp_packet-arp_bytes :
    (hwsize prosize : ℕ) (p : ArpPacket) (rest : List ℕ)
    → IsPacket p
    → arp_packet (arp_bytes hwsize prosize p ++ rest) ≡ some p
unfolding arp_packet
arp_packet-arp_bytes hwsize prosize p rest h =
    six
      (λ smac.
        arp_packet (arp_bytes hwsize prosize (record p { smac = smac }) ++ rest)
        ≡ some (record p { smac = smac }))
      p.smac h.smac
      (λ a b c d e f.
        six
          (λ dmac.
            let q = record p { smac = a ∷ b ∷ c ∷ d ∷ e ∷ f ∷ []; dmac = dmac } in
            arp_packet (arp_bytes hwsize prosize q ++ rest) ≡ some q)
          p.dmac h.dmac
          (λ a b c d e f.
            rw
              (
                be16-net16 p.hwtype h.hwtype,
                be16-net16 p.protype h.protype,
                be16-net16 p.opcode h.opcode,
                be32-net32 p.sip h.sip,
                be32-net32 p.dip h.dip,
              )
              refl))

pub ip_frame :
    (stackaddr : ℕ) (dmac smac payload : List ℕ)
    → length dmac ≡ 6
    → length smac ≡ 6
    → netdev_receive stackaddr (frame_bytes dmac smac 2048 payload)
      ≡ to_ip (ip_rcv stackaddr payload)
unfolding dispatch
ip_frame stackaddr dmac smac payload hd hs = headers stackaddr 2048 dmac smac payload hd hs

-- What a frame with two hardware addresses of 6 bytes is to a receiver with the address
-- `stackaddr`, whatever follows its payload in the buffer. With the type of ARP and a packet
-- whose fields are as wide as its struct has them, it is that packet, in host order; with the
-- type of IP, it is what `ip_rcv` makes of the payload; with any other type below 2 ^ 16, it is
-- dropped.
pub netdev_receive-frame_bytes :
    (stackaddr : ℕ) (dmac smac payload : List ℕ) (hwsize prosize : ℕ) (p : ArpPacket) (type : ℕ)
    → length dmac ≡ 6
    → length smac ≡ 6
    → IsPacket p
    → type < 2 ^ 16
    → type ≢ 2054
    → type ≢ 2048
    → (netdev_receive stackaddr (frame_bytes dmac smac 2054 (arp_bytes hwsize prosize p ++ payload))
        ≡ to_arp p)
      × (netdev_receive stackaddr (frame_bytes dmac smac 2048 payload)
          ≡ to_ip (ip_rcv stackaddr payload))
      × (netdev_receive stackaddr (frame_bytes dmac smac type payload) ≡ dropped)
unfolding dispatch
netdev_receive-frame_bytes stackaddr dmac smac payload hwsize prosize p type hd hs h small not_arp
      not_ip =
    (
      headers stackaddr 2054 dmac smac (arp_bytes hwsize prosize p ++ payload) hd hs
          ∙ ap arp_or_fault (arp_packet-arp_bytes hwsize prosize p payload h),
      ip_frame stackaddr dmac smac payload hd hs,
      headers stackaddr type dmac smac payload hd hs
          ∙ rw (dispatch, be16-net16 type small) (ground (arith, not_arp, not_ip)),
    )
