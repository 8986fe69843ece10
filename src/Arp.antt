-- ===== src/Arp.antt =====
-- toy_src/arp.c, with `netdev_get` and `netdev_transmit` of toy_src/netdev.c. A hardware address is
-- the list of its bytes; the fields of a packet are in host byte order.
use toy_ip.Base.{
  ℕ, Bool, true, false, not, ◌&&◌, Option, none, some, List, [], ◌∷◌, ◌++◌, ◌==◌, if◌then◌else◌,
}
pub mod Cache
pub mod Exchange
mod Tests

-- `struct arp_hdr` and `struct arp_ipv4`
pub record ArpPacket : Type 0 where
  pub hwtype : ℕ
  pub protype : ℕ
  pub opcode : ℕ
  pub smac : List ℕ
  pub sip : ℕ
  pub dmac : List ℕ
  pub dip : ℕ

-- `struct arp_cache_entry`
pub record Entry : Type 0 where
  pub hwtype : ℕ
  pub sip : ℕ
  pub smac : List ℕ
  pub state : ℕ

-- `struct netdev`
pub record NetDev : Type 0 where
  pub addr : ℕ
  pub hwaddr : List ℕ

-- What `netdev_transmit` writes to the device.
pub record Frame : Type 0 where
  pub dmac : List ℕ
  pub smac : List ℕ
  pub ethertype : ℕ
  pub packet : ArpPacket

-- `arp_cache`, the frames sent so far, and the addresses of the buffers freed so far.
pub record Arp : Type 0 where
  pub cache : List Entry
  pub sent : List Frame
  pub freed : List ℕ

abbrev pub arp_ethernet : ℕ
arp_ethernet = 1

abbrev pub arp_ipv4 : ℕ
arp_ipv4 = 2048

abbrev pub arp_resolved : ℕ
arp_resolved = 2

abbrev pub request : ℕ
request = 1

abbrev pub reply : ℕ
reply = 2

abbrev pub broadcast_hw : List ℕ
broadcast_hw = 255 ∷ 255 ∷ 255 ∷ 255 ∷ 255 ∷ 255 ∷ []

unfoldable pub arp_entry_alloc : ArpPacket → Entry
arp_entry_alloc p = record { hwtype = p.hwtype; sip = p.sip; smac = p.smac; state = arp_resolved }

unfoldable pub insert_arp_translation_table : ArpPacket → List Entry → List Entry
insert_arp_translation_table p cache = cache ++ (arp_entry_alloc p ∷ [])

-- The cache, and whether an entry was found.
unfoldable pub update_arp_translation_table : ArpPacket → List Entry → List Entry × Bool
update_arp_translation_table p [] = ([], false)
update_arp_translation_table p (entry ∷ cache) =
    let rest = update_arp_translation_table p cache in
    if (entry.hwtype == p.hwtype) && (entry.sip == p.sip)
    then (record entry { smac = p.smac } ∷ cache, true)
    else (entry ∷ rest.0, rest.1)

unfoldable pub arp_get_hwaddr : ℕ → List Entry → Option (List ℕ)
arp_get_hwaddr sip [] = none
arp_get_hwaddr sip (entry ∷ cache) =
    let rest = arp_get_hwaddr sip cache in
    if (entry.state == arp_resolved) && (entry.sip == sip) then some entry.smac else rest

-- `netdev_transmit`
unfoldable pub netdev_transmit : NetDev → List ℕ → ArpPacket → Arp → Arp
netdev_transmit dev dst p s = record s {
  sent = s.sent ++ (record { dmac = dst; smac = dev.hwaddr; ethertype = 2054; packet = p } ∷ []);
}

-- A buffer of ARP has no references, so `free_skb` frees it.
unfoldable pub drop_pkt : ℕ → Arp → Arp
drop_pkt address s = record s { freed = s.freed ++ (address ∷ []) }

unfoldable pub reply_to : NetDev → ArpPacket → ArpPacket
reply_to dev p = record p {
  dmac = p.smac;
  dip = p.sip;
  smac = dev.hwaddr;
  sip = dev.addr;
  opcode = reply;
}

unfoldable pub arp_reply : NetDev → ℕ → ArpPacket → Arp → Arp
arp_reply dev address p s =
    drop_pkt address (netdev_transmit dev (reply_to dev p).dmac (reply_to dev p) s)

-- The buffer is allocated at `address`.
unfoldable pub arp_request : NetDev → ℕ → ℕ → ℕ → Arp → Arp
arp_request dev address sip dip s = drop_pkt address (
    netdev_transmit dev broadcast_hw
      (record {
        hwtype = arp_ethernet;
        protype = arp_ipv4;
        opcode = request;
        smac = dev.hwaddr;
        sip = sip;
        dmac = broadcast_hw;
        dip = dip;
      })
      s)

-- The `switch` on the operation.
unfoldable pub arp_operation : NetDev → ℕ → ArpPacket → Arp → Arp
arp_operation dev address p s =
    if p.opcode == request
    then arp_reply dev address p s
    else if p.opcode == reply
    then s
    else drop_pkt address s

unfoldable pub arp_rcv : NetDev → ℕ → ArpPacket → Arp → Arp
arp_rcv dev address p s =
    if not (p.hwtype == arp_ethernet)
    then drop_pkt address s
    else if not (p.protype == arp_ipv4)
    then drop_pkt address s
    else (let (cache, merge) = update_arp_translation_table p s.cache in
        let updated = record s { cache = cache } in
        if not (dev.addr == p.dip)
        then drop_pkt address updated
        else arp_operation dev address p
            (if merge then updated else record s { cache = insert_arp_translation_table p cache }))
