-- ===== src/Arp/Cache.antt =====
-- The translation table.
use toy_ip.Base.{ℕ, ◌≡◌, ◌≢◌, refl, sym, true, false, some, List, [], ◌∷◌, arith, All, All-append}
use toy_ip.Arp.{
  ArpPacket, Entry, NetDev, Arp, arp_ethernet, arp_ipv4, arp_resolved, arp_entry_alloc,
  insert_arp_translation_table, update_arp_translation_table, arp_get_hwaddr, netdev_transmit,
  drop_pkt, arp_reply, arp_operation, arp_rcv,
}

-- No entry is for the address `sip`.
abbrev pub Missing : ℕ → List Entry → Type 0
Missing sip cache = All (λ (e : Entry). e.sip ≢ sip) cache

-- Every entry is resolved and of Ethernet, and no two are for the same address.
abbrev pub IsCache : List Entry → Type 0
IsCache [] = Unit
IsCache (e ∷ cache) =
    (e.hwtype ≡ arp_ethernet) × (e.state ≡ arp_resolved) × Missing e.sip cache × IsCache cache

Missing-update :
    (p : ArpPacket) (sip : ℕ) (cache : List Entry)
    → Missing sip cache
    → Missing sip (update_arp_translation_table p cache).0
unfolding update_arp_translation_table
Missing-update p sip [] m = tt
Missing-update p sip (e ∷ cache) m = ground (arith, Missing-update p sip cache m.1)

IsCache-update :
    (p : ArpPacket) (cache : List Entry)
    → IsCache cache
    → IsCache (update_arp_translation_table p cache).0
unfolding update_arp_translation_table
IsCache-update p [] h = tt
IsCache-update p (e ∷ cache) h =
    ground (arith, IsCache-update p cache h.3, Missing-update p e.sip cache h.2)

IsCache-insert :
    (p : ArpPacket) (cache : List Entry)
    → p.hwtype ≡ arp_ethernet
    → IsCache cache
    → Missing p.sip cache
    → IsCache (insert_arp_translation_table p cache)
unfolding insert_arp_translation_table arp_entry_alloc
IsCache-insert p [] t h m = (t, refl, tt, tt)
IsCache-insert p (e ∷ cache) t h m = (
  h.0,
  h.1,
  All-append (λ (x : Entry). x.sip ≢ e.sip) cache (arp_entry_alloc p ∷ []) h.2
      ((λ k. m.0 (sym k)), tt),
  IsCache-insert p cache t h.3 m.1,
)

-- An update that finds nothing leaves a table without the address as it was.
update-Missing :
    (p : ArpPacket) (cache : List Entry)
    → p.hwtype ≡ arp_ethernet
    → IsCache cache
    → (update_arp_translation_table p cache).1 ≡ false
    → Missing p.sip (update_arp_translation_table p cache).0
unfolding update_arp_translation_table
update-Missing p [] t h e = tt
update-Missing p (x ∷ cache) t h e = ground (arith, update-Missing p cache t h.3)

-- An update that finds the address leaves the sender's hardware address in its entry.
get-update :
    (p : ArpPacket) (cache : List Entry)
    → p.hwtype ≡ arp_ethernet
    → IsCache cache
    → (update_arp_translation_table p cache).1 ≡ true
    → arp_get_hwaddr p.sip (update_arp_translation_table p cache).0 ≡ some p.smac
unfolding update_arp_translation_table arp_get_hwaddr
get-update p [] t h e = ground (arith, e)
get-update p (x ∷ cache) t h e = ground (arith, get-update p cache t h.3)

get-insert :
    (p : ArpPacket) (cache : List Entry)
    → Missing p.sip cache
    → arp_get_hwaddr p.sip (insert_arp_translation_table p cache) ≡ some p.smac
unfolding insert_arp_translation_table arp_entry_alloc arp_get_hwaddr
get-insert p [] m = ground arith
get-insert p (x ∷ cache) m = ground (arith, get-insert p cache m.1)

cache-arp_operation :
    (dev : NetDev) (address : ℕ) (p : ArpPacket) (s : Arp)
    → (arp_operation dev address p s).cache ≡ s.cache
unfolding arp_operation arp_reply drop_pkt netdev_transmit
cache-arp_operation dev address p s = ground arith

-- Whatever packet comes in, the table stays one in which every entry is resolved and of Ethernet
-- and no two entries are for the same address.
pub arp_rcv-IsCache :
    (dev : NetDev) (address : ℕ) (p : ArpPacket) (s : Arp)
    → IsCache s.cache
    → IsCache (arp_rcv dev address p s).cache
unfolding arp_rcv drop_pkt
arp_rcv-IsCache dev address p s h =
    grind (arith, cache-arp_operation, IsCache-update p s.cache h, IsCache-insert, update-Missing)

-- On a table in which every entry is resolved and of Ethernet and no two entries are for the same
-- address, when an Ethernet packet for IPv4 comes in that is for this machine, the address of its
-- sender then resolves to the hardware address of its sender, whether it was known before or not.
pub arp_rcv-learns :
    (dev : NetDev) (address : ℕ) (p : ArpPacket) (s : Arp)
    → IsCache s.cache
    → p.hwtype ≡ arp_ethernet
    → p.protype ≡ arp_ipv4
    → p.dip ≡ dev.addr
    → arp_get_hwaddr p.sip (arp_rcv dev address p s).cache ≡ some p.smac
unfolding arp_rcv drop_pkt
arp_rcv-learns dev address p s h t v d =
    grind (arith, cache-arp_operation, get-update, get-insert, update-Missing)
