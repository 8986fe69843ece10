-- ===== src/Ip/Icmp.antt =====
-- toy_src/icmpv4.c, on the bytes of the buffer from the IP header on, and the header of it that
-- `ip_rcv` has put into host byte order. The message lies 20 bytes behind the IP header.
use toy_ip.Base.{
  ℕ, ◌+◌, ◌*◌, ◌-◌, ◌^◌, Option, none, some, List, [], ◌∷◌, ◌++◌, u16, ltb, ◌==◌, if◌then◌else◌,
  take, drop, length,
}
use toy_ip.Checksum.{checksum, bytes16}
use toy_ip.Ip.{IpHdr, net32}

-- `iphdr->len - (iphdr->ihl * 4)`, cut to 16 bits.
abbrev pub icmp_len : IpHdr → ℕ
icmp_len ih = u16 (ih.len + 2 ^ 16 - ih.ihl * 4)

-- What the functions do with a datagram: `fault` is an access behind the end of the buffer, `stuck`
-- a loop of `checksum` that does not end, `answered` what goes to `ip_output`, with the address.
pub data Answer : Type 0 where
  fault stuck dropped : Answer
  answered : (daddr : ℕ) (message : List ℕ) → Answer

-- The message with its checksum stored, cut to its length.
abbrev pub stored : (daddr size type code : ℕ) → List ℕ → Option ℕ → Answer
stored daddr size type code rest none = stuck
stored daddr size type code rest (some csum) =
    answered daddr (take size (type ∷ code ∷ bytes16 csum ++ rest))

-- `icmp->type = type; icmp->csum = 0; icmp->csum = checksum(icmp, icmp_len, 0)`, then `ip_output`.
-- The list holds the message up to the end of the buffer.
unfoldable pub send_icmp : (daddr size type : ℕ) → List ℕ → Answer
send_icmp daddr size type (_ ∷ code ∷ _ ∷ _ ∷ rest) =
    let zeroed = type ∷ code ∷ 0 ∷ 0 ∷ rest in
    if ltb (length zeroed) size
    then fault
    else stored daddr size type code rest (checksum (take size zeroed) 0)
send_icmp daddr size type _ = fault

unfoldable pub icmpv4_reply : IpHdr → List ℕ → Answer
icmpv4_reply ih bytes = send_icmp ih.saddr (icmp_len ih) 0 (drop 20 bytes)

-- `icmp->rtime = icmp->ttime = htonl(ts_recv)`
unfoldable pub set_times : ℕ → List ℕ → Option (List ℕ)
set_times ts_recv (m0 ∷ m1 ∷ m2 ∷ m3 ∷ m4 ∷ m5 ∷ m6 ∷ m7 ∷ _ ∷ _ ∷ _ ∷ _ ∷ _ ∷ _ ∷ _ ∷ _ ∷ rest) =
    some (m0 ∷ m1 ∷ m2 ∷ m3 ∷ m4 ∷ m5 ∷ m6 ∷ m7 ∷ net32 ts_recv ++ (net32 ts_recv ++ rest))
set_times ts_recv _ = none

-- `ts_recv` is the time of day in milliseconds.
unfoldable pub icmpv4_timestamp : ℕ → IpHdr → List ℕ → Answer
icmpv4_timestamp ts_recv ih bytes = elim (set_times ts_recv (drop 20 bytes)) [
  | none ↦ fault
  | some message ↦ send_icmp ih.saddr (icmp_len ih) 14 message
]

unfoldable pub icmpv4_incoming : ℕ → IpHdr → List ℕ → Answer
icmpv4_incoming ts_recv ih bytes = elim (drop 20 bytes) [
  | [] ↦ fault
  | type ∷ _ ↦
      if type == 8
      then icmpv4_reply ih bytes
      else if type == 13
      then icmpv4_timestamp ts_recv ih bytes
      else dropped
]
