-- ===== src/Ip.antt =====
-- toy_src/ip.h, toy_src/ip_input.c and the header of toy_src/ip_output.c. A datagram is the bytes of
-- the buffer from the IP header on, as they lie in memory on a little-endian machine.
use toy_ip.Base.{
  ℕ, ◌+◌, ◌*◌, ◌/◌, ◌%◌, Bool, true, false, not, ◌||◌, Option, none, some, List, [], ◌∷◌, ◌++◌, u8,
  u16, ltb, ◌==◌, if◌then◌else◌, take,
}
use toy_ip.Checksum.{checksum, bytes16}
pub mod Output
pub mod Icmp
pub mod Echo
pub mod Neighbour
pub mod Resolve
mod Tests

-- `struct iphdr` with the fields in host byte order, as `ip_init_pkt` leaves it. The fields that
-- the code does not read are left out.
pub record IpHdr : Type 0 where
  pub ihl : ℕ
  pub version : ℕ
  pub len : ℕ
  pub id : ℕ
  pub ttl : ℕ
  pub proto : ℕ
  pub saddr : ℕ
  pub daddr : ℕ

-- A number of 16 and of 32 bits with its highest byte first.
abbrev pub be16 : ℕ → ℕ → ℕ
be16 a b = a * 256 + b

abbrev pub be32 : ℕ → ℕ → ℕ → ℕ → ℕ
be32 a b c d = ((a * 256 + b) * 256 + c) * 256 + d

-- `ip_hdr` and `ip_init_pkt`; `none` is a read behind the end of the buffer.
unfoldable pub ip_init_pkt : List ℕ → Option IpHdr
ip_init_pkt
      (b0 ∷ _ ∷ b2 ∷ b3 ∷ b4 ∷ b5 ∷ _ ∷ _ ∷ b8 ∷ b9 ∷ _ ∷ _ ∷ b12 ∷ b13 ∷ b14 ∷ b15 ∷ b16 ∷ b17
        ∷ b18 ∷ b19 ∷ _) =
    some (record {
      ihl = b0 % 16;
      version = b0 / 16;
      len = be16 b2 b3;
      id = be16 b4 b5;
      ttl = b8;
      proto = b9;
      saddr = be32 b12 b13 b14 b15;
      daddr = be32 b16 b17 b18 b19;
    })
ip_init_pkt _ = none

-- What `ip_rcv` does with a datagram: `fault` is a read behind the end of the buffer.
pub data Incoming : Type 0 where
  fault dropped : Incoming
  to_icmp to_tcp to_udp : IpHdr → Incoming

abbrev pub is_valid : Option ℕ → Bool
is_valid none = false
is_valid (some csum) = csum == 0

unfoldable pub ip_pkt_for_us : ℕ → IpHdr → Bool
ip_pkt_for_us stackaddr ih = ih.daddr == stackaddr

-- The `switch` on the protocol.
unfoldable pub demux : IpHdr → Incoming
demux ih =
    if ih.proto == 1
    then to_icmp ih
    else if ih.proto == 6
    then to_tcp ih
    else if ih.proto == 17
    then to_udp ih
    else dropped

unfoldable pub ip_rcv : ℕ → List ℕ → Incoming
ip_rcv stackaddr bytes = elim (ip_init_pkt bytes) [
  | none ↦ fault
  | some ih ↦
      if not (ih.version == 4)
      then dropped
      else if ltb ih.ihl 5
      then dropped
      else if ih.ttl == 0
      then dropped
      else if not (is_valid (checksum (take (ih.ihl * 4) bytes) 0))
      then dropped
      else if not (ip_pkt_for_us stackaddr ih)
      then dropped
      else demux ih
]

-- The bytes of a number in network order: `htons` and `htonl`, stored.
abbrev pub net16 : ℕ → List ℕ
net16 n = n / 256 % 256 ∷ n % 256 ∷ []

abbrev pub net32 : ℕ → List ℕ
net32 n = n / 16777216 % 256 ∷ n / 65536 % 256 ∷ n / 256 % 256 ∷ n % 256 ∷ []

-- The header of `ip_output` before and behind its checksum.
unfoldable pub before_csum : (len id proto : ℕ) → List ℕ
before_csum len id proto = 69 ∷ 0 ∷ net16 len ++ (net16 id ++ (0 ∷ 0 ∷ 64 ∷ u8 proto ∷ []))

unfoldable pub behind_csum : (saddr daddr : ℕ) → List ℕ
behind_csum saddr daddr = net32 saddr ++ net32 daddr

abbrev pub with_csum : List ℕ → List ℕ → Option ℕ → Option (List ℕ)
with_csum before behind none = none
with_csum before behind (some csum) = some (before ++ (bytes16 csum ++ behind))

-- The header that `ip_output` writes; `len` is `skb->len` with the header, `saddr` the address of
-- the device of the route. `none` would be a loop of `checksum` that does not end.
unfoldable pub ip_header : (len id proto saddr daddr : ℕ) → Option (List ℕ)
ip_header len id proto saddr daddr =
    let before = before_csum len id proto in
    let behind = behind_csum saddr daddr in
    with_csum before behind (checksum (before ++ (0 ∷ 0 ∷ behind)) 0)
