-- ===== src/Udp/Wire.antt =====
-- The bytes of a datagram: `struct udphdr` of toy_src/udp.h, what `udp_send` of toy_src/udp_sock.c
-- writes, and what `udp_hdr` and `udp_init_segment` of toy_src/udp.c read, in memory on a
-- little-endian machine.
use toy_ip.Base.{ℕ, Option, none, some, List, ◌∷◌, ◌++◌, pos, drop, length}
use toy_ip.Checksum.{bytes16, swap32, tcp_udp_checksum}
use toy_ip.Ip.{IpHdr, be16, net16}
use toy_ip.Udp.{Datagram, Packet, udp_init_segment}

-- The header before its checksum, which the data follows.
unfoldable pub udp_before_csum : Packet → List ℕ
udp_before_csum p = net16 p.sport ++ (net16 p.dport ++ net16 p.len)

abbrev pub udp_with_csum : ℕ → Packet → List ℕ
udp_with_csum csum p = udp_before_csum p ++ (bytes16 csum ++ p.bytes)

-- `udp_checksum`, for addresses in host byte order
unfoldable pub udp_checksum : ℕ → ℕ → List ℕ → Option ℕ
udp_checksum saddr daddr bytes =
    tcp_udp_checksum (swap32 saddr) (swap32 daddr) 17 bytes (length bytes)

-- What `udp_send` hands to `ip_output`. `none` would be a loop of the checksum that does not end.
unfoldable pub udp_packet_bytes : Packet → Option (List ℕ)
udp_packet_bytes p = elim (udp_checksum p.saddr p.daddr (udp_with_csum 0 p)) [
  | none ↦ none
  | some csum ↦ some (udp_with_csum csum p)
]

-- The header of a received datagram, in host byte order; `none` is a read behind the end.
unfoldable pub read_datagram : ℕ → IpHdr → List ℕ → Option Datagram
read_datagram address ih (b0 ∷ b1 ∷ b2 ∷ b3 ∷ b4 ∷ b5 ∷ _ ∷ _ ∷ payload) = some (
    udp_init_segment (record {
      address = address;
      refcnt = pos 0;
      sport = be16 b0 b1;
      dport = be16 b2 b3;
      len = be16 b4 b5;
      saddr = ih.saddr;
      dlen = 0;
      payload = payload;
    }))
read_datagram _ _ _ = none

-- `udp_hdr` lies 20 bytes behind the IP header.
unfoldable pub udp_received : ℕ → IpHdr → List ℕ → Option Datagram
udp_received address ih datagram = read_datagram address ih (drop 20 datagram)
