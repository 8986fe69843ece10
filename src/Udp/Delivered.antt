-- ===== src/Udp/Delivered.antt =====
-- A datagram from `udp_send` of one machine to `udp_in` of another: toy_src/udp_sock.c,
-- toy_src/ip_output.c, toy_src/ip_input.c and toy_src/udp.c together.
use toy_ip.Base.{
  ℕ, ◌+◌, ◌-◌, ◌^◌, ◌%◌, ◌<◌, ◌≤◌, ◌≡◌, refl, some, List, [], ◌∷◌, ◌++◌, u16, pos, drop, drop_front,
  length, All, arith, subst,
}
use toy_ip.Checksum.Words.{IsByte}
use toy_ip.Checksum.Transport.{transport_stored}
use toy_ip.Checksum.{swap32}
use toy_ip.Ip.{IpHdr, to_udp, demux, ip_rcv, ip_header}
use toy_ip.Ip.Output.{be16-net16, header_of, ip_rcv-ip_header}
use toy_ip.Udp.{Udp, UdpSock, Packet, udp_init_segment}
use toy_ip.Udp.Calls.{udp_send}
use toy_ip.Udp.Wire.{
  udp_before_csum, udp_with_csum, udp_checksum, udp_packet_bytes, read_datagram, udp_received,
}

module _ (p : Packet) where
  even : length (udp_before_csum p) ≡ 6
  unfolding udp_before_csum
  even = refl

  udp_before_csum-IsByte : All IsByte (udp_before_csum p)
  unfolding udp_before_csum
  udp_before_csum-IsByte = omega arith

  sent_bytes :
      All IsByte p.bytes
      → length p.bytes ≤ 64000
      → (csum : ℕ) × (udp_packet_bytes p ≡ some (udp_with_csum csum p))
        × (udp_checksum p.saddr p.daddr (udp_with_csum csum p) ≡ some 0)
  unfolding udp_packet_bytes udp_checksum
  sent_bytes all small =
      let (csum, sum, stored) =
        transport_stored (swap32 p.saddr) (swap32 p.daddr) 17 (udp_before_csum p) p.bytes
          (rw even refl) udp_before_csum-IsByte all (omega (arith, even)) (omega arith) in
      (csum, rw (udp_packet_bytes, sum) refl, stored)

  read_back :
      (address csum : ℕ) (ih : IpHdr) (header rest : List ℕ)
      → length header ≡ 20
      → p.sport < 2 ^ 16
      → p.dport < 2 ^ 16
      → p.len ≡ length p.bytes + 8
      → length p.bytes ≤ 64000
      → udp_received address ih (header ++ (udp_with_csum csum p ++ rest))
        ≡ some (record {
          address = address;
          refcnt = pos 0;
          sport = p.sport;
          dport = p.dport;
          len = p.len;
          saddr = ih.saddr;
          dlen = length p.bytes;
          payload = p.bytes ++ rest;
        })
  unfolding udp_received read_datagram udp_before_csum udp_init_segment
  read_back address csum ih header rest twenty hs hd len small =
      let wire = udp_with_csum csum p ++ rest in
      let size : p.len < 2 ^ 16 = omega arith in
      let dlen : (p.len + 2 ^ 32 - 8) % 2 ^ 32 ≡ length p.bytes = omega arith in
      rw
        (
          subst (λ n. drop n (header ++ wire) ≡ wire) twenty (drop_front header wire),
          be16-net16 p.sport hs,
          be16-net16 p.dport hd,
          be16-net16 p.len size,
          dlen,
        )
        refl

-- A socket whose ports fit in 16 bits and whose addresses in 32 sends at most 64000 bytes:
-- `udp_send` makes one packet, and what it and `ip_output` write is a datagram whose UDP checksum
-- verifies. `ip_rcv` of the machine with the address `daddr` gives it to UDP, which reads the two
-- ports, the address of the sender, and the bytes with their number, whatever `rest` follows them in
-- the buffer.
pub datagram_arrives :
    (address id : ℕ) (sk : UdpSock) (bytes rest : List ℕ) (u : Udp)
    → sk.sport < 2 ^ 16
    → sk.dport < 2 ^ 16
    → id < 2 ^ 16
    → sk.saddr < 2 ^ 32
    → sk.daddr < 2 ^ 32
    → All IsByte bytes
    → length bytes ≤ 64000
    → (p : Packet) × ((udp_send sk bytes u).sent ≡ u.sent ++ p ∷ [])
      × (header : List ℕ) × (ip_header (28 + length bytes) id 17 sk.saddr sk.daddr ≡ some header)
      × (wire : List ℕ) × (udp_packet_bytes p ≡ some wire)
      × (udp_checksum sk.saddr sk.daddr wire ≡ some 0)
      × (ih : IpHdr) × (ip_rcv sk.daddr (header ++ (wire ++ rest)) ≡ to_udp ih)
      × (udp_received address ih (header ++ (wire ++ rest))
          ≡ some (record {
            address = address;
            refcnt = pos 0;
            sport = sk.sport;
            dport = sk.dport;
            len = length bytes + 8;
            saddr = sk.saddr;
            dlen = length bytes;
            payload = bytes ++ rest;
          }))
unfolding demux udp_send
datagram_arrives address id sk bytes rest u hsp hdp hi hs hd all small =
    let p : Packet = record {
      saddr = sk.saddr;
      daddr = sk.daddr;
      sport = sk.sport;
      dport = sk.dport;
      len = length bytes + 8;
      bytes = bytes;
    } in
    let len : u16 (length bytes + 8) ≡ length bytes + 8 = omega arith in
    let (csum, sends, sum) = sent_bytes p all small in
    let wire = udp_with_csum csum p in
    let (header, writes, twenty, arrives) =
      ip_rcv-ip_header (28 + length bytes) id 17 sk.saddr sk.daddr (omega arith) hi hs hd
        (wire ++ rest) in
    let ih = header_of (28 + length bytes) id 17 sk.saddr sk.daddr in
    (
      p,
      rw len refl,
      header,
      writes,
      wire,
      sends,
      sum,
      ih,
      arrives,
      read_back p address csum ih header rest twenty hsp hdp refl small,
    )
