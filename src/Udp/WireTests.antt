-- ===== src/Udp/WireTests.antt =====
-- A datagram of toy_src/udp_sock.c in bytes.
use toy_ip.Base.{◌≡◌, refl, some, [], ◌∷◌}
use toy_ip.Checksum.{tcp_udp_checksum, checksum, sum_every_16bits, fold, complement}
use toy_ip.Udp.Wire.{udp_checksum, udp_packet_bytes, udp_before_csum}

bytes :
    udp_packet_bytes (record {
      saddr = 0x0a000104;
      daddr = 0x0a000105;
      sport = 40001;
      dport = 53;
      len = 11;
      bytes = 1 ∷ 2 ∷ 3 ∷ [];
    })
    ≡ some (156 ∷ 65 ∷ 0 ∷ 53 ∷ 0 ∷ 11 ∷ 73 ∷ 87 ∷ 1 ∷ 2 ∷ 3 ∷ [])
unfolding udp_packet_bytes udp_checksum tcp_udp_checksum checksum sum_every_16bits fold complement
    udp_before_csum
bytes = refl
