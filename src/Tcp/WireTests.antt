-- ===== src/Tcp/WireTests.antt =====
-- Concrete segments of toy_src/tcp_output.c and toy_src/tcp.c in bytes.
use toy_ip.Base.{ℕ, ◌≡◌, refl, true, false, some, List, [], ◌∷◌, ◌++◌, pos, take, arith}
use toy_ip.Ip.{IpHdr, to_tcp, ip_rcv, ip_header}
use toy_ip.Checksum.{tcp_udp_checksum, checksum, sum_every_16bits, fold, complement}
use toy_ip.Tcp.Types.{TcpHdr, Skb}
use toy_ip.Tcp.Output.{blank}
use toy_ip.Tcp.Wire.{
  tcp_checksum, tcp_segment_bytes, tcp_init_segment, tcp_before_csum, tcp_behind_csum, flag_bits,
  tcp_write_options,
}
use toy_ip.Tcp.Wire.Delivered.{segment_arrives}
use toy_ip.Tcp.Wire.Options.{with_options, options_are_data}

-- `GET` from port 40001 to port 80.
abbrev request : TcpHdr
request = record blank {
  sport = 40001;
  dport = 80;
  seq = 100;
  ack_seq = 500;
  hl = 5;
  psh = true;
  ack = true;
  win = 44477;
}

abbrev ih_of : ℕ → IpHdr
ih_of len = record {
  ihl = 5;
  version = 4;
  len = len;
  id = 0;
  ttl = 64;
  proto = 6;
  saddr = 0x0a000104;
  daddr = 0x0a000105;
}

abbrev header_bytes : List ℕ
header_bytes =
    69 ∷ 0 ∷ 0 ∷ 43 ∷ 0 ∷ 0 ∷ 0 ∷ 0 ∷ 64 ∷ 6 ∷ 0 ∷ 0 ∷ 10 ∷ 0 ∷ 1 ∷ 4 ∷ 10 ∷ 0 ∷ 1 ∷ 5 ∷ []

segment_arrives_example :
    (header : List ℕ) × (ip_header 43 9 6 0x0a000104 0x0a000105 ≡ some header)
    × (wire : List ℕ) × (tcp_segment_bytes 0x0a000104 0x0a000105 request (71 ∷ 69 ∷ 84 ∷ [])
        ≡ some wire)
    × (tcp_checksum 0x0a000104 0x0a000105 wire ≡ some 0)
    × (ih : IpHdr) × (ip_rcv 0x0a000105 (header ++ (wire ++ 0 ∷ [])) ≡ to_tcp ih)
    × (tcp_init_segment 7 ih (header ++ (wire ++ 0 ∷ []))
        ≡ some (record {
          address = 7;
          refcnt = pos 0;
          seq = 100;
          end_seq = 103;
          dlen = 3;
          payload = 71 ∷ 69 ∷ 84 ∷ 0 ∷ [];
          th = request;
          saddr = 0x0a000104;
          daddr = 0x0a000105;
        }))
segment_arrives_example =
    segment_arrives 7 9 0x0a000104 0x0a000105 request (71 ∷ 69 ∷ 84 ∷ []) (0 ∷ [])
      (record {
        sport = omega arith;
        dport = omega arith;
        seq = omega arith;
        ack_seq = omega arith;
        win = omega arith;
      })
      refl refl (omega arith) (omega arith) (omega arith) (omega arith) (omega arith)

-- Three words of options: the user gets the first three bytes of the time stamp option.
options_are_data_example :
    (skb : Skb) × (tcp_init_segment 7 (ih_of 55) (
        header_bytes
        ++ with_options 0
            (record request { hl = 8 })
            (1 ∷ 1 ∷ 8 ∷ 10 ∷ 0 ∷ 0 ∷ 0 ∷ 1 ∷ 0 ∷ 0 ∷ 0 ∷ 2 ∷ [])
            (71 ∷ 69 ∷ 84 ∷ []))
      ≡ some skb)
    × (skb.dlen ≡ 3)
    × (take skb.dlen skb.payload ≡ 1 ∷ 1 ∷ 8 ∷ [])
options_are_data_example =
    options_are_data 7 0 3 (ih_of 55) header_bytes (record request { hl = 8 })
      (1 ∷ 1 ∷ 8 ∷ 10 ∷ 0 ∷ 0 ∷ 0 ∷ 1 ∷ 0 ∷ 0 ∷ 0 ∷ 2 ∷ []) (71 ∷ 69 ∷ 84 ∷ []) refl refl
      (omega arith) refl refl (omega arith)

-- A SYN with its option.
syn_bytes :
    tcp_segment_bytes 0x0a000104 0x0a000105
      (record request { hl = 6; psh = false; ack = false; syn = true; mss = some 1460 })
      []
    ≡ some (
        156 ∷ 65 ∷ 0 ∷ 80 ∷ 0 ∷ 0 ∷ 0 ∷ 100 ∷ 0 ∷ 0 ∷ 1 ∷ 244 ∷ 96 ∷ 2 ∷ 173 ∷ 189 ∷ 53 ∷ 119 ∷ 0
        ∷ 0 ∷ 2 ∷ 4 ∷ 5 ∷ 180 ∷ [])
unfolding tcp_segment_bytes tcp_checksum tcp_udp_checksum checksum sum_every_16bits fold complement
    tcp_before_csum tcp_behind_csum flag_bits tcp_write_options
syn_bytes = refl
