-- ===== src/Tcp/Wire/Delivered.antt =====
-- A segment from `tcp_transmit_skb` of one machine to `tcp_in` of another: toy_src/tcp_output.c,
-- toy_src/ip_output.c, toy_src/ip_input.c and toy_src/tcp.c together.
use toy_ip.Base.{ℕ, ◌+◌, ◌^◌, ◌<◌, ◌≡◌, refl, none, some, List, ◌++◌, u32, pos, length, All, arith}
use toy_ip.Checksum.Words.{IsByte}
use toy_ip.Ip.{IpHdr, to_tcp, demux, ip_rcv, ip_header}
use toy_ip.Ip.Output.{header_of, ip_rcv-ip_header}
use toy_ip.Tcp.Types.{TcpHdr}
use toy_ip.Tcp.Wire.{tcp_with_csum, tcp_checksum, tcp_segment_bytes, tcp_init_segment}
use toy_ip.Tcp.Wire.Sent.{IsHdr, sent_bytes, read_behind}

-- For a header without options, with fields that fit in their bits, and at most 63999 bytes of data,
-- `tcp_transmit_skb` and `ip_output`, over a device with the address `saddr` of the socket, write a
-- datagram whose TCP checksum verifies. `ip_rcv` of the
-- machine with the address `daddr` gives it to TCP, and `tcp_init_segment` reads from it the same
-- header, the data with its length, its range of sequence numbers, and the two addresses, whatever
-- `rest` follows it in the buffer.
pub segment_arrives :
    (address id saddr daddr : ℕ) (th : TcpHdr) (bytes rest : List ℕ)
    → IsHdr th
    → th.hl ≡ 5
    → th.mss ≡ none
    → id < 2 ^ 16
    → saddr < 2 ^ 32
    → daddr < 2 ^ 32
    → All IsByte bytes
    → length bytes < 64000
    → (header : List ℕ) × (ip_header (40 + length bytes) id 6 saddr daddr ≡ some header)
      × (wire : List ℕ) × (tcp_segment_bytes saddr daddr th bytes ≡ some wire)
      × (tcp_checksum saddr daddr wire ≡ some 0)
      × (ih : IpHdr) × (ip_rcv daddr (header ++ (wire ++ rest)) ≡ to_tcp ih)
      × (tcp_init_segment address ih (header ++ (wire ++ rest))
          ≡ some (record {
            address = address;
            refcnt = pos 0;
            seq = th.seq;
            end_seq = u32 (th.seq + length bytes);
            dlen = length bytes;
            payload = bytes ++ rest;
            th = th;
            saddr = saddr;
            daddr = daddr;
          }))
unfolding demux
segment_arrives address id saddr daddr th bytes rest fields hl plain hi hs hd all small =
    let (csum, sends, sum) = sent_bytes th fields hl plain bytes saddr daddr all small in
    let wire = tcp_with_csum csum th bytes in
    let (header, writes, twenty, arrives) =
      ip_rcv-ip_header (40 + length bytes) id 6 saddr daddr (omega arith) hi hs hd (wire ++ rest) in
    let ih = header_of (40 + length bytes) id 6 saddr daddr in
    (
      header,
      writes,
      wire,
      sends,
      sum,
      ih,
      arrives,
      read_behind th fields hl plain bytes address csum ih header rest twenty refl refl small,
    )
