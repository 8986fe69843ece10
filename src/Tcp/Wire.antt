-- ===== src/Tcp/Wire.antt =====
-- The bytes of a segment: `struct tcphdr` of toy_src/tcp.h, what `tcp_transmit_skb` and
-- `tcp_write_options` of toy_src/tcp_output.c write, and what `tcp_init_segment` of toy_src/tcp.c
-- reads, in memory on a little-endian machine.
use toy_ip.Base.{
  ℕ, ◌+◌, ◌-◌, ◌*◌, ◌/◌, ◌%◌, ◌^◌, Bool, true, false, Option, none, some, List, [], ◌∷◌, ◌++◌, u32,
  pos, ◌==◌, if◌then◌else◌, drop, length,
}
use toy_ip.Checksum.{bytes16, swap32, tcp_udp_checksum}
use toy_ip.Ip.{IpHdr, be16, be32, net16, net32}
use toy_ip.Tcp.Types.{TcpHdr, Skb}
pub mod Sent
pub mod Options
pub mod Delivered

abbrev pub bit : Bool → ℕ
bit b = if b then 1 else 0

-- The byte of the flags; URG, ECE and CWR are never set.
unfoldable pub flag_bits : TcpHdr → ℕ
flag_bits th = bit th.fin + 2 * bit th.syn + 4 * bit th.rst + 8 * bit th.psh + 16 * bit th.ack

-- `tcp_write_options`
unfoldable pub tcp_write_options : Option ℕ → List ℕ
tcp_write_options none = []
tcp_write_options (some mss) = 2 ∷ 4 ∷ net16 mss

-- The header before and behind its checksum, which is followed by the data.
unfoldable pub tcp_before_csum : TcpHdr → List ℕ
tcp_before_csum th =
    net16 th.sport
    ++ (net16 th.dport
        ++ (net32 th.seq ++ (net32 th.ack_seq ++ (th.hl % 16 * 16 ∷ flag_bits th ∷ net16 th.win))))

unfoldable pub tcp_behind_csum : TcpHdr → List ℕ → List ℕ
tcp_behind_csum th bytes = 0 ∷ 0 ∷ tcp_write_options th.mss ++ bytes

abbrev pub tcp_with_csum : ℕ → TcpHdr → List ℕ → List ℕ
tcp_with_csum csum th bytes = tcp_before_csum th ++ (bytes16 csum ++ tcp_behind_csum th bytes)

-- `tcp_checksum`, for addresses in host byte order
unfoldable pub tcp_checksum : ℕ → ℕ → List ℕ → Option ℕ
tcp_checksum saddr daddr bytes =
    tcp_udp_checksum (swap32 saddr) (swap32 daddr) 6 bytes (length bytes)

-- What `tcp_transmit_skb` hands to `ip_output` for a header that is filled in. `none` would be a
-- loop of the checksum that does not end.
unfoldable pub tcp_segment_bytes : ℕ → ℕ → TcpHdr → List ℕ → Option (List ℕ)
tcp_segment_bytes saddr daddr th bytes =
    elim (tcp_checksum saddr daddr (tcp_with_csum 0 th bytes)) [
      | none ↦ none
      | some csum ↦ some (tcp_with_csum csum th bytes)
    ]

abbrev pub is_set : ℕ → ℕ → Bool
is_set flags k = (flags / k) % 2 == 1

-- `tcp_hdr` of a received datagram and `tcp_init_segment`: the TCP header lies 20 bytes behind that
-- of IP, and `payload` points behind its first 20 bytes. `none` is a read behind the end of the
-- buffer; options are not read.
unfoldable pub read_segment : ℕ → IpHdr → List ℕ → Option Skb
read_segment address ih
      (b0 ∷ b1 ∷ b2 ∷ b3 ∷ b4 ∷ b5 ∷ b6 ∷ b7 ∷ b8 ∷ b9 ∷ b10 ∷ b11 ∷ b12 ∷ b13 ∷ b14 ∷ b15 ∷ _ ∷ _
        ∷ _ ∷ _ ∷ payload) =
    let th : TcpHdr = record {
      sport = be16 b0 b1;
      dport = be16 b2 b3;
      seq = be32 b4 b5 b6 b7;
      ack_seq = be32 b8 b9 b10 b11;
      hl = b12 / 16;
      fin = is_set b13 1;
      syn = is_set b13 2;
      rst = is_set b13 4;
      psh = is_set b13 8;
      ack = is_set b13 16;
      win = be16 b14 b15;
      mss = none;
    } in
    let dlen = u32 (ih.len + 2 ^ 32 - ih.ihl * 4 - th.hl * 4) in
    some (record {
      address = address;
      refcnt = pos 0;
      seq = th.seq;
      end_seq = u32 (th.seq + dlen);
      dlen = dlen;
      payload = payload;
      th = th;
      saddr = ih.saddr;
      daddr = ih.daddr;
    })
read_segment _ _ _ = none

unfoldable pub tcp_init_segment : ℕ → IpHdr → List ℕ → Option Skb
tcp_init_segment address ih datagram = read_segment address ih (drop 20 datagram)
