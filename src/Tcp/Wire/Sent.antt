-- ===== src/Tcp/Wire/Sent.antt =====
-- A segment that `tcp_transmit_skb` writes is the one that `tcp_init_segment` reads.
use toy_ip.Base.{
  ℕ, ◌+◌, ◌-◌, ◌*◌, ◌/◌, ◌%◌, ◌^◌, ◌<◌, ◌≡◌, refl, Bool, none, some, List, ◌++◌, u32, pos, drop,
  drop_front, subst, length, All, arith,
}
use toy_ip.Checksum.{swap32}
use toy_ip.Checksum.Words.{IsByte}
use toy_ip.Checksum.Transport.{transport_stored}
use toy_ip.Ip.{IpHdr}
use toy_ip.Ip.Output.{be16-net16, be32-net32}
use toy_ip.Tcp.Types.{TcpHdr, Skb}
use toy_ip.Tcp.Wire.{
  flag_bits, tcp_write_options, tcp_before_csum, tcp_behind_csum, tcp_with_csum, tcp_checksum,
  tcp_segment_bytes, read_segment, tcp_init_segment, bit, is_set,
}

-- The fields fit in their bits.
pub record IsHdr (th : TcpHdr) : Type 0 where
  pub sport : th.sport < 2 ^ 16
  pub dport : th.dport < 2 ^ 16
  pub seq : th.seq < 2 ^ 32
  pub ack_seq : th.ack_seq < 2 ^ 32
  pub win : th.win < 2 ^ 16

-- Bit by bit, the flags are read back.
module _ (f s r p a : Bool) where
  all_flags : ℕ
  all_flags = bit f + 2 * bit s + 4 * bit r + 8 * bit p + 16 * bit a

  read_fin : is_set all_flags 1 ≡ f
  unfolding all_flags
  read_fin = ground arith

  read_syn : is_set all_flags 2 ≡ s
  unfolding all_flags
  read_syn = ground arith

  read_rst : is_set all_flags 4 ≡ r
  unfolding all_flags
  read_rst = ground arith

  read_psh : is_set all_flags 8 ≡ p
  unfolding all_flags
  read_psh = ground arith

  read_ack : is_set all_flags 16 ≡ a
  unfolding all_flags
  read_ack = ground arith

  all_flags-lt : all_flags < 256
  unfolding all_flags
  all_flags-lt = ground arith

module _ (th : TcpHdr) (fields : IsHdr th) (short : th.hl ≡ 5) (plain : th.mss ≡ none)
    (bytes : List ℕ) where
  tcp_before_csum-IsByte : All IsByte (tcp_before_csum th)
  unfolding tcp_before_csum flag_bits all_flags
  tcp_before_csum-IsByte = omega (arith, all_flags-lt th.fin th.syn th.rst th.psh th.ack)

  tcp_behind_csum-IsByte : All IsByte bytes → All IsByte (tcp_behind_csum th bytes)
  unfolding tcp_behind_csum tcp_write_options
  tcp_behind_csum-IsByte h = rw plain (omega arith, (omega arith, h))

  even : length (tcp_before_csum th) % 2 ≡ 0
  unfolding tcp_before_csum
  even = refl

  size : length (tcp_before_csum th) + length (tcp_behind_csum th bytes) ≡ 18 + length bytes
  unfolding tcp_before_csum tcp_behind_csum tcp_write_options
  size = rw plain (omega arith)

  -- What is read from the bytes.
  abbrev pub received : ℕ → IpHdr → List ℕ → Skb
  received address ih rest = record {
    address = address;
    refcnt = pos 0;
    seq = th.seq;
    end_seq = u32 (th.seq + length bytes);
    dlen = length bytes;
    payload = bytes ++ rest;
    th = th;
    saddr = ih.saddr;
    daddr = ih.daddr;
  }

  read_back :
      (address csum : ℕ) (ih : IpHdr) (rest : List ℕ)
      → ih.ihl ≡ 5
      → ih.len ≡ 40 + length bytes
      → length bytes < 64000
      → read_segment address ih (tcp_with_csum csum th bytes ++ rest)
        ≡ some (received address ih rest)
  unfolding read_segment tcp_before_csum tcp_behind_csum tcp_write_options flag_bits all_flags
  read_back address csum ih rest ihl len small =
      let fin = read_fin th.fin th.syn th.rst th.psh th.ack in
      let syn = read_syn th.fin th.syn th.rst th.psh th.ack in
      let rst = read_rst th.fin th.syn th.rst th.psh th.ack in
      let psh = read_psh th.fin th.syn th.rst th.psh th.ack in
      let ack = read_ack th.fin th.syn th.rst th.psh th.ack in
      let no_options : tcp_write_options th.mss ++ bytes ≡ bytes = rw plain refl in
      let hl : th.hl % 16 * 16 / 16 ≡ th.hl = omega arith in
      let dlen : u32 (ih.len + 2 ^ 32 - ih.ihl * 4 - th.hl * 4) ≡ length bytes = omega arith in
      rw
        (
          be16-net16 th.sport fields.sport,
          be16-net16 th.dport fields.dport,
          be32-net32 th.seq fields.seq,
          be32-net32 th.ack_seq fields.ack_seq,
          be16-net16 th.win fields.win,
          hl,
          dlen,
          fin,
          syn,
          rst,
          psh,
          ack,
          no_options,
          ← plain,
        )
        refl

  -- What `tcp_transmit_skb` hands to `ip_output`, and its checksum as the receiver computes it.
  pub sent_bytes :
      (saddr daddr : ℕ)
      → All IsByte bytes
      → length bytes < 64000
      → (csum : ℕ) × (tcp_segment_bytes saddr daddr th bytes ≡ some (tcp_with_csum csum th bytes))
        × (tcp_checksum saddr daddr (tcp_with_csum csum th bytes) ≡ some 0)
  unfolding tcp_segment_bytes tcp_checksum
  sent_bytes saddr daddr all small =
      let (csum, sum, stored) =
        transport_stored (swap32 saddr) (swap32 daddr) 6 (tcp_before_csum th)
          (tcp_behind_csum th bytes) even tcp_before_csum-IsByte (tcp_behind_csum-IsByte all)
          (omega (arith, size)) (omega arith) in
      (csum, rw (tcp_segment_bytes, sum) refl, stored)

  -- Behind an IP header of 20 bytes.
  pub read_behind :
      (address csum : ℕ) (ih : IpHdr) (header rest : List ℕ)
      → length header ≡ 20
      → ih.ihl ≡ 5
      → ih.len ≡ 40 + length bytes
      → length bytes < 64000
      → tcp_init_segment address ih (header ++ (tcp_with_csum csum th bytes ++ rest))
        ≡ some (received address ih rest)
  unfolding tcp_init_segment
  read_behind address csum ih header rest twenty ihl len small =
      let wire = tcp_with_csum csum th bytes ++ rest in
      rw (subst (λ n. drop n (header ++ wire) ≡ wire) twenty (drop_front header wire))
        (read_back address csum ih rest ihl len small)
