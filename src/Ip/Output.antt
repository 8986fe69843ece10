-- ===== src/Ip/Output.antt =====
-- The header that `ip_output` writes is one that `ip_rcv` takes.
use toy_ip.Base.{
  ℕ, ◌/◌, ◌%◌, ◌^◌, ◌<◌, ◌≡◌, refl, List, ◌++◌, some, arith, u8, length, take, ==_iff,
}
use toy_ip.Checksum.{checksum, bytes16}
use toy_ip.Checksum.Verify.{checksum_total, checksum-stored}
use toy_ip.Ip.{
  IpHdr, be16, be32, ip_init_pkt, ip_pkt_for_us, demux, ip_rcv, before_csum, behind_csum, ip_header,
}

pub be16-net16 : (n : ℕ) → n < 2 ^ 16 → be16 (n / 256 % 256) (n % 256) ≡ n
be16-net16 n h = omega arith

pub be32-net32 :
    (n : ℕ) → n < 2 ^ 32 → be32 (n / 16777216 % 256) (n / 65536 % 256) (n / 256 % 256) (n % 256) ≡ n
be32-net32 n h = omega arith

-- What the receiver reads from the header.
abbrev pub header_of : (len id proto saddr daddr : ℕ) → IpHdr
header_of len id proto saddr daddr = record {
  ihl = 5;
  version = 4;
  len = len;
  id = id;
  ttl = 64;
  proto = u8 proto;
  saddr = saddr;
  daddr = daddr;
}

module _ (len id proto saddr daddr : ℕ) where
  header_with : ℕ → List ℕ
  header_with csum = before_csum len id proto ++ (bytes16 csum ++ behind_csum saddr daddr)

  ip_header_total :
      (csum : ℕ) × (checksum (header_with 0) 0 ≡ some csum)
      × (ip_header len id proto saddr daddr ≡ some (header_with csum))
  unfolding ip_header header_with
  ip_header_total = let e = checksum_total (header_with 0) 0 in (_, e, rw e refl)

  valid :
      (csum : ℕ) → checksum (header_with 0) 0 ≡ some csum → checksum (header_with csum) 0 ≡ some 0
  unfolding header_with before_csum behind_csum
  valid csum e =
      checksum-stored (before_csum len id proto) (behind_csum saddr daddr) 0 csum refl (omega arith)
        (omega arith) (omega arith) (omega arith) e

  length-header : (csum : ℕ) → length (header_with csum) ≡ 20
  unfolding header_with before_csum behind_csum
  length-header csum = refl

  first_20 :
      (csum : ℕ) (payload : List ℕ) → take 20 (header_with csum ++ payload) ≡ header_with csum
  unfolding header_with before_csum behind_csum
  first_20 csum payload = refl

  module _ (hl : len < 2 ^ 16) (hi : id < 2 ^ 16) (hs : saddr < 2 ^ 32) (hd : daddr < 2 ^ 32)
      (payload : List ℕ) where
    reads_back :
        (csum : ℕ)
        → ip_init_pkt (header_with csum ++ payload) ≡ some (header_of len id proto saddr daddr)
    unfolding header_with before_csum behind_csum ip_init_pkt
    reads_back csum =
        rw (be16-net16 len hl, be16-net16 id hi, be32-net32 saddr hs, be32-net32 daddr hd) refl

    accepts :
        (csum : ℕ)
        → checksum (header_with 0) 0 ≡ some csum
        → ip_rcv daddr (header_with csum ++ payload) ≡ demux (header_of len id proto saddr daddr)
    unfolding ip_rcv ip_pkt_for_us
    accepts csum e =
        let whole : take 20 (header_with csum ++ payload) ≡ header_with csum =
          first_20 csum payload in
        rw
          (ip_rcv, reads_back csum, whole, valid csum e, ip_pkt_for_us, (==_iff daddr daddr).1 refl)
          refl

    -- If the length and the identification fit in 16 bits and the addresses in 32, `ip_output`
    -- writes a header of 20 bytes, and the machine with the address `daddr` takes the datagram: its
    -- `ip_rcv` hands it, with the same fields and the time to live 64, to the protocol of the
    -- sender.
    pub ip_rcv-ip_header :
        (header : List ℕ) × (ip_header len id proto saddr daddr ≡ some header)
        × (length header ≡ 20)
        × (ip_rcv daddr (header ++ payload) ≡ demux (header_of len id proto saddr daddr))
    ip_rcv-ip_header =
        let (csum, e, h) = ip_header_total in
        (header_with csum, h, length-header csum, accepts csum e)
