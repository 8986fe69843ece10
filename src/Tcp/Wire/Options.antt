-- ===== src/Tcp/Wire/Options.antt =====
-- What `tcp_init_segment` (toy_src/tcp.c) makes of a segment with options.
use toy_ip.Base.{
  ℕ, ◌+◌, ◌*◌, ◌<◌, ◌≤◌, ◌≡◌, refl, some, List, ◌∷◌, ◌++◌, drop, drop_front, take, subst, length,
  arith,
}
use toy_ip.Checksum.{bytes16}
use toy_ip.Ip.{IpHdr}
use toy_ip.Tcp.Types.{TcpHdr, Skb}
use toy_ip.Tcp.Wire.{tcp_before_csum, read_segment, tcp_init_segment}

-- A segment whose header is followed by `options`.
abbrev pub with_options : ℕ → TcpHdr → List ℕ → List ℕ → List ℕ
with_options csum th options bytes =
    tcp_before_csum th ++ (bytes16 csum ++ (0 ∷ 0 ∷ options ++ bytes))

read_options :
    (address csum k : ℕ) (ih : IpHdr) (th : TcpHdr) (options bytes : List ℕ)
    → th.hl ≡ 5 + k
    → k ≤ 10
    → ih.ihl ≡ 5
    → ih.len ≡ 40 + 4 * k + length bytes
    → length bytes < 64000
    → (skb : Skb) × (read_segment address ih (with_options csum th options bytes) ≡ some skb)
      × (skb.dlen ≡ length bytes)
      × (skb.payload ≡ options ++ bytes)
unfolding read_segment tcp_before_csum
read_options address csum k ih th options bytes hl small ihl len short =
    (_, refl, omega arith, refl)

-- A segment with `k` words of options behind its header, in a datagram whose IP header has 20 bytes
-- and gives its length: `tcp_init_segment` finds the right length of the data, but takes the
-- options for the data. The bytes that are delivered from the payload are the first ones of the
-- options followed by the data.
pub options_are_data :
    (address csum k : ℕ) (ih : IpHdr) (ip_header : List ℕ) (th : TcpHdr) (options bytes : List ℕ)
    → length ip_header ≡ 20
    → th.hl ≡ 5 + k
    → k ≤ 10
    → ih.ihl ≡ 5
    → ih.len ≡ 40 + 4 * k + length bytes
    → length bytes < 64000
    → (skb : Skb) × (tcp_init_segment address ih (ip_header ++ with_options csum th options bytes)
        ≡ some skb)
      × (skb.dlen ≡ length bytes)
      × (take skb.dlen skb.payload ≡ take (length bytes) (options ++ bytes))
unfolding tcp_init_segment
options_are_data address csum k ih ip_header th options bytes twenty hl small ihl len short =
    let wire = with_options csum th options bytes in
    let at = subst (λ n. drop n (ip_header ++ wire) ≡ wire) twenty (drop_front ip_header wire) in
    let (skb, reads, dlen, payload) =
      read_options address csum k ih th options bytes hl small ihl len short in
    (skb, rw at reads, dlen, rw (dlen, payload) refl)
