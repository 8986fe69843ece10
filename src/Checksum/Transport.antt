-- ===== src/Checksum/Transport.antt =====
-- The checksum of TCP and UDP, tcp_udp_checksum of toy_src/utils.c, in a segment or a datagram.
use toy_ip.Base.{
  ℕ, ◌+◌, ◌^◌, ◌%◌, ◌<◌, ◌≡◌, ◌∙◌, ap, List, ◌++◌, some, arith, length, length-append, All,
}
use toy_ip.Checksum.{sum_every_16bits, checksum, bytes16, pseudo_head, tcp_udp_checksum}
use toy_ip.Checksum.Words.{IsByte}
use toy_ip.Checksum.Verify.{checksum_total, checksum-stored}

module _ (saddr daddr proto : ℕ) (pre post : List ℕ) where
  -- The bytes with a checksum in its place.
  abbrev pub filled_with : ℕ → List ℕ
  filled_with csum = pre ++ (bytes16 csum ++ post)

  start : ℕ → ℕ
  start len = sum_every_16bits (pseudo_head saddr daddr proto len)

  start-lt : (len : ℕ) → proto < 256 → start len < 2 ^ 24
  unfolding start sum_every_16bits
  start-lt len small = omega arith

  same_length : (csum : ℕ) → length (filled_with csum) ≡ length (filled_with 0)
  same_length csum = omega (
    arith,
    length-append {0} pre (bytes16 csum ++ post),
    length-append {0} pre (bytes16 0 ++ post),
  )

  checksum_ends : (first : ℕ) → (csum : ℕ) × (checksum (filled_with 0) first ≡ some csum)
  checksum_ends first = (_, checksum_total (filled_with 0) first)

  -- The sender's loop ends, and the checksum that it stores verifies for the same length, protocol
  -- and addresses.
  pub transport_stored :
      length pre % 2 ≡ 0
      → All IsByte pre
      → All IsByte post
      → length pre + length post < 65000
      → proto < 256
      → (csum : ℕ) × (tcp_udp_checksum saddr daddr proto (filled_with 0) (length (filled_with 0))
          ≡ some csum)
        × (tcp_udp_checksum saddr daddr proto (filled_with csum) (length (filled_with csum))
            ≡ some 0)
  unfolding tcp_udp_checksum start
  transport_stored even bpre bpost short small =
      let len = length (filled_with 0) in
      let (csum, sum) = checksum_ends (start len) in
      (
        csum,
        sum,
        ap (λ n. checksum (filled_with csum) (start n)) (same_length csum)
            ∙ checksum-stored pre post (start len) csum even bpre bpost short (start-lt len small)
                sum,
      )
