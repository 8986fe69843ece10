-- ===== src/Ip/Echo.antt =====
-- Replies to echo requests, and messages whose length is too small for their IP header.
use toy_ip.Base.{
  ltb-ge, ltb-lt, ℕ, zero, suc, ◌+◌, ◌*◌, ◌-◌, ◌/◌, ◌%◌, ◌^◌, ◌<◌, ◌≤◌, ◌≡◌, refl, ap, List, [],
  ◌∷◌, ◌++◌, some, arith, length, All, take, drop, length-take, length-drop,
}
use toy_ip.Checksum.{checksum, bytes16}
use toy_ip.Checksum.Words.{IsByte}
use toy_ip.Checksum.Verify.{checksum_total, checksum-stored}
use toy_ip.Ip.{IpHdr}
use toy_ip.Ip.Icmp.{icmp_len, fault, answered, send_icmp, icmpv4_reply, icmpv4_incoming}

-- An echo request in a buffer of `netdev_rx_loop`, behind an IP header without options: `rest` is
-- what follows its type, code and checksum up to the end of the buffer.
pub record IsEcho (ih : IpHdr) (bytes : List ℕ) (code c0 c1 : ℕ) (rest : List ℕ) : Type 0 where
  pub message : drop 20 bytes ≡ 8 ∷ code ∷ c0 ∷ c1 ∷ rest
  pub are_bytes : All IsByte (code ∷ rest)
  pub long : ih.ihl * 4 + 4 ≤ ih.len
  pub inside : ih.len ≤ ih.ihl * 4 + 4 + length rest
  pub buffer : length rest ≤ 1562
  pub field : ih.len < 2 ^ 16

All-take : (n : ℕ) (xs : List ℕ) → All IsByte xs → All IsByte (take n xs)
All-take zero xs h = tt
All-take (suc n) [] h = tt
All-take (suc n) (x ∷ xs) h = (h.0, All-take n xs h.1)

take_four :
    (n a b c d : ℕ) (rest : List ℕ)
    → 4 ≤ n
    → take n (a ∷ b ∷ c ∷ d ∷ rest) ≡ a ∷ b ∷ c ∷ d ∷ take (n - 4) rest
take_four n a b c d rest h =
    let e : n ≡ suc (suc (suc (suc (n - 4)))) = omega arith in
    ap (λ k. take k (a ∷ b ∷ c ∷ d ∷ rest)) e

-- A message whose length is that of its buffer at most, with the checksum that is computed for it.
send_icmp-inside :
    (daddr n type a code b c csum : ℕ) (rest : List ℕ)
    → 4 ≤ n
    → n ≤ 4 + length rest
    → checksum (type ∷ code ∷ 0 ∷ 0 ∷ take (n - 4) rest) 0 ≡ some csum
    → send_icmp daddr n type (a ∷ code ∷ b ∷ c ∷ rest)
      ≡ answered daddr (type ∷ code ∷ bytes16 csum ++ take (n - 4) rest)
unfolding send_icmp
send_icmp-inside daddr n type a code b c csum rest long inside h =
    rw
      (
        send_icmp,
        ltb-ge (length (type ∷ code ∷ 0 ∷ 0 ∷ rest)) n (omega arith),
        take_four n type code 0 0 rest long,
        h,
      )
      (ap (answered daddr) (take_four n type code (csum % 256) (csum / 256 % 256) rest long))

-- A message whose length is more than its buffer has.
send_icmp-outside :
    (daddr n type : ℕ) (message : List ℕ)
    → length message < n
    → send_icmp daddr n type message ≡ fault
unfolding send_icmp
send_icmp-outside daddr n type (a ∷ code ∷ b ∷ c ∷ rest) outside =
    rw (send_icmp, ltb-lt (length (type ∷ code ∷ 0 ∷ 0 ∷ rest)) n (omega arith)) refl
send_icmp-outside daddr n type [] outside = refl
send_icmp-outside daddr n type (a ∷ []) outside = refl
send_icmp-outside daddr n type (a ∷ b ∷ []) outside = refl
send_icmp-outside daddr n type (a ∷ b ∷ c ∷ []) outside = refl

module _ (ih : IpHdr) (bytes : List ℕ) (code c0 c1 : ℕ) (rest : List ℕ)
    (e : IsEcho ih bytes code c0 c1 rest) where
  abbrev size : ℕ
  size = ih.len - ih.ihl * 4

  icmp_len-size : icmp_len ih ≡ size
  icmp_len-size = omega (arith, e.long, e.field)

  abbrev body : List ℕ
  body = take (size - 4) rest

  zeroed_total : (csum : ℕ) × (checksum (0 ∷ code ∷ 0 ∷ 0 ∷ body) 0 ≡ some csum)
  zeroed_total = (_, checksum_total (0 ∷ code ∷ 0 ∷ 0 ∷ body) 0)

  verifies :
      (csum : ℕ)
      → checksum (0 ∷ code ∷ 0 ∷ 0 ∷ body) 0 ≡ some csum
      → checksum (0 ∷ code ∷ bytes16 csum ++ body) 0 ≡ some 0
  verifies csum =
      let (small, bytes_rest) = e.are_bytes in
      let zero_IsByte : IsByte 0 = omega arith in
      checksum-stored (0 ∷ code ∷ []) body 0 csum refl (zero_IsByte, (small, tt))
        (All-take (size - 4) rest bytes_rest) (omega (arith, length-take (size - 4) rest, e.buffer))
        (omega arith)

  sends :
      (ts csum : ℕ)
      → checksum (0 ∷ code ∷ 0 ∷ 0 ∷ body) 0 ≡ some csum
      → icmpv4_incoming ts ih bytes ≡ answered ih.saddr (0 ∷ code ∷ bytes16 csum ++ body)
  unfolding icmpv4_incoming icmpv4_reply
  sends ts csum h =
      let n : icmp_len ih ≡ size = icmp_len-size in
      rw (icmpv4_incoming, e.message, icmpv4_reply, e.message, n)
        (send_icmp-inside ih.saddr size 0 8 code c0 c1 csum rest (omega (arith, e.long))
          (omega (arith, e.inside)) h)

  -- An echo request in a receive buffer, whose length covers its header and the 4 bytes of type,
  -- code and checksum, and no more than the buffer holds, is answered with one message to the
  -- address it came from: type 0, the code of the request, and the request's bytes behind the
  -- checksum up to its length, not one more. The checksum of the message as its receiver computes
  -- it is 0.
  pub icmpv4_incoming-echo :
      (ts : ℕ)
      → (csum : ℕ) × (icmpv4_incoming ts ih bytes
          ≡ answered ih.saddr (0 ∷ code ∷ bytes16 csum ++ take (ih.len - ih.ihl * 4 - 4) rest))
        × (checksum (0 ∷ code ∷ bytes16 csum ++ take (ih.len - ih.ihl * 4 - 4) rest) 0 ≡ some 0)
  icmpv4_incoming-echo ts = let (csum, h) = zeroed_total in (csum, sends ts csum h, verifies csum h)

-- An echo request whose total length is less than its IP header, in a buffer of at most 1586
-- bytes, makes `icmpv4_incoming` read behind the end of the buffer: the length of its message, cut
-- to 16 bits, is at least 65476.
pub icmpv4_incoming-short :
    (ts : ℕ) (ih : IpHdr) (bytes : List ℕ) (rest : List ℕ)
    → drop 20 bytes ≡ 8 ∷ rest
    → length bytes ≤ 1586
    → ih.ihl < 16
    → ih.len < ih.ihl * 4
    → icmpv4_incoming ts ih bytes ≡ fault
unfolding icmpv4_incoming icmpv4_reply
icmpv4_incoming-short ts ih bytes rest message buffer ihl short =
    let outside : length (drop 20 bytes) < icmp_len ih = omega (arith, length-drop 20 bytes) in
    rw (icmpv4_incoming, message, icmpv4_reply)
      (send_icmp-outside ih.saddr (icmp_len ih) 0 (drop 20 bytes) outside)
