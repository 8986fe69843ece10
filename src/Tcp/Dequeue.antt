-- ===== src/Tcp/Dequeue.antt =====
-- `tcp_data_dequeue` reads a stream: it ends, and takes the bytes off the front in order.
use toy_ip.Base.{
  ℕ, zero, suc, ◌+◌, ◌-◌, ◌≤◌, ◌<◌, ◌^◌, ◌≡◌, refl, ◌∙◌, sym, ap, List, [], ◌∷◌, ◌++◌, append_assoc,
  some, arith, length, take, min, All, length-append, length-take,
}
use native.Mathlib.Decide.{dec_lt}
use toy_ip.Tcp.Types.{Skb, TcpSock}
use toy_ip.Tcp.Stream.{
  content, stream, IsFull, take-append, length-content, rest_of, rest_of-IsFull,
}
use toy_ip.Tcp.Data.{Reading, chunk, read_round, read_loop, tcp_data_dequeue}

-- A round that takes a whole buffer off the queue.
record Whole (skb : Skb) (queue : List Skb) (r r' : Reading) : Type 0 where
  left : r'.queue ≡ queue
  buf : r'.buf ≡ r.buf ++ content skb
  rlen : r'.rlen ≡ r.rlen + skb.dlen

-- A round that fills the rest of the user's buffer.
record Part (userlen : ℕ) (skb : Skb) (queue : List Skb) (r r' : Reading) : Type 0 where
  left : r'.queue ≡ rest_of (userlen - r.rlen) skb ∷ queue
  buf : r'.buf ≡ r.buf ++ take (userlen - r.rlen) skb.payload
  rlen : r'.rlen ≡ userlen

module _ (userlen : ℕ) (small : userlen < 2 ^ 31) where
  read_round-Whole :
      (skb : Skb) (queue : List Skb) (r : Reading)
      → IsFull skb
      → r.rlen + skb.dlen ≤ userlen
      → Whole skb queue r (read_round userlen skb queue r)
  unfolding read_round chunk
  read_round-Whole skb queue r f h = ground arith

  read_round-Part :
      (skb : Skb) (queue : List Skb) (r : Reading)
      → IsFull skb
      → r.rlen < userlen
      → userlen < r.rlen + skb.dlen
      → Part userlen skb queue r (read_round userlen skb queue r)
  unfolding read_round chunk
  read_round-Part skb queue r f lt h = ground arith

  -- What a run of the loop from `r` to `r'` does.
  pub record Read (r r' : Reading) : Type 0 where
    pub bytes : r'.buf ++ stream r'.queue ≡ r.buf ++ stream r.queue
    pub count : r'.rlen ≡ min userlen (r.rlen + length (stream r.queue))
    pub written : length r'.buf + r.rlen ≡ length r.buf + r'.rlen

  Read-refl : (r : Reading) → r.rlen ≡ userlen → Read r r
  Read-refl r e = record { bytes = refl; count = omega arith; written = omega arith }

  Read-Whole :
      (skb : Skb) (queue : List Skb) (r r' r'' : Reading)
      → r.queue ≡ skb ∷ queue
      → IsFull skb
      → Whole skb queue r r'
      → Read r' r''
      → Read r r''
  Read-Whole skb queue r r' r'' q f w d = record {
    bytes = d.bytes ∙ rw (w.buf, w.left, q) (append_assoc r.buf (content skb) (stream queue));
    count =
        ground (arith, d.count, ap (λ x. length (stream x)) w.left, whole, length-content skb f);
    written = ground (
      arith,
      d.written,
      ap length w.buf,
      length-append r.buf (content skb),
      length-content skb f,
    );
  }
    where
      whole : length (stream r.queue) ≡ length (content skb) + length (stream queue)
      whole = ap (λ x. length (stream x)) q ∙ length-append (content skb) (stream queue)

  Read-Part :
      (skb : Skb) (queue : List Skb) (r r' r'' : Reading)
      → r.queue ≡ skb ∷ queue
      → IsFull skb
      → r.rlen < userlen
      → userlen < r.rlen + skb.dlen
      → Part userlen skb queue r r'
      → Read r' r''
      → Read r r''
  Read-Part skb queue r r' r'' q f lt over w d = record {
    bytes = d.bytes ∙ rw (w.buf, w.left, q) joined;
    count = ground (arith, d.count, whole, length-content skb f);
    written = ground (
      arith,
      d.written,
      ap length w.buf,
      length-append r.buf (take (userlen - r.rlen) skb.payload),
      length-take (userlen - r.rlen) skb.payload,
    );
  }
    where
      n : ℕ
      n = userlen - r.rlen

      whole : length (stream r.queue) ≡ length (content skb) + length (stream queue)
      whole = ap (λ x. length (stream x)) q ∙ length-append (content skb) (stream queue)

      joined :
          (r.buf ++ take n skb.payload) ++ (content (rest_of n skb) ++ stream queue)
          ≡ r.buf ++ (content skb ++ stream queue)
      joined =
          append_assoc r.buf (take n skb.payload) (content (rest_of n skb) ++ stream queue)
          ∙ ap (λ l. r.buf ++ l)
              (sym (append_assoc (take n skb.payload) (content (rest_of n skb)) (stream queue))
                ∙ ap (λ l. l ++ stream queue) (take-append n skb.dlen skb.payload (omega arith)))

  -- With fuel for as many rounds as there are buffers and one more, the loop ends.
  abbrev Total : ℕ → Type 0
  Total fuel =
      (r : Reading)
      → All IsFull r.queue
      → r.rlen ≤ userlen
      → 0 < fuel
      → (r.rlen < userlen → length r.queue < fuel)
      → (r' : Reading) × (read_loop fuel userlen r ≡ some r') × Read r r'

  run_whole :
      (fuel : ℕ) (skb : Skb) (queue : List Skb) (r : Reading)
      → Total fuel
      → r.queue ≡ skb ∷ queue
      → IsFull skb
      → All IsFull queue
      → length queue < fuel
      → r.rlen + skb.dlen ≤ userlen
      → let r₁ = read_round userlen skb queue r in
        (r' : Reading) × (read_loop fuel userlen r₁ ≡ some r') × Read r r'
  run_whole fuel skb queue r ih e f full enough fits =
      let r₁ = read_round userlen skb queue r in
      let w = read_round-Whole skb queue r f fits in
      let (r', ran, d) =
        ih r₁ (rw w.left full) (omega (arith, w.rlen)) (omega arith)
          (λ _. omega (arith, ap (λ q. length q) w.left)) in
      (r', ran, Read-Whole skb queue r r₁ r' e f w d)

  run_part :
      (fuel : ℕ) (skb : Skb) (queue : List Skb) (r : Reading)
      → Total fuel
      → r.queue ≡ skb ∷ queue
      → IsFull skb
      → All IsFull queue
      → 0 < fuel
      → r.rlen < userlen
      → userlen < r.rlen + skb.dlen
      → let r₁ = read_round userlen skb queue r in
        (r' : Reading) × (read_loop fuel userlen r₁ ≡ some r') × Read r r'
  run_part fuel skb queue r ih e f full pos lt over =
      let r₁ = read_round userlen skb queue r in
      let w = read_round-Part skb queue r f lt over in
      let (r', ran, d) =
        ih r₁ (rw w.left (rest_of-IsFull (userlen - r.rlen) skb f, full)) (omega (arith, w.rlen))
          pos (λ h. absurd (omega (arith, w.rlen))) in
      (r', ran, Read-Part skb queue r r₁ r' e f lt over w d)

  read_loop-stop :
      (fuel : ℕ) (r : Reading) → userlen ≤ r.rlen → read_loop (suc fuel) userlen r ≡ some r
  unfolding read_loop
  read_loop-stop fuel r h = ground arith

  read_loop-step :
      (fuel : ℕ) (skb : Skb) (queue : List Skb) (r : Reading)
      → r.queue ≡ skb ∷ queue
      → r.rlen < userlen
      → read_loop (suc fuel) userlen r ≡ read_loop fuel userlen (read_round userlen skb queue r)
  unfolding read_loop
  read_loop-step fuel skb queue r e h = ground arith

  read_loop-empty :
      (fuel : ℕ) (r : Reading) → r.queue ≡ [] → read_loop (suc fuel) userlen r ≡ some r
  unfolding read_loop
  read_loop-empty fuel r e = ground arith

  Total-suc :
      (fuel : ℕ)
      → Total fuel
      → (q : List Skb) (r : Reading) → r.queue ≡ q
      → All IsFull q
      → r.rlen ≤ userlen
      → (r.rlen < userlen → length q < suc fuel)
      → (r' : Reading) × (read_loop (suc fuel) userlen r ≡ some r') × Read r r'
  Total-suc fuel ih [] r e full le enough = (
    r,
    read_loop-empty fuel r e,
    record {
      bytes = refl;
      count = omega (arith, ap (λ q. length (stream q)) e);
      written = omega arith;
    },
  )
  Total-suc fuel ih (skb ∷ queue) r e full le enough = elim (dec_lt r.rlen userlen) [
    | no stop ↦ (r, read_loop-stop fuel r (omega arith), Read-refl r (omega arith))
    | yes lt ↦
        let run = read_loop-step fuel skb queue r e lt in
        let more : suc (length queue) < suc fuel = enough lt in
        elim (dec_lt userlen (r.rlen + skb.dlen)) [
          | yes over ↦ rw run (run_part fuel skb queue r ih e full.0 full.1 (omega arith) lt over)
          | no fits ↦
              rw run (run_whole fuel skb queue r ih e full.0 full.1 (omega arith) (omega arith))
        ]
  ]

  read_loop-Read : (fuel : ℕ) → Total fuel
  read_loop-Read zero r full le pos enough = absurd (omega arith)
  read_loop-Read (suc fuel) r full le pos enough =
      Total-suc fuel (read_loop-Read fuel) r.queue r refl full le enough

-- On a queue of well-formed buffers, and for a user buffer below 2 ^ 31 bytes, `tcp_data_dequeue`
-- ends. It copies the first `rlen` bytes of the stream, where `rlen` is the smaller of `userlen`
-- and the length of the stream, and leaves the rest of the stream in the queue.
pub tcp_data_dequeue_total :
    (userlen : ℕ) (sk : TcpSock)
    → userlen < 2 ^ 31
    → All IsFull sk.receive_queue
    → (r : Reading) × (tcp_data_dequeue userlen sk ≡ some r)
      × (r.rlen ≡ min userlen (length (stream sk.receive_queue)))
      × (length r.buf ≡ r.rlen)
      × (r.buf ++ stream r.queue ≡ stream sk.receive_queue)
unfolding tcp_data_dequeue
tcp_data_dequeue_total userlen sk small full =
    let (r, ran, d) =
      read_loop-Read userlen small (length sk.receive_queue + 2)
        (record { queue = sk.receive_queue; psh = sk.psh; freed = []; buf = []; rlen = 0 }) full
        (omega arith) (omega arith) (λ _. omega arith) in
    (r, ran, omega (arith, d.count), omega (arith, d.written), d.bytes)
