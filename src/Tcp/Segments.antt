-- ===== src/Tcp/Segments.antt =====
-- What `tcp_send` makes of a stream of bytes.
use toy_ip.Base.{
  ℕ, zero, suc, ◌+◌, ◌≤◌, ◌<◌, ◌≡◌, refl, ◌∙◌, sym, ap, List, [], ◌∷◌, ◌++◌, append_assoc,
  append-nil, some, arith, u32, length, take, drop, min, All, length-take, length-drop,
  take-append-drop, true, false, Bool-cases, inl, inr,
}
use toy_ip.Tcp.Types.{Skb, Segment, TcpSock, Conn}
use toy_ip.Tcp.Core.{tcp_release_retransmission_timer}
use toy_ip.Tcp.Output.{
  tcp_alloc_skb, filled, stamped, tcp_transmit_skb, tcp_reset_retransmission_timer,
  tcp_queue_transmit_skb, is_empty, blank, alloc,
}
use toy_ip.Tcp.Send.{send_size, send_round, tcp_send_from, tcp_send}

-- The bytes of the segments, one after the other.
abbrev pub text : List Segment → List ℕ
text [] = []
text (s ∷ segs) = s.bytes ++ text segs

-- The numbers of the segments follow one another from `n` to `n'`.
abbrev pub Numbered : ℕ → List Segment → ℕ → Type 0
Numbered n [] n' = n' ≡ n
Numbered n (s ∷ segs) n' = (s.th.seq ≡ n) × Numbered (u32 (n + length s.bytes)) segs n'

-- PSH is set on the last segment and on no other.
abbrev pub Pushed : List Segment → Type 0
Pushed [] = Unit
Pushed (s ∷ segs) = (s.th.psh ≡ is_empty segs) × Pushed segs

-- The segment that a buffer of the retransmission queue stands for.
abbrev pub segment_of : Skb → Segment
segment_of skb = record { th = skb.th; bytes = take skb.dlen skb.payload }

abbrev pub segments_of : List Skb → List Segment
segments_of [] = []
segments_of (skb ∷ queue) = segment_of skb ∷ segments_of queue

-- A buffer of 1 to `mss` bytes, stamped as if it began at SND.UNA.
pub record IsStamped (mss una : ℕ) (skb : Skb) : Type 0 where
  pub some_data : 0 < skb.dlen
  pub fits : skb.dlen ≤ mss
  pub backed : length (take skb.dlen skb.payload) ≡ skb.dlen
  pub end_seq : skb.end_seq ≡ u32 (una + skb.dlen)

pub record Sends (bytes : List ℕ) (c d : Conn) : Type 0 where
  pub queued : List Skb
  pub sent : d.env.sent ≡ c.env.sent ++ segments_of queued
  pub queue : d.sk.write_queue ≡ c.sk.write_queue ++ queued
  pub whole : text (segments_of queued) ≡ bytes
  pub numbered : Numbered c.sk.tcb.snd_nxt (segments_of queued) d.sk.tcb.snd_nxt
  pub pushed : Pushed (segments_of queued)
  pub stamps : All (IsStamped c.sk.smss c.sk.tcb.snd_una) queued
  pub snd_una : d.sk.tcb.snd_una ≡ c.sk.tcb.snd_una

-- A round.
record Round (bytes : List ℕ) (c d : Conn) : Type 0 where
  skb : Skb
  bytes_of : take skb.dlen skb.payload ≡ take (send_size bytes c.sk) bytes
  seq : skb.th.seq ≡ c.sk.tcb.snd_nxt
  psh : skb.th.psh ≡ is_empty (drop (send_size bytes c.sk) bytes)
  dlen : skb.dlen ≡ send_size bytes c.sk
  end_seq : skb.end_seq ≡ u32 (c.sk.tcb.snd_una + skb.dlen)
  sent : d.env.sent ≡ c.env.sent ++ (segment_of skb ∷ [])
  queue : d.sk.write_queue ≡ c.sk.write_queue ++ (skb ∷ [])
  snd_nxt : d.sk.tcb.snd_nxt ≡ u32 (c.sk.tcb.snd_nxt + skb.dlen)
  snd_una : d.sk.tcb.snd_una ≡ c.sk.tcb.snd_una
  smss : d.sk.smss ≡ c.sk.smss

take_all : (xs : List ℕ) → take (length xs) xs ≡ xs
take_all [] = refl
take_all (x ∷ xs) = ap (λ l. x ∷ l) (take_all xs)

send_size_lem : (bytes : List ℕ) (sk : TcpSock) → send_size bytes sk ≡ min sk.smss (length bytes)
unfolding send_size
send_size_lem bytes sk = ground arith

sent-tcp_reset_retransmission_timer :
    (c : Conn) → (tcp_reset_retransmission_timer c).env.sent ≡ c.env.sent
unfolding tcp_reset_retransmission_timer tcp_release_retransmission_timer
sent-tcp_reset_retransmission_timer c = ground arith

-- What `tcp_queue_transmit_skb` sends and queues.
record Queues (skb : Skb) (c d : Conn) : Type 0 where
  sent : d.env.sent ≡ c.env.sent ++ (segment_of (stamped c.sk c.sk.tcb.snd_nxt skb) ∷ [])
  queue : d.sk.write_queue ≡ c.sk.write_queue ++ (stamped c.sk c.sk.tcb.snd_nxt skb ∷ [])
  snd_nxt : d.sk.tcb.snd_nxt ≡ u32 (c.sk.tcb.snd_nxt + skb.dlen)
  snd_una : d.sk.tcb.snd_una ≡ c.sk.tcb.snd_una
  smss : d.sk.smss ≡ c.sk.smss

tcp_queue_transmit_skb-Queues : (skb : Skb) (c : Conn) → Queues skb c (tcp_queue_transmit_skb skb c)
unfolding tcp_queue_transmit_skb tcp_transmit_skb stamped filled tcp_reset_retransmission_timer
    tcp_release_retransmission_timer
tcp_queue_transmit_skb-Queues skb c = elim (Bool-cases (is_empty c.sk.write_queue)) [
  | inl e ↦ rw e (record {
    sent =
        ap (λ l. l ++ (segment_of (stamped c.sk c.sk.tcb.snd_nxt skb) ∷ []))
          (sent-tcp_reset_retransmission_timer c);
    queue = refl;
    snd_nxt = refl;
    snd_una = refl;
    smss = refl;
  })
  | inr e ↦ rw e (record { sent = refl; queue = refl; snd_nxt = refl; snd_una = refl; smss = refl })
]

send_round-Round : (bytes : List ℕ) (c : Conn) → Round bytes c (send_round bytes c)
unfolding send_round tcp_alloc_skb stamped filled
send_round-Round bytes c =
    let n = send_size bytes c.sk in
    let th = record blank { ack = true; psh = is_empty (drop n bytes) } in
    let skb = tcp_alloc_skb th (take n bytes) c.env in
    let q = tcp_queue_transmit_skb-Queues skb (alloc c) in
    record {
      skb = stamped c.sk c.sk.tcb.snd_nxt skb;
      bytes_of = take_all (take n bytes);
      seq = refl;
      psh = refl;
      dlen = omega (arith, send_size_lem bytes c.sk, length-take n bytes);
      end_seq = refl;
      sent = q.sent;
      queue = q.queue;
      snd_nxt = q.snd_nxt;
      snd_una = q.snd_una;
      smss = q.smss;
    }

Sends-nil : (c : Conn) → Sends [] c c
Sends-nil c = record {
  queued = [];
  sent = sym (append-nil _);
  queue = sym (append-nil _);
  whole = refl;
  numbered = refl;
  pushed = tt;
  stamps = tt;
  snd_una = refl;
}

is_empty-append : (xs ys : List ℕ) → 0 < length xs → is_empty (xs ++ ys) ≡ false
is_empty-append [] ys h = absurd (omega arith)
is_empty-append (x ∷ xs) ys h = refl

is_empty-text :
    (mss una : ℕ) (queue : List Skb)
    → All (IsStamped mss una) queue
    → is_empty (text (segments_of queue)) ≡ is_empty (segments_of queue)
is_empty-text mss una [] h = refl
is_empty-text mss una (skb ∷ queue) h =
    is_empty-append (take skb.dlen skb.payload) _ (omega (arith, h.0.backed, h.0.some_data))

module _ (bytes : List ℕ) (c d : Conn) (mss : 0 < c.sk.smss) (more : 0 < length bytes)
    (r : Round bytes c d) where
  stamp : IsStamped c.sk.smss c.sk.tcb.snd_una r.skb
  stamp = record {
    some_data = omega (arith, r.dlen, send_size_lem bytes c.sk);
    fits = omega (arith, r.dlen, send_size_lem bytes c.sk);
    backed = omega (
      arith,
      r.dlen,
      send_size_lem bytes c.sk,
      ap length r.bytes_of,
      length-take (send_size bytes c.sk) bytes,
    );
    end_seq = r.end_seq;
  }

  Sends-Round : (e : Conn) → Sends (drop (send_size bytes c.sk) bytes) d e → Sends bytes c e
  Sends-Round e s = record {
    queued = r.skb ∷ s.queued;
    sent =
        s.sent ∙ rw r.sent (append_assoc c.env.sent (segment_of r.skb ∷ []) (segments_of s.queued));
    queue = s.queue ∙ rw r.queue (append_assoc c.sk.write_queue (r.skb ∷ []) s.queued);
    whole = rw (r.bytes_of, s.whole) (take-append-drop (send_size bytes c.sk) bytes);
    numbered = (r.seq, rw (stamp.backed, sym r.snd_nxt) s.numbered);
    pushed = (r.psh ∙ ap is_empty (sym s.whole) ∙ is_empty-text _ _ s.queued s.stamps, s.pushed);
    stamps = (stamp, rw (r.smss, r.snd_una) at s.stamps);
    snd_una = s.snd_una ∙ r.snd_una;
  }

-- One round more than there are bytes is enough.
tcp_send_from_total :
    (fuel : ℕ) (bytes : List ℕ) (c : Conn)
    → 0 < c.sk.smss
    → length bytes < fuel
    → (d : Conn) × (tcp_send_from fuel bytes c ≡ some d) × Sends bytes c d
unfolding tcp_send_from
tcp_send_from_total zero bytes c mss h = absurd (omega arith)
tcp_send_from_total (suc fuel) [] c mss h = (c, refl, Sends-nil c)
tcp_send_from_total (suc fuel) (b ∷ bytes) c mss h =
    let r = send_round-Round (b ∷ bytes) c in
    let n = send_size (b ∷ bytes) c.sk in
    let (d, e, s) =
      tcp_send_from_total fuel (drop n (b ∷ bytes)) (send_round (b ∷ bytes) c)
        (omega (arith, r.smss))
        (omega (arith, length-drop n (b ∷ bytes), send_size_lem (b ∷ bytes) c.sk)) in
    (d, e, Sends-Round (b ∷ bytes) c (send_round (b ∷ bytes) c) mss (omega arith) r d s)

-- If the maximum segment size is positive, `tcp_send` ends. The segments that it hands to
-- `ip_output` are those that it appends to the retransmission queue: they hold the given bytes in
-- order, 1 to `smss` of them each, are numbered one after the other from the old SND.NXT to the
-- new one, and PSH is on the last one only. SND.UNA stays.
pub tcp_send_total :
    (bytes : List ℕ) (c : Conn)
    → 0 < c.sk.smss
    → (d : Conn) × (tcp_send bytes c ≡ some d) × Sends bytes c d
unfolding tcp_send
tcp_send_total bytes c mss = tcp_send_from_total (length bytes + 1) bytes c mss (omega arith)
