-- ===== src/Tcp/Forgets.antt =====
-- What an acknowledgement of the first segment does to the retransmission queue.
use toy_ip.Base.{
  ℕ, ◌+◌, ◌≤◌, ◌<◌, ◌^◌, ◌≡◌, refl, ◌∙◌, sym, ap, subst, List, [], ◌∷◌, ◌++◌, some, arith, u32, dec,
  length, All, length-append,
}
use toy_ip.Tcp.Types.{Skb, Segment, Conn}
use toy_ip.Tcp.Core.{free_skb, tcp_stop_retransmission_timer}
use toy_ip.Tcp.Send.{tcp_send}
use toy_ip.Tcp.Handshake.{clean, tcp_clean_retransmission_queue}
use toy_ip.Tcp.Segments.{text, Numbered, IsStamped, tcp_send_total}

Numbered_lem :
    (n : ℕ) (segs : List Segment) (n' : ℕ)
    → Numbered n segs n'
    → n + length (text segs) < 2 ^ 32
    → n' ≡ n + length (text segs)
Numbered_lem n [] n' h lt = omega (arith, h)
Numbered_lem n (s ∷ segs) n' h lt =
    let e = length-append s.bytes (text segs) in
    let step : u32 (n + length s.bytes) ≡ n + length s.bytes = omega (arith, e) in
    Numbered_lem (n + length s.bytes) segs n' (rw step at h.1) (omega (arith, e)) ∙ omega (arith, e)

write_queue-clean :
    (una : ℕ) (queue : List Skb) (c : Conn)
    → All (λ (skb : Skb). skb.end_seq ≤ una) queue
    → (clean una queue c).sk.write_queue ≡ []
unfolding clean tcp_stop_retransmission_timer
write_queue-clean una [] c h = refl
write_queue-clean una (skb ∷ queue) c h =
    let s = record skb { refcnt = dec skb.refcnt } in
    ground (arith, write_queue-clean una queue (free_skb s c) h.1)

below :
    (mss una : ℕ) (queue : List Skb)
    → una + mss < 2 ^ 32
    → All (IsStamped mss una) queue
    → All (λ (skb : Skb). skb.end_seq ≤ una + mss) queue
below mss una [] lt h = tt
below mss una (skb ∷ queue) lt h =
    (omega (arith, h.0.end_seq, h.0.fits), below mss una queue lt h.1)

-- When nothing is in flight and `tcp_send` sends more than one segment, without a wrap of the
-- sequence numbers, an acknowledgement of the first segment empties the whole retransmission
-- queue, though there are numbers behind it that are not acknowledged.
pub tcp_send-forgets :
    (bytes : List ℕ) (c : Conn)
    → 0 < c.sk.smss
    → c.sk.smss < length bytes
    → c.sk.write_queue ≡ []
    → c.sk.tcb.snd_nxt ≡ c.sk.tcb.snd_una
    → c.sk.tcb.snd_una + length bytes < 2 ^ 32
    → let una = c.sk.tcb.snd_una + c.sk.smss in
      (d : Conn) × (tcp_send bytes c ≡ some d)
      × (una < d.sk.tcb.snd_nxt)
      × ((tcp_clean_retransmission_queue una d).sk.write_queue ≡ [])
unfolding tcp_clean_retransmission_queue
tcp_send-forgets bytes c mss more empty idle short =
    let (d, e, s) = tcp_send_total bytes c mss in
    let una = c.sk.tcb.snd_una + c.sk.smss in
    let q : d.sk.write_queue ≡ s.queued = s.queue ∙ ap (λ l. l ++ s.queued) empty in
    let n = Numbered_lem _ _ _ s.numbered (omega (arith, ap length s.whole)) in
    (
      d,
      e,
      omega (arith, n, ap length s.whole),
      write_queue-clean una d.sk.write_queue d (
          subst (λ l. All (λ (skb : Skb). skb.end_seq ≤ una) l) (sym q)
            (below _ _ s.queued (omega arith) s.stamps)),
    )
