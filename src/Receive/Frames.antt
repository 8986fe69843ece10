-- ===== src/Receive/Frames.antt =====
-- A frame that one machine writes, in the receive loop of another.
use toy_ip.Base.{
  ℕ, ◌+◌, ◌-◌, ◌^◌, ◌<◌, ◌≤◌, ◌≡◌, refl, ◌∙◌, sym, ap, subst, Option, none, some, List, [], ◌∷◌,
  ◌++◌, u32, pos, length, length-append, drop, drop_front, append_assoc, All, arith,
}
use mathlib.Core.Option.{some-injective}
use toy_ip.Arp.{NetDev}
use toy_ip.Checksum.Words.{IsByte}
use toy_ip.Ip.{ip_rcv, ip_header, net16}
use toy_ip.Ethernet.{frame_bytes, netdev_receive}
use toy_ip.Ethernet.Frames.{ip_frame}
use toy_ip.Tcp.Types.{TcpHdr}
use toy_ip.Tcp.Sock.{tcp_in}
use toy_ip.Tcp.Wire.{tcp_segment_bytes}
use toy_ip.Tcp.Wire.Sent.{IsHdr}
use toy_ip.Tcp.Wire.Delivered.{segment_arrives}
use toy_ip.Udp.{Udp, Packet, UdpSock, udp_in}
use toy_ip.Udp.Calls.{udp_send}
use toy_ip.Udp.Wire.{udp_packet_bytes}
use toy_ip.Udp.Delivered.{datagram_arrives}
use toy_ip.Receive.{
  Stack, Input, cleared, buffer, set_tcp, set_udp, take_datagram, take_frame, rx_round,
}

-- The frame of a datagram: its header has 14 bytes.
module _ (dmac smac : List ℕ) (hd : length dmac ≡ 6) (hs : length smac ≡ 6) where
  joined :
      (payload rest : List ℕ)
      → frame_bytes dmac smac 2048 payload ++ rest ≡ frame_bytes dmac smac 2048 (payload ++ rest)
  joined payload rest =
      append_assoc dmac (smac ++ (net16 2048 ++ payload)) rest
      ∙ ap (λ l. dmac ++ l) (append_assoc smac (net16 2048 ++ payload) rest)

  behind_header : (payload : List ℕ) → drop 14 (frame_bytes dmac smac 2048 payload) ≡ payload
  behind_header payload =
      let front = dmac ++ (smac ++ net16 2048) in
      let size : length front ≡ 14 =
        omega (arith, length-append dmac (smac ++ net16 2048), length-append smac (net16 2048)) in
      let split : front ++ payload ≡ frame_bytes dmac smac 2048 payload =
        append_assoc dmac (smac ++ net16 2048) payload
        ∙ ap (λ l. dmac ++ l) (append_assoc smac (net16 2048) payload) in
      subst (λ l. drop 14 l ≡ payload) split
        (subst (λ n. drop n (front ++ payload) ≡ payload) size (drop_front front payload))

  -- What `ip_rcv` gets is the datagram and the rest of the buffer.
  rx_ip :
      (i : Input) (datagram : List ℕ)
      → i.frame ≡ frame_bytes dmac smac 2048 datagram
      → (dev : NetDev) (stackaddr : ℕ) (s : Stack)
      → rx_round dev stackaddr i s
        ≡ take_datagram i
            (datagram ++ cleared (1600 - length i.frame))
            (ip_rcv stackaddr (datagram ++ cleared (1600 - length i.frame)))
            s
  unfolding rx_round take_frame buffer
  rx_ip i datagram framed dev stackaddr s =
      let rest = cleared (1600 - length i.frame) in
      let whole : buffer i ≡ frame_bytes dmac smac 2048 (datagram ++ rest) =
        ap (λ l. l ++ rest) framed ∙ joined datagram rest in
      let frame = frame_bytes dmac smac 2048 (datagram ++ rest) in
      ap (λ b. take_frame dev i b (netdev_receive stackaddr b) s) whole
      ∙ ap (λ r. take_frame dev i frame r s) (ip_frame stackaddr dmac smac (datagram ++ rest) hd hs)
      ∙ ap (λ d. take_datagram i d (ip_rcv stackaddr (datagram ++ rest)) s)
          (behind_header (datagram ++ rest))

-- Equal parts are an equal datagram.
rejoin :
    {a b : Option (List ℕ)} (header header' wire wire' rest : List ℕ)
    → a ≡ some header
    → a ≡ some header'
    → b ≡ some wire
    → b ≡ some wire'
    → (header ++ wire) ++ rest ≡ header' ++ (wire' ++ rest)
rejoin header header' wire wire' rest h h' w w' =
    append_assoc header wire rest
    ∙ ap (λ l. l ++ (wire ++ rest)) (some-injective header header' (sym h ∙ h'))
    ∙ ap (λ l. header' ++ (l ++ rest)) (some-injective wire wire' (sym w ∙ w'))

-- A machine sends a segment with a header without options, whose fields fit in their bits, and with
-- at most 1546 bytes of data, in a frame with two hardware addresses of 6 bytes. A round of
-- `netdev_rx_loop` in the machine with the address `daddr` that reads this frame is `tcp_in` on a
-- buffer with the same header, the same range of sequence numbers, the data with its length and the
-- two addresses, and changes nothing else.
pub rx_segment :
    (id saddr daddr : ℕ) (th : TcpHdr) (bytes dmac smac : List ℕ)
    → IsHdr th
    → th.hl ≡ 5
    → th.mss ≡ none
    → id < 2 ^ 16
    → saddr < 2 ^ 32
    → daddr < 2 ^ 32
    → All IsByte bytes
    → length bytes ≤ 1546
    → length dmac ≡ 6
    → length smac ≡ 6
    → (dev : NetDev) (i : Input) (s : Stack)
    → (header : List ℕ) × (ip_header (40 + length bytes) id 6 saddr daddr ≡ some header)
      × (wire : List ℕ) × (tcp_segment_bytes saddr daddr th bytes ≡ some wire)
      × (rest : List ℕ) × (rx_round dev daddr
            (record i { frame = frame_bytes dmac smac 2048 (header ++ wire) })
            s
          ≡ set_tcp s (
              tcp_in i.isn
                (record {
                  address = i.address;
                  refcnt = pos 0;
                  seq = th.seq;
                  end_seq = u32 (th.seq + length bytes);
                  dlen = length bytes;
                  payload = bytes ++ rest;
                  th = th;
                  saddr = saddr;
                  daddr = daddr;
                })
                s.tcp))
unfolding take_datagram
rx_segment id saddr daddr th bytes dmac smac fields hl plain hi hs hd all small hdm hsm dev i s =
    let arrives = segment_arrives i.address id saddr daddr th bytes in
    let (header, writes, wire, sends, _, _, _, _) =
      arrives [] fields hl plain hi hs hd all (omega arith) in
    let datagram = header ++ wire in
    let read : Input = record i { frame = frame_bytes dmac smac 2048 datagram } in
    let rest = cleared (1600 - length read.frame) in
    let (header', writes', wire', sends', _, ih, given, reads) =
      arrives rest fields hl plain hi hs hd all (omega arith) in
    let whole = header' ++ (wire' ++ rest) in
    let same = rejoin header header' wire wire' rest writes writes' sends sends' in
    (
      header,
      writes,
      wire,
      sends,
      rest,
      rx_ip dmac smac hdm hsm read datagram refl dev daddr s
          ∙ ap (λ d. take_datagram read d (ip_rcv daddr d) s) same
          ∙ ap (λ r. take_datagram read whole r s) given
          ∙ rw (take_datagram, reads) refl,
    )

-- A socket sends a datagram as in `datagram_arrives`, with at most 1558 bytes, in a frame with two
-- hardware addresses of 6 bytes. A round of `netdev_rx_loop` in the machine with the address
-- `daddr` that reads this frame is `udp_in` on a buffer with the same ports, the address of the
-- sender, and the bytes with their number, and changes nothing else.
pub rx_datagram :
    (id : ℕ) (sk : UdpSock) (bytes dmac smac : List ℕ) (u : Udp)
    → sk.sport < 2 ^ 16
    → sk.dport < 2 ^ 16
    → id < 2 ^ 16
    → sk.saddr < 2 ^ 32
    → sk.daddr < 2 ^ 32
    → All IsByte bytes
    → length bytes ≤ 1558
    → length dmac ≡ 6
    → length smac ≡ 6
    → (dev : NetDev) (i : Input) (s : Stack)
    → (p : Packet) × ((udp_send sk bytes u).sent ≡ u.sent ++ p ∷ [])
      × (header : List ℕ) × (ip_header (28 + length bytes) id 17 sk.saddr sk.daddr ≡ some header)
      × (wire : List ℕ) × (udp_packet_bytes p ≡ some wire)
      × (rest : List ℕ) × (rx_round dev sk.daddr
            (record i { frame = frame_bytes dmac smac 2048 (header ++ wire) })
            s
          ≡ set_udp s (
              udp_in i.fuel
                (record {
                  address = i.address;
                  refcnt = pos 0;
                  sport = sk.sport;
                  dport = sk.dport;
                  len = length bytes + 8;
                  saddr = sk.saddr;
                  dlen = length bytes;
                  payload = bytes ++ rest;
                })
                s.udp))
unfolding take_datagram
rx_datagram id sk bytes dmac smac u hsp hdp hi hs hd all small hdm hsm dev i s =
    let arrives = datagram_arrives i.address id sk bytes in
    let (p, packet, header, writes, wire, sends, _, _, _, _) =
      arrives [] u hsp hdp hi hs hd all (omega arith) in
    let datagram = header ++ wire in
    let read : Input = record i { frame = frame_bytes dmac smac 2048 datagram } in
    let rest = cleared (1600 - length read.frame) in
    let (p', packet', header', writes', wire', sends', _, ih, given, reads) =
      arrives rest u hsp hdp hi hs hd all (omega arith) in
    let whole = header' ++ (wire' ++ rest) in
    let alone : p ∷ [] ≡ p' ∷ [] =
      sym (drop_front u.sent (p ∷ []))
      ∙ ap (drop (length u.sent)) (sym packet ∙ packet')
      ∙ drop_front u.sent (p' ∷ []) in
    let bytes_of : List Packet → Option (List ℕ) =
      λ l. elim l [ [] ↦ none | q ∷ _ ↦ udp_packet_bytes q ] in
    let same =
      rejoin header header' wire wire' rest writes writes' sends (ap bytes_of alone ∙ sends') in
    (
      p,
      packet,
      header,
      writes,
      wire,
      sends,
      rest,
      rx_ip dmac smac hdm hsm read datagram refl dev sk.daddr s
          ∙ ap (λ d. take_datagram read d (ip_rcv sk.daddr d) s) same
          ∙ ap (λ r. take_datagram read whole r s) given
          ∙ rw (take_datagram, reads) refl,
    )
