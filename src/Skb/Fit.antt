-- ===== src/Skb/Fit.antt =====
-- Every packet fits its buffer: the pushes end at its first byte.
use toy_ip.Base.{
  ℕ, zero, suc, ◌+◌, ◌*◌, ◌^◌, ◌≤◌, ◌<◌, ◌≡◌, refl, none, some, leb, if◌then◌else◌, arith,
}
use toy_ip.Skb.{Buffer, alloc_skb, skb_reserve, skb_push, skb_reset_header}
use toy_ip.Skb.Layers.{
  eth_hdr_len, ip_hdr_len, tcp_buffer, udp_buffer, arp_buffer, push_eth, push_ip, push_tcp,
  transmit_tcp, tcp_segment, transmissions, send_udp, send_arp_request, send_arp_reply,
  send_icmp_reply,
}

-- A buffer of `headers` bytes of headers and `size` bytes of data, in which only the data is filled
-- in, and the same buffer when it is sent.
abbrev pub loaded : ℕ → ℕ → Buffer
loaded headers size = record { size = headers + size; position = headers; len = size; dlen = size }

abbrev pub sent : ℕ → ℕ → Buffer
sent headers size = record {
  size = headers + size;
  position = 0;
  len = headers + size;
  dlen = size;
}

module _ (words size : ℕ) (small : words ≤ 10) (fits : size + 94 < 2 ^ 32) where
  tcp_segment_lem : tcp_segment (4 * words) size ≡ some (loaded (54 + 4 * words) size)
  unfolding tcp_segment tcp_buffer alloc_skb skb_reserve skb_push
  tcp_segment_lem = ground arith

  transmit_tcp_lem :
      transmit_tcp (5 + words) (loaded (54 + 4 * words) size) ≡ some (sent (54 + 4 * words) size)
  unfolding transmit_tcp push_tcp push_ip push_eth skb_push
  transmit_tcp_lem = ground arith

  reset_sent : skb_reset_header (sent (54 + 4 * words) size) ≡ some (loaded (54 + 4 * words) size)
  unfolding skb_reset_header
  reset_sent = ground arith

  transmissions_lem :
      (n : ℕ)
      → transmissions n (5 + words) (loaded (54 + 4 * words) size)
        ≡ some (sent (54 + 4 * words) size)
  unfolding transmissions
  transmissions_lem zero = transmit_tcp_lem
  transmissions_lem (suc n) = rw (transmissions_lem n, reset_sent) transmit_tcp_lem

-- A TCP segment with up to ten words of options: its buffer can be sent any number of times, and
-- each time the pushes stay in it and end at its first byte with the length of all of it. The data
-- pointer stands at `tcp_hdr` when the TCP header is written, and at `ip_hdr` when that of IP is.
pub tcp_fits :
    (n words size : ℕ)
    → words ≤ 10
    → size + 94 < 2 ^ 32
    → (b : Buffer) × (tcp_segment (4 * words) size ≡ some b)
      × (transmissions n (5 + words) b ≡ some (sent (54 + 4 * words) size))
      × (t : Buffer) × (push_tcp (5 + words) b ≡ some t)
      × (t.position ≡ eth_hdr_len + ip_hdr_len)
      × (i : Buffer) × (push_ip t ≡ some i)
      × (i.position ≡ eth_hdr_len)
unfolding push_tcp push_ip skb_push
tcp_fits n words size small fits = (
  loaded (54 + 4 * words) size,
  tcp_segment_lem words size small fits,
  transmissions_lem words size small fits n,
  record {
    size = 54 + 4 * words + size;
    position = 34;
    len = size + (20 + 4 * words);
    dlen = size;
  },
  ground arith,
  refl,
  record {
    size = 54 + 4 * words + size;
    position = 14;
    len = size + (40 + 4 * words);
    dlen = size;
  },
  ground arith,
  refl,
)

-- The other packets, each with its Ethernet header: a datagram of UDP and an ARP request fill their
-- buffers, an ARP reply the first 42 bytes of a received buffer, and an ICMP reply its first
-- `icmp_len + 34` bytes, exactly as long as these are at most 1600. Beyond that the reply moves the
-- data pointer out of the buffer.
pub datagrams_fit :
    (size icmp_len : ℕ)
    → size + 42 < 2 ^ 32
    → icmp_len < 2 ^ 16
    → (send_udp size ≡ some (sent 42 size))
      × (send_arp_request ≡ some (record { size = 42; position = 0; len = 42; dlen = 0 }))
      × (send_arp_reply ≡ some (record { size = 1600; position = 0; len = 42; dlen = 0 }))
      × (send_icmp_reply icmp_len ≡ (
          if leb (34 + icmp_len) 1600
          then some (record { size = 1600; position = 0; len = 34 + icmp_len; dlen = 0 })
          else none))
unfolding send_udp udp_buffer send_arp_request arp_buffer send_arp_reply send_icmp_reply push_ip
    push_eth alloc_skb skb_reserve skb_push
datagrams_fit size icmp_len fits short = (ground arith, ground arith, ground arith, ground arith)
