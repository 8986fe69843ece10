-- ===== src/Skb/Layers.antt =====
-- How the protocols lay a packet out in its buffer: toy_src/tcp_output.c, udp_sock.c, arp.c,
-- icmpv4.c, ip_output.c and netdev.c, as far as they allocate, reserve and push.
use toy_ip.Base.{ℕ, zero, suc, ◌+◌, ◌*◌, Option, none, some}
use toy_ip.Skb.{Buffer, alloc_skb, skb_reserve, skb_push, skb_reset_header}

infixl 5 ◌>>=◌
abbrev pub ◌>>=◌ {ℓ κ} : {A : Type ℓ} {B : Type κ} → Option A → (A → Option B) → Option B
none >>= f = none
some a >>= f = f a

-- ETH_HDR_LEN, IP_HDR_LEN, TCP_HDR_LEN, UDP_HDR_LEN, ARP_HDR_LEN, ARP_DATA_LEN and BUFLEN
abbrev pub eth_hdr_len : ℕ
eth_hdr_len = 14

abbrev pub ip_hdr_len : ℕ
ip_hdr_len = 20

abbrev pub tcp_hdr_len : ℕ
tcp_hdr_len = 20

abbrev pub udp_hdr_len : ℕ
udp_hdr_len = 8

abbrev pub arp_hdr_len : ℕ
arp_hdr_len = 8

abbrev pub arp_data_len : ℕ
arp_data_len = 20

abbrev pub buflen : ℕ
buflen = 1600

-- `tcp_alloc_skb`
unfoldable pub tcp_buffer : ℕ → ℕ → Option Buffer
tcp_buffer optlen size =
    let reserved = eth_hdr_len + ip_hdr_len + tcp_hdr_len + optlen + size in
    do b ← skb_reserve reserved (alloc_skb reserved); some (record b { dlen = size })

-- `udp_alloc_skb`
unfoldable pub udp_buffer : ℕ → Option Buffer
udp_buffer size =
    let reserved = eth_hdr_len + ip_hdr_len + udp_hdr_len + size in
    do b ← skb_reserve reserved (alloc_skb reserved); some (record b { dlen = size })

-- `arp_alloc_skb`
unfoldable pub arp_buffer : Option Buffer
arp_buffer =
    let reserved = eth_hdr_len + arp_hdr_len + arp_data_len in
    skb_reserve reserved (alloc_skb reserved)

-- The push of `netdev_transmit`, which writes the Ethernet header at `data`.
unfoldable pub push_eth : Buffer → Option Buffer
push_eth b = skb_push eth_hdr_len b

-- The push of `ip_output`, which writes its header at `ip_hdr`.
unfoldable pub push_ip : Buffer → Option Buffer
push_ip b = skb_push ip_hdr_len b

-- The push of `tcp_transmit_skb` for a header of `hl` words, which it writes at `tcp_hdr`.
unfoldable pub push_tcp : ℕ → Buffer → Option Buffer
push_tcp hl b = skb_push (hl * 4) b

-- `tcp_transmit_skb` down to the device.
unfoldable pub transmit_tcp : ℕ → Buffer → Option Buffer
transmit_tcp hl b = do t ← push_tcp hl b; i ← push_ip t; push_eth i

-- A segment of `tcp_send` with its data, or one without data, before its transmission.
unfoldable pub tcp_segment : ℕ → ℕ → Option Buffer
tcp_segment optlen size = do b ← tcp_buffer optlen size; skb_push size b

-- The same buffer sent once, and then again by `n` timeouts.
unfoldable pub transmissions : ℕ → ℕ → Buffer → Option Buffer
transmissions zero hl b = transmit_tcp hl b
transmissions (suc n) hl b = do
  sent ← transmissions n hl b
  ready ← skb_reset_header sent
  transmit_tcp hl ready

-- `udp_send`
unfoldable pub send_udp : ℕ → Option Buffer
send_udp size = do
  b ← udp_buffer size
  d ← skb_push size b
  u ← skb_push udp_hdr_len d
  i ← push_ip u
  push_eth i

-- `arp_request`
unfoldable pub send_arp_request : Option Buffer
send_arp_request = do
  b ← arp_buffer
  d ← skb_push arp_data_len b
  a ← skb_push arp_hdr_len d
  push_eth a

-- The buffer of `netdev_rx_loop`, and what `arp_reply` does with it.
unfoldable pub send_arp_reply : Option Buffer
send_arp_reply = do
  b ← skb_reserve (eth_hdr_len + arp_hdr_len + arp_data_len) (alloc_skb buflen)
  a ← skb_push (arp_hdr_len + arp_data_len) b
  push_eth a

-- What `icmpv4_reply` and `icmpv4_timestamp` do with the buffer of `netdev_rx_loop`, for a message
-- of `icmp_len` bytes.
unfoldable pub send_icmp_reply : ℕ → Option Buffer
send_icmp_reply icmp_len = do
  b ← skb_reserve (eth_hdr_len + ip_hdr_len + icmp_len) (alloc_skb buflen)
  m ← skb_push icmp_len b
  i ← push_ip m
  push_eth i
