-- ===== src/Receive/Tests.antt =====
-- Concrete frames in the receive loop of toy_src/netdev.c.
use toy_ip.Base.{
  ◌==◌, if◌then◌else◌, ℕ, ◌≡◌, refl, true, false, none, some, List, [], ◌∷◌, ◌++◌, pos, arith,
}
use toy_ip.Arp.{NetDev}
use toy_ip.Ip.{ip_header}
use toy_ip.Ethernet.{frame_bytes, dispatch, netdev_receive}
use toy_ip.Tcp.Types.{TcpHdr, Env}
use toy_ip.Tcp.Output.{blank}
use toy_ip.Tcp.Sock.{tcp_in}
use toy_ip.Tcp.Wire.{tcp_segment_bytes}
use toy_ip.Udp.{
  unconnected, found, find_from, udp_lookup_sock, finished, udp_recvfrom, Udp, UdpSock, Packet,
  connected,
}
use toy_ip.Udp.Calls.{udp_send}
use toy_ip.Udp.Wire.{udp_packet_bytes}
use toy_ip.Receive.{Stack, Input, set_tcp, buffer, take_frame, rx_round, netdev_rx_loop}
use toy_ip.Receive.Frames.{rx_segment}
use toy_ip.Receive.Exchange.{rx_round-udp_recvfrom}

abbrev mac_a : List ℕ
mac_a = 0 ∷ 12 ∷ 41 ∷ 109 ∷ 80 ∷ 37 ∷ []

abbrev mac_b : List ℕ
mac_b = 0 ∷ 12 ∷ 41 ∷ 109 ∷ 80 ∷ 38 ∷ []

abbrev dev : NetDev
dev = record { addr = 0x0a000105; hwaddr = mac_b }

abbrev no_udp : Udp
no_udp = record {
  head = 1;
  links = record { next = λ p. 1; prev = λ p. 1 };
  socks = λ p. none;
  amount = pos 0;
  port = 40000;
  tick = 0;
  sent = [];
  freed = [];
}

abbrev no_tcp : Env
no_tcp = record {
  socks = λ q. none;
  established = [];
  connecting = [];
  timers = record { list = []; tick = 0; next = 0 };
  sent = [];
  freed = [];
  next = 50;
}

abbrev stack : Stack
stack = record {
  arp = record { cache = []; sent = []; freed = [] };
  udp = no_udp;
  tcp = no_tcp;
  replies = [];
}

abbrev input : Input
input = record { frame = []; address = 7; isn = 1000; ts_recv = 5; fuel = 3 }

-- `GE` from port 40001 to port 80.
abbrev request : TcpHdr
request = record blank {
  sport = 40001;
  dport = 80;
  seq = 100;
  ack_seq = 500;
  hl = 5;
  psh = true;
  ack = true;
  win = 44477;
}

rx_segment_example :
    (header : List ℕ) × (ip_header 42 9 6 0x0a000104 0x0a000105 ≡ some header)
    × (wire : List ℕ) × (tcp_segment_bytes 0x0a000104 0x0a000105 request (71 ∷ 69 ∷ []) ≡ some wire)
    × (rest : List ℕ) × (rx_round dev 0x0a000105
          (record input { frame = frame_bytes mac_b mac_a 2048 (header ++ wire) })
          stack
        ≡ set_tcp stack (
            tcp_in 1000
              (record {
                address = 7;
                refcnt = pos 0;
                seq = 100;
                end_seq = 102;
                dlen = 2;
                payload = 71 ∷ 69 ∷ rest;
                th = request;
                saddr = 0x0a000104;
                daddr = 0x0a000105;
              })
              no_tcp))
rx_segment_example =
    rx_segment 9 0x0a000104 0x0a000105 request (71 ∷ 69 ∷ []) mac_b mac_a
      (record {
        sport = omega arith;
        dport = omega arith;
        seq = omega arith;
        ack_seq = omega arith;
        win = omega arith;
      })
      refl refl (omega arith) (omega arith) (omega arith) (omega arith) (omega arith) refl refl dev
      input stack

abbrev sender : UdpSock
sender = record {
  address = 9;
  state = connected;
  saddr = 0x0a000104;
  daddr = 0x0a000105;
  sport = 40001;
  dport = 53;
  receive_queue = [];
  recv_sleeping = false;
}

-- The socket bound to port 53.
abbrev reader : UdpSock
reader = record {
  address = 2;
  state = unconnected;
  saddr = 0x0a000105;
  daddr = 0;
  sport = 53;
  dport = 0;
  receive_queue = [];
  recv_sleeping = true;
}

abbrev bound : Stack
bound = record stack {
  udp = record no_udp {
    links = record { next = λ p. if p == 1 then 2 else 1; prev = λ p. if p == 1 then 2 else 1 };
    socks = λ p. if p == 2 then some reader else none;
    amount = pos 1;
  };
}

reader_is_found : udp_lookup_sock 3 53 bound.udp ≡ found reader
unfolding udp_lookup_sock find_from
reader_is_found = refl

rx_round-udp_recvfrom_example :
    (p : Packet) × ((udp_send sender (1 ∷ 2 ∷ []) no_udp).sent ≡ [] ++ p ∷ [])
    × (header : List ℕ) × (ip_header 30 9 17 0x0a000104 0x0a000105 ≡ some header)
    × (wire : List ℕ) × (udp_packet_bytes p ≡ some wire)
    × (v : Udp) × (rx_round dev 0x0a000105
          (record input { frame = frame_bytes mac_b mac_a 2048 (header ++ wire) })
          bound
        ≡ some (record bound { udp = v }))
    × (rk' : UdpSock) × (v.socks 2 ≡ some rk')
    × (after : UdpSock × Udp) × (udp_recvfrom [] 100 rk' v
        ≡ finished after
            (record { bytes = 1 ∷ 2 ∷ []; sender = some (0x0a000104, 40001); code = pos 2 }))
rx_round-udp_recvfrom_example =
    rx_round-udp_recvfrom 9 100 sender reader (1 ∷ 2 ∷ []) mac_b mac_a no_udp (omega arith)
      (omega arith) (omega arith) (omega arith) (omega arith) (omega arith) (omega arith)
      (omega arith) (omega arith) refl refl dev input bound reader_is_found refl

-- A frame of IPv6 is dropped, and the loop goes on to the read that fails.
ipv6_is_dropped :
    netdev_rx_loop dev 0x0a000105
      (some (record input { frame = frame_bytes mac_b mac_a 34525 [] }) ∷ none ∷ [])
      stack
    ≡ some stack
unfolding netdev_rx_loop rx_round take_frame netdev_receive dispatch buffer
ipv6_is_dropped = refl
