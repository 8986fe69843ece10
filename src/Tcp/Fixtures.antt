-- ===== src/Tcp/Fixtures.antt =====
-- A socket, its environment and segments for the tests.
use toy_ip.Base.{ℕ, ◌+◌, List, [], ◌∷◌, true, false, none, pos, length, u32}
use toy_ip.Tcp.Types.{established, Tcb, Skb, TcpSock, Env, Conn}
use toy_ip.Tcp.Output.{blank}

-- An established connection that has sent the numbers 100 to 199 and expects 500.
abbrev pub tcb : Tcb
tcb = record {
  snd_una = 150;
  snd_nxt = 200;
  snd_wnd = 0;
  snd_up = 100;
  snd_wl1 = 0;
  isn = 100;
  rcv_nxt = 500;
  rcv_wnd = 44477;
  irs = 499;
}

abbrev pub sock : TcpSock
sock = record {
  address = 1;
  freed = false;
  state = established;
  err = pos 0;
  sport = 4000;
  dport = 80;
  saddr = 10;
  daddr = 20;
  tcp_header_len = 20;
  tcb = tcb;
  psh = false;
  fin = false;
  backoff = 0;
  listen_queue = [];
  accept_queue = [];
  wait_sleeping = false;
  recv_sleeping = true;
  parent = none;
  retransmit = none;
  delack = none;
  keepalive = none;
  linger = none;
  delacks = 0;
  rmss = 1460;
  smss = 1460;
  receive_queue = [];
  write_queue = [];
  ofo_queue = [];
}

abbrev pub env : Env
env = record {
  socks = λ q. none;
  established = 1 ∷ [];
  connecting = [];
  timers = record { list = []; tick = 0; next = 0 };
  sent = [];
  freed = [];
  next = 50;
}

abbrev pub conn : Conn
conn = record { sk = sock; env = env }

-- A segment that holds `bytes` from number `seq` on and acknowledges 200.
abbrev pub data_skb : ℕ → ℕ → List ℕ → Skb
data_skb address seq bytes = record {
  address = address;
  refcnt = pos 0;
  seq = seq;
  end_seq = u32 (seq + length bytes);
  dlen = length bytes;
  payload = bytes;
  th = record blank { seq = seq; ack_seq = 200; ack = true; psh = true };
  saddr = 20;
  daddr = 10;
}
