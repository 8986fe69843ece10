-- ===== src/Tcp/Types.antt =====
-- The data of toy_src/tcp.h, toy_src/sock.h and toy_src/skbuff.h that the TCP functions use.
use toy_ip.Base.{ℕ, Bool, Option, List, ℤ}
use toy_ip.Timer.{Timers}

-- `enum tcp_states`
pub data State : Type 0 where
  listen syn_sent syn_received established fin_wait_1 fin_wait_2 close close_wait closing last_ack
        time_wait :
      State

-- `struct tcphdr` in host byte order; `mss` is the option that a SYN carries.
pub record TcpHdr : Type 0 where
  pub sport : ℕ
  pub dport : ℕ
  pub seq : ℕ
  pub ack_seq : ℕ
  pub hl : ℕ
  pub fin : Bool
  pub syn : Bool
  pub rst : Bool
  pub psh : Bool
  pub ack : Bool
  pub win : ℕ
  pub mss : Option ℕ

-- `struct tcb`
pub record Tcb : Type 0 where
  pub snd_una : ℕ
  pub snd_nxt : ℕ
  pub snd_wnd : ℕ
  pub snd_up : ℕ
  pub snd_wl1 : ℕ
  pub isn : ℕ
  pub rcv_nxt : ℕ
  pub rcv_wnd : ℕ
  pub irs : ℕ

-- `struct sk_buff`, with its address, the TCP header in it, the addresses of its IP header, and the
-- bytes that `payload` points to.
pub record Skb : Type 0 where
  pub address : ℕ
  pub refcnt : ℤ
  pub seq : ℕ
  pub end_seq : ℕ
  pub dlen : ℕ
  pub payload : List ℕ
  pub th : TcpHdr
  pub saddr : ℕ
  pub daddr : ℕ

-- What is handed to `ip_output`.
pub record Segment : Type 0 where
  pub th : TcpHdr
  pub bytes : List ℕ

-- `struct tcp_sock` with its `struct sock`. A pointer is an address, and NULL is `none`. `psh` and
-- `fin` are the two bits of `flags`; `wait_sleeping` and `recv_sleeping` are the `sleeping` fields
-- of `wait` and `recv_wait`; `freed` is set by `free(tsk)`.
pub record TcpSock : Type 0 where
  pub address : ℕ
  pub freed : Bool
  pub state : State
  pub err : ℤ
  pub sport : ℕ
  pub dport : ℕ
  pub saddr : ℕ
  pub daddr : ℕ
  pub tcp_header_len : ℕ
  pub tcb : Tcb
  pub psh : Bool
  pub fin : Bool
  pub backoff : ℕ
  pub listen_queue : List ℕ
  pub accept_queue : List ℕ
  pub wait_sleeping : Bool
  pub recv_sleeping : Bool
  pub parent : Option ℕ
  pub retransmit : Option ℕ
  pub delack : Option ℕ
  pub keepalive : Option ℕ
  pub linger : Option ℕ
  pub delacks : ℕ
  pub rmss : ℕ
  pub smss : ℕ
  pub receive_queue : List Skb
  pub write_queue : List Skb
  pub ofo_queue : List Skb

-- All that a socket shares with the rest of the stack: the other sockets, the two tables of
-- sockets, the timers, the segments sent so far (the oldest first), the addresses of the buffers
-- freed so far, and the address that the next `malloc` returns.
pub record Env : Type 0 where
  pub socks : ℕ → Option TcpSock
  pub established : List ℕ
  pub connecting : List ℕ
  pub timers : Timers
  pub sent : List Segment
  pub freed : List ℕ
  pub next : ℕ

-- A socket that a function works on, and what is around it.
pub record Conn : Type 0 where
  pub sk : TcpSock
  pub env : Env
