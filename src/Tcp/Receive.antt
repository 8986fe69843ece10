-- ===== src/Tcp/Receive.antt =====
-- `tcp_receive` of toy_src/tcp_input.c and `tcp_read` of toy_src/tcp_sock.c.
use toy_ip.Base.{
  ℕ, ◌+◌, ◌-◌, true, false, ◌&&◌, ◌||◌, none, some, List, [], ◌∷◌, ◌++◌, ltb, ◌==◌, if◌then◌else◌,
}
use toy_ip.Tcp.Types.{State, close, close_wait, closing, last_ack, time_wait, TcpSock}
use toy_ip.Tcp.Output.{is_empty}
use toy_ip.Tcp.Data.{Reading, tcp_data_dequeue}

-- The variables of `tcp_receive`: the socket, the bytes in `buf`, `rlen`, the buffers freed.
pub record Receiving : Type 0 where
  pub sk : TcpSock
  pub buf : List ℕ
  pub rlen : ℕ
  pub freed : List ℕ

-- A thread that sleeps on `recv_wait`, or the end of a call.
pub data Receive : Type 0 where
  stuck : Receive
  asleep : Receiving → Receive
  finished : Receiving → Receive

-- The part of a round of `tcp_receive` behind `tcp_data_dequeue`.
unfoldable pub after_read : ℕ → Receiving → Reading → Receive
after_read len r got =
    let sk = record (r.sk) { receive_queue = got.queue; psh = false } in
    let r' = record r {
      sk = sk;
      buf = r.buf ++ got.buf;
      rlen = r.rlen + got.rlen;
      freed = r.freed ++ got.freed;
    } in
    if got.psh
    then finished r'
    else if r.sk.fin || (r'.rlen == len)
    then finished r'
    else asleep (record r' { sk = record sk { recv_sleeping = true } })

unfoldable pub receive_round : ℕ → Receiving → Receive
receive_round len r = elim (tcp_data_dequeue (len - r.rlen) r.sk) [
  | none ↦ stuck
  | some got ↦ after_read len r got
]

-- The loop of `tcp_receive`. Each element of the list is what other threads do to the socket while
-- this one sleeps; the call sleeps on when the list is used up.
unfoldable pub tcp_receive : List (TcpSock → TcpSock) → ℕ → Receiving → Receive
tcp_receive [] len r = if ltb r.rlen len then receive_round len r else finished r
tcp_receive (others ∷ later) len r =
    if ltb r.rlen len
    then elim (receive_round len r) [
      | stuck ↦ stuck
      | finished r' ↦ finished r'
      | asleep r' ↦ tcp_receive later len (record r' { sk = others r'.sk })
    ]
    else finished r

-- What `tcp_read` does before it calls `tcp_receive`: an error, the end of the stream, or neither.
pub data ReadStart : Type 0 where
  refused : ReadStart
  end_of_stream : TcpSock → ReadStart
  receive : ReadStart

unfoldable pub read_start_in : State → TcpSock → ReadStart
read_start_in close sk = refused
read_start_in closing sk = refused
read_start_in last_ack sk = refused
read_start_in time_wait sk = refused
read_start_in close_wait sk =
    if is_empty sk.receive_queue && sk.fin
    then end_of_stream (record sk { fin = false })
    else receive
read_start_in _ sk = receive

unfoldable pub tcp_read : TcpSock → ReadStart
tcp_read sk = read_start_in sk.state sk
