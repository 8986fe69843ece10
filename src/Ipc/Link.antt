-- ===== src/Ipc/Link.antt =====
-- One connection between an application and the stack: the loop of `socket_ipc_open` in
-- toy_src/ipc.c as the peer of the application's calls.
use toy_ip.Base.{ℕ, Option, none, some, List, ◌++◌, ◌==◌, if◌then◌else◌, length, take, drop}
use toy_ip.Ipc.{minus_one, Api}
use toy_ip.Ipc.Server.{Connection, Handled, fault, handled, demux_ipc_socket_call}

-- What one round of the loop comes to: the connection is closed by the application, is closed
-- because a handler failed, or waits for the next message. `buf` is what the thread's buffer holds.
pub data IpcRound (S : Type 0) : Type 0 where
  overrun : IpcRound S
  ended broken : Connection S → IpcRound S
  next : (buf : List ℕ) → Connection S → IpcRound S

abbrev pub after : {S : Type 0} (buf : List ℕ) → Handled S → IpcRound S
after buf fault = overrun
after buf (handled rc c) = if rc == minus_one then broken c else next buf c

-- The connection and what the thread's buffer holds.
pub record Served (S : Type 0) : Type 0 where
  pub conn : Connection S
  pub buf : List ℕ

abbrev pub answered : {S : Type 0} (n : ℕ) → IpcRound S → Option (List ℕ × Served S)
answered n (next buf c) =
    some (take n c.replies, record { conn = record c { replies = drop n c.replies }; buf = buf })
answered n _ = none

module _ {S : Type 0} (api : Api S) (sockfd : ℕ) (junk : ℕ → ℕ) where
  -- `read(sockfd, buf, blen)` over what the buffer of 4096 bytes held, and the dispatch.
  unfoldable pub socket_ipc_round : (buf : List ℕ) → Connection S → IpcRound S
  socket_ipc_round buf c =
      let chunk = take 4096 c.pending in
      let filled = chunk ++ drop (length chunk) buf in
      let left = record c { pending = drop 4096 c.pending } in
      if length chunk == 0
      then ended left
      else after filled (demux_ipc_socket_call api sockfd junk filled left)

  -- The application writes a message, the stack takes one round, the application reads.
  unfoldable pub peer : (lvlfd n : ℕ) → List ℕ → Served S → Option (List ℕ × Served S)
  peer lvlfd n msg w =
      answered n (socket_ipc_round w.buf (record w.conn { pending = w.conn.pending ++ msg }))
