-- ===== src/Sockets/Calls.antt =====
-- The calls of toy_src/socket.c as values.
use toy_ip.Base.{ℕ, Option, none, some, List}
use toy_ip.Sockets.{Proto, NetOps, Kernel}
use toy_ip.Sockets.Table.{
  socket_call, bind_call, connect_call, write_call, sendto_call, listen_call, read_call,
  recvfrom_call, close_call, accept_call,
}

-- The calls, with what a caller gives them.
pub data SocketCall : Type 0 where
  socket : (junk : Option ℕ) (pid domain type protocol : ℕ) → SocketCall
  bind connect write : (pid sockfd : ℕ) (bytes : List ℕ) → SocketCall
  sendto : (pid sockfd : ℕ) (buf addr : List ℕ) → SocketCall
  listen : (pid sockfd backlog : ℕ) → SocketCall
  read : (pid sockfd : ℕ) (buf : List ℕ) → SocketCall
  recvfrom : (pid sockfd : ℕ) (buf : List ℕ) (addr : Option (List ℕ)) → SocketCall
  close : (pid sockfd : ℕ) → SocketCall
  accept : (junk : Option ℕ) (junk_type pid sockfd : ℕ) (addr : Option (List ℕ)) → SocketCall

-- The state that a call leaves.
abbrev pub last : {T : Type 0} → Option (ℕ × Kernel T) → Option (Kernel T)
last none = none
last (some (rc, k)) = some k

abbrev pub last_read : {T A : Type 0} → Option (ℕ × (A × Kernel T)) → Option (Kernel T)
last_read none = none
last_read (some (rc, (buf, k))) = some k

abbrev pub last_from : {T A B : Type 0} → Option (ℕ × (A × (B × Kernel T))) → Option (Kernel T)
last_from none = none
last_from (some (rc, (buf, (addr, k)))) = some k

abbrev pub run_call : {T : Type 0} → (Proto → NetOps T) → SocketCall → Kernel T → Option (Kernel T)
run_call net_ops (socket junk pid domain type protocol) k =
    last (socket_call net_ops junk pid domain type protocol k)
run_call net_ops (bind pid sockfd addr) k = last (bind_call net_ops pid sockfd addr k)
run_call net_ops (connect pid sockfd addr) k = last (connect_call net_ops pid sockfd addr k)
run_call net_ops (write pid sockfd buf) k = last (write_call net_ops pid sockfd buf k)
run_call net_ops (sendto pid sockfd buf addr) k = last (sendto_call net_ops pid sockfd buf addr k)
run_call net_ops (listen pid sockfd backlog) k = last (listen_call net_ops pid sockfd backlog k)
run_call net_ops (read pid sockfd buf) k = last_read (read_call net_ops pid sockfd buf k)
run_call net_ops (recvfrom pid sockfd buf addr) k =
    last_from (recvfrom_call net_ops pid sockfd buf addr k)
run_call net_ops (close pid sockfd) k = last (close_call net_ops pid sockfd k)
run_call net_ops (accept junk junk_type pid sockfd addr) k =
    last_read (accept_call net_ops junk junk_type pid sockfd addr k)
