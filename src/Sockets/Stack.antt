-- ===== src/Sockets/Stack.antt =====
-- The functions of toy_src/socket.c behind the messages of toy_src/ipc.c. The state is `none`
-- from an access to memory that is not there on.
use toy_ip.Base.{ℕ, Option, none, some, List, []}
use toy_ip.Ipc.{Api}
use toy_ip.Sockets.{Proto, NetOps, Kernel}
use toy_ip.Sockets.Table.{
  socket_call, bind_call, connect_call, write_call, sendto_call, listen_call, read_call,
  recvfrom_call, close_call, accept_call,
}

abbrev pub addr_bytes : Option (List ℕ) → List ℕ
addr_bytes none = []
addr_bytes (some bytes) = bytes

abbrev pub while_up : {T A : Type 0} → A → (Kernel T → A) → Option (Kernel T) → A
while_up stopped f none = stopped
while_up stopped f (some k) = f k

module _ {T : Type 0} where
  -- What a call that returns an int, a buffer, or a buffer and an address leaves.
  abbrev pub settle : Option (ℕ × Kernel T) → ℕ × Option (Kernel T)
  settle none = (0, none)
  settle (some (rc, k)) = (rc, some k)

  abbrev pub settle_with :
      {A : Type 0} (missing : A) → Option (ℕ × (A × Kernel T)) → ℕ × (A × Option (Kernel T))
  settle_with missing none = (0, (missing, none))
  settle_with missing (some (rc, (a, k))) = (rc, (a, some k))

  abbrev pub settle_from :
      Option (ℕ × (List ℕ × (Option (List ℕ) × Kernel T)))
      → ℕ × (List ℕ × (List ℕ × Option (Kernel T)))
  settle_from none = (0, ([], ([], none)))
  settle_from (some (rc, (buf, (addr, k)))) = (rc, (buf, (addr_bytes addr, some k)))

  abbrev pub settle_accept :
      Option (ℕ × (Option (List ℕ) × Kernel T)) → ℕ × (List ℕ × Option (Kernel T))
  settle_accept none = (0, ([], none))
  settle_accept (some (rc, (addr, k))) = (rc, (addr_bytes addr, some k))

  -- `junk` and `junk_type` are what the memory of a new socket holds.
  unfoldable pub stack_api :
      (Proto → NetOps T) → (junk : Option ℕ) (junk_type : ℕ) → Api (Option (Kernel T))
  stack_api net_ops junk junk_type = record {
    socket_call = λ pid domain type protocol s.
        while_up (0, none) (λ k. settle (socket_call net_ops junk pid domain type protocol k)) s;
    connect_call =
        λ pid fd addr s. while_up (0, none) (λ k. settle (connect_call net_ops pid fd addr k)) s;
    write_call =
        λ pid fd buf s. while_up (0, none) (λ k. settle (write_call net_ops pid fd buf k)) s;
    read_call = λ pid fd buf s.
        while_up (0, (buf, none)) (λ k. settle_with buf (read_call net_ops pid fd buf k)) s;
    close_call = λ pid fd s. while_up (0, none) (λ k. settle (close_call net_ops pid fd k)) s;
    bind_call =
        λ pid fd addr s. while_up (0, none) (λ k. settle (bind_call net_ops pid fd addr k)) s;
    accept_call = λ pid fd addr s.
        while_up (0, ([], none))
          (λ k. settle_accept (accept_call net_ops junk junk_type pid fd addr k)) s;
    listen_call = λ pid fd backoff s.
        while_up (0, none) (λ k. settle (listen_call net_ops pid fd backoff k)) s;
    sendto_call = λ pid fd buf addr s.
        while_up (0, none) (λ k. settle (sendto_call net_ops pid fd buf addr k)) s;
    recvfrom_call = λ pid fd buf addr s.
        while_up (0, (buf, ([], none))) (λ k. settle_from (recvfrom_call net_ops pid fd buf addr k))
          s;
  }
