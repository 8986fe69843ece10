-- ===== src/Ipc/Threads.antt =====
-- The connections of toy_src/ipc.c, and the loop of `socket_ipc_open` on the thread of one of them.
use toy_ip.Base.{
  refl, ℕ, zero, suc, ◌<◌, ◌≤◌, ◌≡◌, Option, none, some, List, [], ◌∷◌, ◌++◌, arith, ◌==◌,
  if◌then◌else◌, length, drop, take, length-drop, length-take, Bool-cases, inl, inr, false, ℤ, inc,
  dec,
}
use toy_ip.Ipc.{minus_one, Api}
use toy_ip.Ipc.Server.{
  Connection, Handled, fault, handled, ipc_write_rc, ipc_socket, ipc_connect, ipc_close, ipc_bind,
  ipc_listen, gather, ipc_write, ipc_sendto, read_response, ipc_read, recvfrom_response,
  ipc_recvfrom, ipc_accept, demux_ipc_socket_call,
}
use toy_ip.Ipc.Link.{overrun, ended, broken, next, after, socket_ipc_round}

-- `connections`, by the descriptors of their sockets, and `conn_count`.
pub record Threads : Type 0 where
  pub connections : List ℕ
  pub conn_count : ℤ

unfoldable pub ipc_connections_enqueue : ℕ → Threads → Threads
ipc_connections_enqueue sock t = record {
  connections = t.connections ++ (sock ∷ []);
  conn_count = inc t.conn_count;
}

unfoldable pub ipc_alloc_thread : ℕ → Threads → Threads
ipc_alloc_thread sock t = ipc_connections_enqueue sock t

-- The walk of `ipc_free_thread` up to its `break`, from the connections `before` on.
unfoldable pub free_from : (before : List ℕ) → ℕ → List ℕ → ℤ → Threads
free_from before sock [] count = record { connections = before; conn_count = count }
free_from before sock (th ∷ connections) count =
    let rest = free_from (before ++ (th ∷ [])) sock connections count in
    if th == sock
    then record { connections = before ++ connections; conn_count = dec count }
    else rest

unfoldable pub ipc_free_thread : ℕ → Threads → Threads
ipc_free_thread sock t = free_from [] sock t.connections t.conn_count

module _ {S : Type 0} (api : Api S) (sockfd : ℕ) (junk : ℕ → ℕ) where
  -- What the thread ends with: `none` is an access behind the end of a buffer.
  abbrev pub ThreadEnd : Type 0
  ThreadEnd = Option (Connection S × Threads)

  -- After a handler that failed the connection stays in the list. The outer `none` is fuel that
  -- does not last.
  unfoldable pub socket_ipc_open :
      (fuel : ℕ) (buf : List ℕ) → Connection S → Threads → Option ThreadEnd
  socket_ipc_open zero buf c t = none
  socket_ipc_open (suc fuel) buf c t = elim (socket_ipc_round api sockfd junk buf c) [
    | overrun ↦ some none
    | ended d ↦ some (some (d, ipc_free_thread sockfd t))
    | broken d ↦ some (some (d, t))
    | next buf' d ↦ socket_ipc_open fuel buf' d t
  ]

  -- A handler that returns does so with 0, and reads no more than there is. The read of
  -- `ipc_write` and `ipc_sendto` that may fail comes behind a copy of 4096 bytes from a message of
  -- fewer, which is a fault.
  Shrinks : (Connection S → Handled S) → Type 0
  Shrinks f =
      (c d : Connection S) (rc : ℕ)
      → f c ≡ handled rc d
      → (rc ≡ 0) × (length d.pending ≤ length c.pending)

  rc-pending : (pid type rc : ℕ) → Shrinks (ipc_write_rc api sockfd junk pid type rc)
  unfolding Shrinks ipc_write_rc
  rc-pending pid type rc c d n e = grind (arith, e)

  gather-pending :
      (offset len : ℕ) (msg buf : List ℕ) (c d : Connection S)
      → gather api sockfd junk offset len msg c ≡ some (buf, d)
      → length d.pending ≤ length c.pending
  unfolding gather
  gather-pending offset len msg buf c d e = grind (arith, e, length-drop {0})

  socket-pending : (pid : ℕ) (msg : List ℕ) → Shrinks (ipc_socket api sockfd junk pid msg)
  unfolding Shrinks ipc_socket ipc_write_rc
  socket-pending pid msg c d rc e = grind (arith, e)

  connect-pending : (pid : ℕ) (msg : List ℕ) → Shrinks (ipc_connect api sockfd junk pid msg)
  unfolding Shrinks ipc_connect ipc_write_rc
  connect-pending pid msg c d rc e = grind (arith, e)

  close-pending : (pid : ℕ) (msg : List ℕ) → Shrinks (ipc_close api sockfd junk pid msg)
  unfolding Shrinks ipc_close ipc_write_rc
  close-pending pid msg c d rc e = grind (arith, e)

  bind-pending : (pid : ℕ) (msg : List ℕ) → Shrinks (ipc_bind api sockfd junk pid msg)
  unfolding Shrinks ipc_bind ipc_write_rc
  bind-pending pid msg c d rc e = grind (arith, e)

  listen-pending : (pid : ℕ) (msg : List ℕ) → Shrinks (ipc_listen api sockfd junk pid msg)
  unfolding Shrinks ipc_listen ipc_write_rc
  listen-pending pid msg c d rc e = grind (arith, e)

  accept-pending : (pid : ℕ) (msg : List ℕ) → Shrinks (ipc_accept api sockfd junk pid msg)
  unfolding Shrinks ipc_accept ipc_write_rc
  accept-pending pid msg c d rc e = grind (arith, e)

  read-pending : (pid : ℕ) (msg : List ℕ) → Shrinks (ipc_read api sockfd junk pid msg)
  unfolding Shrinks ipc_read read_response
  read-pending pid msg c d rc e = grind (arith, e)

  recvfrom-pending : (pid : ℕ) (msg : List ℕ) → Shrinks (ipc_recvfrom api sockfd junk pid msg)
  unfolding Shrinks ipc_recvfrom recvfrom_response
  recvfrom-pending pid msg c d rc e = grind (arith, e)

  write-pending : (pid : ℕ) (msg : List ℕ) → Shrinks (ipc_write api sockfd junk pid msg)
  unfolding Shrinks ipc_write ipc_write_rc
  write-pending pid msg c d rc e = grind (arith, e, gather-pending)

  sendto-pending : (pid : ℕ) (msg : List ℕ) → Shrinks (ipc_sendto api sockfd junk pid msg)
  unfolding Shrinks ipc_sendto ipc_write_rc
  sendto-pending pid msg c d rc e = grind (arith, e, gather-pending)

  demux-pending : (cmdbuf : List ℕ) → Shrinks (demux_ipc_socket_call api sockfd junk cmdbuf)
  unfolding Shrinks demux_ipc_socket_call
  demux-pending cmdbuf c d rc e = grind (
    arith, e, socket-pending, connect-pending, close-pending, bind-pending, listen-pending,
    accept-pending, read-pending, recvfrom-pending, write-pending, sendto-pending,
  )

  after-next :
      (buf buf' : List ℕ) (d : Connection S) (x : Handled S)
      → after buf x ≡ next buf' d
      → (rc : ℕ) × (x ≡ handled rc d)
  after-next buf buf' d fault e = absurd (cc)
  after-next buf buf' d (handled rc c) e = (rc, grind (arith, e))

  after-broken :
      (buf : List ℕ) (d : Connection S) (x : Handled S)
      → after buf x ≡ broken d
      → (rc : ℕ) × (e : Connection S) × (x ≡ handled rc e) × (rc ≡ minus_one)
  after-broken buf d fault e = absurd (cc)
  after-broken buf d (handled rc c) e = (rc, c, refl, ground (arith, e))

  -- No handler fails.
  pub round-broken :
      (buf : List ℕ) (c d : Connection S) → ¬ (socket_ipc_round api sockfd junk buf c ≡ broken d)
  unfolding Shrinks socket_ipc_round
  round-broken buf c d e =
      let chunk = take 4096 c.pending in
      let left = record c { pending = drop 4096 c.pending } in
      elim (Bool-cases (length chunk == 0)) [
        | inl z ↦ absurd (grind (arith, e, z))
        | inr z ↦
            let filled = chunk ++ drop (length chunk) buf in
            let (rc, l, done, failed) =
              after-broken filled d (demux_ipc_socket_call api sockfd junk filled left)
                (rw (socket_ipc_round, z) at e) in
            absurd (omega (arith, failed, (demux-pending filled left l rc done).0))
      ]

  not_zero : (n : ℕ) → (n == 0) ≡ false → 0 < n
  not_zero n h = ground (arith, h)

  -- A round after which the thread waits for the next message has read something.
  pub round-pending :
      (buf buf' : List ℕ) (c d : Connection S)
      → socket_ipc_round api sockfd junk buf c ≡ next buf' d
      → length d.pending < length c.pending
  unfolding Shrinks socket_ipc_round
  round-pending buf buf' c d e =
      let chunk = take 4096 c.pending in
      let left = record c { pending = drop 4096 c.pending } in
      elim (Bool-cases (length chunk == 0)) [
        | inl z ↦ absurd (grind (arith, e, z))
        | inr z ↦
            let filled = chunk ++ drop (length chunk) buf in
            let (rc, done) =
              after-next filled buf' d (demux_ipc_socket_call api sockfd junk filled left)
                (rw (socket_ipc_round, z) at e) in
            omega (
              arith,
              (demux-pending filled left d rc done).1,
              length-drop 4096 c.pending,
              length-take 4096 c.pending,
              not_zero (length chunk) z,
            )
      ]
