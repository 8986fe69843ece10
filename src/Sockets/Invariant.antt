-- ===== src/Sockets/Invariant.antt =====
-- Every call of toy_src/socket.c keeps the table.
use toy_ip.Base.{
  ltb, u32, ◌^◌, ◌<◌, ℕ, ◌+◌, ◌≡◌, refl, sym, ap, subst, ◌∙◌, inl, inr, Option, some, true, false,
  List, [], ◌∷◌, arith, ◌&&◌, ◌==◌, ==_iff, Bool-cases, Option-cases,
}
use toy_ip.Ipc.{is_negative}
use toy_ip.Sockets.{Proto, World, NetOps, Socket, Kernel}
use toy_ip.Sockets.Inet.{inet_create, inet_accept}
use toy_ip.Sockets.Table.{
  get_socket, list_del_socket, alloc_socket, free_socket, socket_sockets_remove, socket_call,
  bind_call, connect_call, write_call, sendto_call, listen_call, read_call, recvfrom_call,
  close_call, accept_call,
}
use toy_ip.Sockets.Calls.{
  SocketCall, socket, bind, connect, write, sendto, listen, read, recvfrom, close, accept, last,
  last_read, last_from, run_call,
}
use toy_ip.Sockets.Fresh.{
  Below, Ready, IsTable, Below-suc, create-same, create-ops, accept-same, accept-ops,
  enqueued-IsTable,
}
use toy_ip.Sockets.Remove.{removed-IsTable}
use toy_ip.Sockets.Close.{free_socket-fault}

list_del_socket-Below :
    (n : ℕ) (sockets : List Socket) → Below n sockets → list_del_socket n sockets ≡ sockets
unfolding list_del_socket
list_del_socket-Below n [] h = refl
list_del_socket-Below n (s ∷ sockets) h = ground (arith, h.0, list_del_socket-Below n sockets h.1)

-- A socket that is found has its functions.
get_socket-Ready :
    (pid fd : ℕ) (sockets : List Socket) (sock : Socket)
    → Ready sockets
    → get_socket pid fd sockets ≡ some sock
    → sock.has_ops ≡ true
unfolding get_socket
get_socket-Ready pid fd [] sock h e = absurd (cc)
get_socket-Ready pid fd (s ∷ sockets) sock h e =
    elim (Bool-cases ((s.pid == pid) && (s.fd == fd))) [
      | inl t ↦ grind (arith, t, e, h.0)
      | inr t ↦ get_socket-Ready pid fd sockets sock h.1 (grind (arith, t, e))
    ]

-- The memory alone changes.
world-IsTable :
    {T : Type 0} (k : Kernel T) (w : World T) → IsTable k → IsTable (record k { world = w })
world-IsTable k w h = record {
  below = h.below;
  differ = h.differ;
  ready = h.ready;
  count = h.count;
}

-- A descriptor is given out and not used.
skipped-IsTable :
    {T : Type 0} (k : Kernel T) (w : World T)
    → IsTable k
    → IsTable (record k { next_fd = k.next_fd + 1; world = w })
skipped-IsTable k w h = record {
  below = Below-suc k.next_fd k.sockets h.below;
  differ = h.differ;
  ready = h.ready;
  count = h.count;
}

-- Freeing takes the socket out of the list, and changes nothing but the memory beside.
free_socket_frame :
    {T : Type 0} (sock : Socket) (k l : Kernel T)
    → free_socket sock k ≡ some l
    → l ≡ record k { sockets = list_del_socket sock.fd k.sockets; world = l.world }
unfolding free_socket
free_socket_frame sock k l e = grind (arith, e)

-- A new socket that is freed was not in the table.
freed-IsTable :
    {T : Type 0} (sock : Socket) (k l : Kernel T) (w : World T)
    → IsTable k
    → sock.fd ≡ k.next_fd
    → free_socket sock (record k { next_fd = k.next_fd + 1; world = w }) ≡ some l
    → IsTable l
freed-IsTable sock k l w h same e =
    let kept : list_del_socket sock.fd k.sockets ≡ k.sockets =
      rw same (list_del_socket-Below k.next_fd k.sockets h.below) in
    subst IsTable
      (sym (
        free_socket_frame sock (record k { next_fd = k.next_fd + 1; world = w }) l e
        ∙ ap (λ x. record k { sockets = x; next_fd = k.next_fd + 1; world = l.world }) kept))
      (skipped-IsTable k l.world h)

module _ {T : Type 0} (net_ops : Proto → NetOps T) (k l : Kernel T) (h : IsTable k)
    (small : k.next_fd + 1 < 2 ^ 31) where
  next : u32 (k.next_fd + 1) ≡ k.next_fd + 1
  next = omega arith

  kept-IsTable : l ≡ record k { world = l.world } → IsTable l
  kept-IsTable e = subst IsTable (sym e) (world-IsTable k l.world h)

  bind-IsTable :
      (pid sockfd : ℕ) (addr : List ℕ)
      → last (bind_call net_ops pid sockfd addr k) ≡ some l
      → IsTable l
  unfolding bind_call
  bind-IsTable pid sockfd addr e = kept-IsTable (grind (arith, e))

  connect-IsTable :
      (pid sockfd : ℕ) (addr : List ℕ)
      → last (connect_call net_ops pid sockfd addr k) ≡ some l
      → IsTable l
  unfolding connect_call
  connect-IsTable pid sockfd addr e = kept-IsTable (grind (arith, e))

  write-IsTable :
      (pid sockfd : ℕ) (buf : List ℕ)
      → last (write_call net_ops pid sockfd buf k) ≡ some l
      → IsTable l
  unfolding write_call
  write-IsTable pid sockfd buf e = kept-IsTable (grind (arith, e))

  sendto-IsTable :
      (pid sockfd : ℕ) (buf addr : List ℕ)
      → last (sendto_call net_ops pid sockfd buf addr k) ≡ some l
      → IsTable l
  unfolding sendto_call
  sendto-IsTable pid sockfd buf addr e = kept-IsTable (grind (arith, e))

  listen-IsTable :
      (pid sockfd backlog : ℕ)
      → last (listen_call net_ops pid sockfd backlog k) ≡ some l
      → IsTable l
  unfolding listen_call
  listen-IsTable pid sockfd backlog e = kept-IsTable (grind (arith, e))

  read-IsTable :
      (pid sockfd : ℕ) (buf : List ℕ)
      → last_read (read_call net_ops pid sockfd buf k) ≡ some l
      → IsTable l
  unfolding read_call
  read-IsTable pid sockfd buf e = kept-IsTable (grind (arith, e))

  recvfrom-IsTable :
      (pid sockfd : ℕ) (buf : List ℕ) (addr : Option (List ℕ))
      → last_from (recvfrom_call net_ops pid sockfd buf addr k) ≡ some l
      → IsTable l
  unfolding recvfrom_call
  recvfrom-IsTable pid sockfd buf addr e = kept-IsTable (grind (arith, e))

  -- A socket cannot be freed, so that a call that returns has left the table as it was.
  close-IsTable : (pid sockfd : ℕ) → last (close_call net_ops pid sockfd k) ≡ some l → IsTable l
  unfolding close_call
  close-IsTable pid sockfd e =
      kept-IsTable (grind (arith, e, h.ready, get_socket-Ready, free_socket-fault))

  accept-IsTable :
      (junk : Option ℕ) (junk_type pid sockfd : ℕ) (addr : Option (List ℕ))
      → last_read (accept_call net_ops junk junk_type pid sockfd addr k) ≡ some l
      → IsTable l
  unfolding accept_call alloc_socket
  accept-IsTable junk junk_type pid sockfd addr e =
      elim (Option-cases (get_socket pid sockfd k.sockets)) [
        | inl n ↦ kept-IsTable (grind (arith, e, n))
        | inr (sock, f) ↦
            let newsock : Socket = record {
              fd = k.next_fd;
              pid = pid;
              type = junk_type;
              sk = junk;
              has_ops = sock.has_ops;
            } in
            elim (Option-cases (inet_accept net_ops sock newsock addr k.world)) [
              | inl n ↦ absurd (grind (arith, e, f, n))
              | inr ((err, (made, (peer, w))), a) ↦ elim (Bool-cases (is_negative err)) [
                | inl t ↦ subst IsTable (grind (arith, next, e, f, a, t)) (skipped-IsTable k w h)
                | inr t ↦
                    let same = accept-same net_ops sock newsock made addr peer err k.world w a in
                    let ops = accept-ops net_ops sock newsock made addr peer err k.world w a in
                    let ready = get_socket-Ready pid sockfd k.sockets sock h.ready f in
                    subst IsTable (grind (arith, next, e, f, a, t))
                      (enqueued-IsTable net_ops k made w h same.0 (ops ∙ ready))
              ]
            ]
      ]

  socket-IsTable :
      (junk : Option ℕ) (pid domain type protocol : ℕ)
      → last (socket_call net_ops junk pid domain type protocol k) ≡ some l
      → IsTable l
  unfolding socket_call alloc_socket
  socket-IsTable junk pid domain type protocol e =
      let fresh : Socket = record {
        fd = k.next_fd;
        pid = pid;
        type = type;
        sk = junk;
        has_ops = false;
      } in
      elim (Bool-cases (ltb domain 128)) [
        | inr n ↦ absurd (grind (arith, e, n))
        | inl low ↦ elim (Bool-cases (domain == 2)) [
          | inr n ↦ freed-IsTable fresh k l k.world h refl (grind (arith, next, e, low, n))
          | inl inet ↦ elim (Option-cases (inet_create net_ops fresh protocol k.world)) [
            | inl n ↦ absurd (grind (arith, e, low, inet, n))
            | inr ((rc, (made, w)), c) ↦
                let same = create-same net_ops fresh made protocol rc k.world w c in
                elim (Bool-cases (rc == 0)) [
                  | inr n ↦
                      freed-IsTable made k l w h same.0 (grind (arith, next, e, low, inet, c, n))
                  | inl z ↦
                      let zero = (==_iff rc 0).0 z in
                      let ops = create-ops net_ops fresh made protocol k.world w (rw zero at c) in
                      subst IsTable (grind (arith, next, e, low, inet, c, z))
                        (enqueued-IsTable net_ops k made w h same.0 ops)
                ]
          ]
        ]
      ]

  returned-IsTable : (c : SocketCall) → run_call net_ops c k ≡ some l → IsTable l
  returned-IsTable (socket junk pid domain type protocol) e =
      socket-IsTable junk pid domain type protocol e
  returned-IsTable (bind pid sockfd addr) e = bind-IsTable pid sockfd addr e
  returned-IsTable (connect pid sockfd addr) e = connect-IsTable pid sockfd addr e
  returned-IsTable (write pid sockfd buf) e = write-IsTable pid sockfd buf e
  returned-IsTable (sendto pid sockfd buf addr) e = sendto-IsTable pid sockfd buf addr e
  returned-IsTable (listen pid sockfd backlog) e = listen-IsTable pid sockfd backlog e
  returned-IsTable (read pid sockfd buf) e = read-IsTable pid sockfd buf e
  returned-IsTable (recvfrom pid sockfd buf addr) e = recvfrom-IsTable pid sockfd buf addr e
  returned-IsTable (close pid sockfd) e = close-IsTable pid sockfd e
  returned-IsTable (accept junk junk_type pid sockfd addr) e =
      accept-IsTable junk junk_type pid sockfd addr e

-- What a thread does to the table: a whole call that returns, or the removal by which `_close`, once
-- the protocol has closed the sock, takes out the socket that it has found.
pub data TableStep {T : Type 0} (net_ops : Proto → NetOps T) (k : Kernel T)
    : Kernel T → Type 0 where
  called : {l : Kernel T} (c : SocketCall) → run_call net_ops c k ≡ some l → TableStep net_ops k l
  removed :
      {sock : Socket} (pid fd : ℕ)
      → get_socket pid fd k.sockets ≡ some sock
      → TableStep net_ops k (socket_sockets_remove sock k)

-- In a table in which the descriptors are different and below the next one, every socket has its
-- functions and the count is that of the sockets, and in which the next descriptor is not the last
-- int: whatever the protocols do and the memory of a new socket held, such a table is left by every
-- call that does not access memory that is not there, whether it succeeds or not, and by the removal
-- of a socket that `_close` has found.
pub TableStep-IsTable :
    {T : Type 0} (net_ops : Proto → NetOps T) (k l : Kernel T)
    → IsTable k
    → k.next_fd + 1 < 2 ^ 31
    → TableStep net_ops k l
    → IsTable l
TableStep-IsTable net_ops k l h small (called c e) = returned-IsTable net_ops k l h small c e
TableStep-IsTable net_ops k l h small (removed {sock} pid fd e) =
    (removed-IsTable pid fd pid (fd + 1) k sock h e (λ same. absurd (omega (arith, same)))).0
