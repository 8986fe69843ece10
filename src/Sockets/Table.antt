-- ===== src/Sockets/Table.antt =====
-- toy_src/socket.c.
use toy_ip.Base.{
  ℕ, u32, ◌+◌, false, not, ◌&&◌, Option, none, some, List, [], ◌∷◌, ◌++◌, ◌==◌, if◌then◌else◌, ltb,
  inc, dec,
}
use toy_ip.Ipc.{minus_one, is_negative}
use toy_ip.Sockets.{Proto, World, store_sk, NetOps, Socket, Kernel}
use toy_ip.Sockets.Inet.{
  with_sk, inet_create, inet_connect, inet_write, inet_read, inet_close, inet_free, inet_bind,
  inet_listen, inet_accept, inet_sendto, inet_recvfrom,
}

unfoldable pub get_socket : (pid fd : ℕ) → List Socket → Option Socket
get_socket pid fd [] = none
get_socket pid fd (sock ∷ sockets) =
    let rest = get_socket pid fd sockets in
    if (sock.pid == pid) && (sock.fd == fd) then some sock else rest

-- `list_del` and `list_del_init` of a socket, which has its descriptor to itself.
unfoldable pub list_del_socket : (fd : ℕ) → List Socket → List Socket
list_del_socket fd [] = []
list_del_socket fd (sock ∷ sockets) =
    let rest = list_del_socket fd sockets in if sock.fd == fd then sockets else sock ∷ rest

unfoldable pub socket_sockets_enqueue : {T : Type 0} → Socket → Kernel T → Kernel T
socket_sockets_enqueue sock k = record k {
  sockets = k.sockets ++ (sock ∷ []);
  socket_count = inc k.socket_count;
}

unfoldable pub socket_sockets_remove : {T : Type 0} → Socket → Kernel T → Kernel T
socket_sockets_remove sock k = record k {
  sockets = list_del_socket sock.fd k.sockets;
  socket_count = dec k.socket_count;
}

-- The memory of a new socket is not cleared: `junk` stands in `sk` and `junk_type` in `type`. The
-- static `fd` has 32 bits.
unfoldable pub alloc_socket :
    {T : Type 0} (junk : Option ℕ) (junk_type pid : ℕ) → Kernel T → Socket × Kernel T
alloc_socket junk junk_type pid k = (
  record { fd = k.next_fd; pid = pid; type = junk_type; sk = junk; has_ops = false },
  record k { next_fd = u32 (k.next_fd + 1) },
)

-- `if (sock->sk) sock->sk->sock = NULL`
abbrev pub disown : {T : Type 0} → Option ℕ → World T → Option (World T)
disown none w = some w
disown (some a) w =
    with_sk (some a) w (λ b sk. some (store_sk b (some (record sk { owner = none })) w))

unfoldable pub free_socket : {T : Type 0} → Socket → Kernel T → Option (Kernel T)
free_socket sock k = elim (if sock.has_ops then inet_free sock k.world else some k.world) [
  | none ↦ none
  | some w ↦ elim (disown sock.sk w) [
    | none ↦ none
    | some v ↦ some (record k { sockets = list_del_socket sock.fd k.sockets; world = v })
  ]
]

module _ {T : Type 0} (net_ops : Proto → NetOps T) where
  -- The label `abort_socket`.
  abbrev pub abort_socket : Socket → Kernel T → Option (ℕ × Kernel T)
  abort_socket sock k = elim (free_socket sock k) [ none ↦ none | some l ↦ some (minus_one, l) ]

  -- `families` has 128 entries, and all but that of AF_INET, 2, are NULL.
  unfoldable pub socket_call :
      (junk : Option ℕ) (pid domain type protocol : ℕ) → Kernel T → Option (ℕ × Kernel T)
  socket_call junk pid domain type protocol k =
      let (fresh, l) = alloc_socket junk type pid k in
      let sock = record fresh { type = type } in
      if not (ltb domain 128)
      then none
      else if not (domain == 2)
      then abort_socket sock l
      else elim (inet_create net_ops sock protocol l.world) [
        | none ↦ none
        | some (rc, (made, w)) ↦
            let m = record l { world = w } in
            if not (rc == 0)
            then abort_socket made m
            else some (made.fd, socket_sockets_enqueue made m)
      ]

  -- A call on a socket of the table, and its effect on the memory alone.
  abbrev pub on_socket :
      (pid sockfd : ℕ)
      → (Socket → World T → Option (ℕ × World T))
      → Kernel T
      → Option (ℕ × Kernel T)
  on_socket pid sockfd call k = elim (get_socket pid sockfd k.sockets) [
    | none ↦ some (minus_one, k)
    | some sock ↦ elim (call sock k.world) [
      | none ↦ none
      | some (rc, w) ↦ some (rc, record k { world = w })
    ]
  ]

  unfoldable pub bind_call : (pid sockfd : ℕ) → List ℕ → Kernel T → Option (ℕ × Kernel T)
  bind_call pid sockfd addr k = on_socket pid sockfd (λ sock w. inet_bind net_ops sock addr w) k

  unfoldable pub connect_call : (pid sockfd : ℕ) → List ℕ → Kernel T → Option (ℕ × Kernel T)
  connect_call pid sockfd addr k =
      on_socket pid sockfd (λ sock w. inet_connect net_ops sock addr w) k

  unfoldable pub write_call : (pid sockfd : ℕ) → List ℕ → Kernel T → Option (ℕ × Kernel T)
  write_call pid sockfd buf k = on_socket pid sockfd (λ sock w. inet_write net_ops sock buf w) k

  unfoldable pub sendto_call :
      (pid sockfd : ℕ) → (buf addr : List ℕ) → Kernel T → Option (ℕ × Kernel T)
  sendto_call pid sockfd buf addr k =
      on_socket pid sockfd (λ sock w. inet_sendto net_ops sock buf addr w) k

  unfoldable pub listen_call : (pid sockfd backlog : ℕ) → Kernel T → Option (ℕ × Kernel T)
  listen_call pid sockfd backlog k =
      if is_negative backlog
      then some (minus_one, k)
      else on_socket pid sockfd (λ sock w. inet_listen net_ops sock backlog w) k

  unfoldable pub read_call : (pid sockfd : ℕ) → List ℕ → Kernel T → Option (ℕ × (List ℕ × Kernel T))
  read_call pid sockfd buf k = elim (get_socket pid sockfd k.sockets) [
    | none ↦ some (minus_one, (buf, k))
    | some sock ↦ elim (inet_read net_ops sock buf k.world) [
      | none ↦ none
      | some (rc, (filled, w)) ↦ some (rc, (filled, record k { world = w }))
    ]
  ]

  unfoldable pub recvfrom_call :
      (pid sockfd : ℕ)
      → List ℕ
      → Option (List ℕ)
      → Kernel T
      → Option (ℕ × (List ℕ × (Option (List ℕ) × Kernel T)))
  recvfrom_call pid sockfd buf addr k = elim (get_socket pid sockfd k.sockets) [
    | none ↦ some (minus_one, (buf, (addr, k)))
    | some sock ↦ elim (inet_recvfrom net_ops sock buf addr k.world) [
      | none ↦ none
      | some (rc, (filled, (from, w))) ↦ some (rc, (filled, (from, record k { world = w })))
    ]
  ]

  unfoldable pub close_call : (pid sockfd : ℕ) → Kernel T → Option (ℕ × Kernel T)
  close_call pid sockfd k = elim (get_socket pid sockfd k.sockets) [
    | none ↦ some (minus_one, k)
    | some sock ↦ elim (inet_close net_ops sock k.world) [
      | none ↦ none
      | some (rc, w) ↦
          let l = record k { world = w } in
          if not (rc == 0)
          then some (rc, l)
          else elim (free_socket sock (socket_sockets_remove sock l)) [
            | none ↦ none
            | some m ↦ some (rc, m)
          ]
    ]
  ]

  -- A new socket that is not taken is freed and its descriptor not used again.
  unfoldable pub accept_call :
      (junk : Option ℕ) (junk_type pid sockfd : ℕ)
      → Option (List ℕ)
      → Kernel T
      → Option (ℕ × (Option (List ℕ) × Kernel T))
  accept_call junk junk_type pid sockfd skaddr k = elim (get_socket pid sockfd k.sockets) [
    | none ↦ some (minus_one, (skaddr, k))
    | some sock ↦
        let (fresh, l) = alloc_socket junk junk_type pid k in
        let newsock = record fresh { has_ops = sock.has_ops } in
        elim (inet_accept net_ops sock newsock skaddr l.world) [
          | none ↦ none
          | some (err, (made, (peer, w))) ↦
              let m = record l { world = w } in
              if is_negative err
              then some (minus_one, (peer, m))
              else some (made.fd, (peer, socket_sockets_enqueue made m))
        ]
  ]
