-- ===== src/Sockets/Inet.antt =====
-- toy_src/inet.c and toy_src/sock.c, with `local_ipaddress` of toy_src/netdev.c.
use toy_ip.Base.{
  ℕ, Bool, true, not, ◌||◌, Option, none, some, List, [], ◌∷◌, ◌++◌, ◌==◌, if◌then◌else◌,
}
use toy_ip.Ip.{be16, be32, net16, net32}
use toy_ip.Route.{loop, netdev, device_addr}
use toy_ip.Ipc.{minus_one, is_negative}
use toy_ip.Sockets.{Proto, Sk, World, store_sk, NetOps, Socket, sock_type}

unfoldable pub local_ipaddress : ℕ → Bool
local_ipaddress addr = (addr == 0) || ((addr == device_addr netdev) || (addr == device_addr loop))

-- The port and the address of the bytes of a `struct sockaddr_in`, in host order; 0 where there
-- are not 16 bytes.
abbrev pub sin_port : List ℕ → ℕ
sin_port (_ ∷ _ ∷ p ∷ q ∷ _) = be16 p q
sin_port _ = 0

abbrev pub sin_addr : List ℕ → ℕ
sin_addr (_ ∷ _ ∷ _ ∷ _ ∷ a ∷ b ∷ c ∷ d ∷ _) = be32 a b c d
sin_addr _ = 0

abbrev pub set_peer : (addr port : ℕ) → List ℕ → List ℕ
set_peer addr port (f ∷ g ∷ _ ∷ _ ∷ _ ∷ _ ∷ _ ∷ _ ∷ rest) =
    f ∷ g ∷ net16 port ++ (net32 addr ++ rest)
set_peer addr port skaddr = skaddr

-- The sock at an address; NULL and freed memory are `none`.
abbrev pub with_sk : {T A : Type 0} → Option ℕ → World T → (ℕ → Sk → Option A) → Option A
with_sk none w f = none
with_sk (some a) w f = elim (w.heap a) [ none ↦ none | some sk ↦ f a sk ]

-- A function of the table that is there.
abbrev pub present : {F A : Type 0} → Option F → (F → Option A) → Option A
present none f = none
present (some g) f = f g

-- `sk_free` destroys the queues and the lock.
unfoldable pub sk_free : {T : Type 0} → ℕ → Sk → World T → World T
sk_free a sk w = store_sk a (some (record sk { receive_queue = []; write_queue = [] })) w

unfoldable pub inet_free : {T : Type 0} → Socket → World T → Option (World T)
inet_free sock w = with_sk sock.sk w (λ a sk. some (store_sk a none (sk_free a sk w)))

module _ {T : Type 0} (net_ops : Proto → NetOps T) where
  unfoldable pub sk_alloc : Proto → (protocol : ℕ) → World T → Option (ℕ × World T)
  sk_alloc proto protocol w =
      let (a, v) = (net_ops proto).alloc_sock protocol w in
      with_sk (some a) v (λ b sk. some (b, store_sk b (some (record sk { ops = proto })) v))

  -- With `sk->sock = sock` behind it, which stands in `sk_init_with_socket`.
  unfoldable pub sk_init_with_socket : Socket → ℕ → World T → Option (Socket × World T)
  sk_init_with_socket sock a w = with_sk (some a) w (λ b sk.
      let cleared = record sk { owner = none; receive_queue = []; write_queue = [] } in
      let v = (net_ops sk.ops).init b (store_sk b (some cleared) w) in
      with_sk (some b) v (λ c sk.
        some
          (record sock { sk = some c }, store_sk c (some (record sk { owner = some sock.fd })) v)))

  unfoldable pub inet_create : Socket → (protocol : ℕ) → World T → Option (ℕ × (Socket × World T))
  inet_create sock protocol w = elim (sock_type sock.type) [
    | none ↦ some (1, (sock, w))
    | some proto ↦ elim (sk_alloc proto protocol w) [
      | none ↦ none
      | some (a, v) ↦ with_sk (some a) v (λ b sk.
          elim (sk_init_with_socket (record sock { has_ops = true }) b
            (store_sk b (some (record sk { protocol = protocol })) v)) [
              | none ↦ none
              | some done ↦ some (0, done)
            ])
    ]
  ]

  unfoldable pub inet_connect : Socket → List ℕ → World T → Option (ℕ × World T)
  inet_connect sock addr w = with_sk sock.sk w (λ a sk.
      if not (sk.sport == 0) then some (minus_one, w) else elim (net_ops sk.ops).connect [
        | none ↦ some (minus_one, w)
        | some connect ↦ some (connect a addr w)
      ])

  unfoldable pub inet_write : Socket → List ℕ → World T → Option (ℕ × World T)
  inet_write sock buf w = with_sk sock.sk w (λ a sk. some ((net_ops sk.ops).send_buf a buf w))

  unfoldable pub inet_read : Socket → List ℕ → World T → Option (ℕ × (List ℕ × World T))
  inet_read sock buf w = with_sk sock.sk w (λ a sk. some ((net_ops sk.ops).recv_buf a buf w))

  unfoldable pub inet_sendto : Socket → (buf addr : List ℕ) → World T → Option (ℕ × World T)
  inet_sendto sock buf addr w =
      with_sk sock.sk w (λ a sk. some ((net_ops sk.ops).send_to a buf addr w))

  unfoldable pub inet_recvfrom :
      Socket
      → List ℕ
      → Option (List ℕ)
      → World T
      → Option (ℕ × (List ℕ × (Option (List ℕ) × World T)))
  inet_recvfrom sock buf addr w =
      with_sk sock.sk w (λ a sk. some ((net_ops sk.ops).recv_from a buf addr w))

  -- `err = sk->err` and the unlock come after the protocol's `close`.
  unfoldable pub inet_close : Socket → World T → Option (ℕ × World T)
  inet_close sock w = with_sk sock.sk w (λ a sk.
      let v = ((net_ops sk.ops).close a w).1 in with_sk (some a) v (λ b after. some (after.err, v)))

  -- The port of a sock whose protocol has no `bind`.
  unfoldable pub set_port : (a : ℕ) → Sk → (bindaddr bindport : ℕ) → World T → Option (ℕ × World T)
  set_port a sk bindaddr bindport w =
      let bound = store_sk a (some (record sk { saddr = bindaddr })) w in
      elim (net_ops sk.ops).set_sport [
        | none ↦ some (
          0,
          store_sk a (some (record sk { saddr = bindaddr; sport = bindport; dport = 0; daddr = 0 }))
              w,
        )
        | some set_sport ↦
            let (err, v) = set_sport a bindport bound in
            with_sk (some a) v (λ b after.
              if is_negative err
              then some (err, store_sk b (some (record after { saddr = 0 })) v)
              else some (0, store_sk b (some (record after { dport = 0; daddr = 0 })) v))
      ]

  unfoldable pub inet_bind : Socket → List ℕ → World T → Option (ℕ × World T)
  inet_bind sock skaddr w = with_sk sock.sk w (λ a sk.
      if not (sk.sport == 0)
      then some (minus_one, w)
      else if not (local_ipaddress (sin_addr skaddr))
      then some (minus_one, w)
      else elim (net_ops sk.ops).bind [
        | none ↦ set_port a sk (sin_addr skaddr) (sin_port skaddr) w
        | some bind ↦ some (bind a skaddr w)
      ])

  -- SOCK_STREAM is 1; a table without `listen` or `accept` makes the code call NULL.
  unfoldable pub inet_listen : Socket → (backlog : ℕ) → World T → Option (ℕ × World T)
  inet_listen sock backlog w =
      if not (sock.type == 1)
      then some (minus_one, w)
      else with_sk sock.sk w
          (λ a sk. present (net_ops sk.ops).listen (λ listen. some (listen a backlog w)))

  -- What is accepted goes to the new socket, and its peer to the caller's address.
  abbrev pub accepted :
      Socket
      → Option (List ℕ)
      → Option ℕ × World T
      → Option (ℕ × (Socket × (Option (List ℕ) × World T)))
  accepted newsock skaddr (none, v) = some (minus_one, (newsock, (skaddr, v)))
  accepted newsock skaddr (some c, v) = with_sk (some c) v (λ b sk.
      let peer : Option (List ℕ) = elim skaddr [
        | none ↦ none
        | some bytes ↦ some (set_peer sk.daddr sk.dport bytes)
      ] in
      elim (sk_init_with_socket newsock b v) [
        | none ↦ none
        | some (sock, u) ↦ some (0, (sock, (peer, u)))
      ])

  unfoldable pub inet_accept :
      Socket
      → Socket
      → Option (List ℕ)
      → World T
      → Option (ℕ × (Socket × (Option (List ℕ) × World T)))
  inet_accept sock newsock skaddr w = elim sock.sk [
    | none ↦ some (minus_one, (newsock, (skaddr, w)))
    | some a ↦ with_sk (some a) w (λ b sk.
        if sk.sport == 0
        then some (minus_one, (newsock, (skaddr, w)))
        else present (net_ops sk.ops).accept (λ accept. accepted newsock skaddr (accept b w)))
  ]
