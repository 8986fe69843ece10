-- ===== src/Tcp/Sock.antt =====
-- toy_src/tcp_sock.c, and `tcp_in`, `tcp_done` and `tcp_generate_port` of toy_src/tcp.c. A function
-- that returns a code returns it beside the new state. The walks over the tables skip an address
-- at which no socket is left.
use toy_ip.Base.{
  ℕ, ◌+◌, ◌%◌, Bool, true, false, ◌&&◌, Option, none, some, List, [], ◌∷◌, ◌++◌, u16, ℤ, pos,
  negsuc, ◌==◌, if◌then◌else◌,
}
use toy_ip.Tcp.Types.{
  State, listen, syn_sent, syn_received, established, fin_wait_1, close, close_wait, last_ack, Skb,
  TcpSock, Env, Conn,
}
use toy_ip.Tcp.Core.{set_state, tcp_free_sock}
use toy_ip.Tcp.Output.{is_state, tcp_queue_fin}
use toy_ip.Tcp.Input.{fault, returned, running, unlink_established, tcp_process}
use toy_ip.Tcp.Handshake.{store}
use toy_ip.Tcp.Send.{tcp_begin_connect, tcp_send}

abbrev pub Socks : Type 0
Socks = ℕ → Option TcpSock

-- What a walk over a table finds; `dangling` is a node of a socket that has been freed.
pub data Lookup : Type 0 where
  dangling absent : Lookup
  found : TcpSock → Lookup

-- The walk over a table for the first socket that passes a test.
unfoldable pub find_sock : (TcpSock → Bool) → Socks → List ℕ → Lookup
find_sock test socks [] = absent
find_sock test socks (p ∷ table) =
    let rest = find_sock test socks table in
    elim (socks p) [ none ↦ dangling | some sk ↦ if test sk then found sk else rest ]

abbrev pub is_connection : ℕ → ℕ → ℕ → ℕ → TcpSock → Bool
is_connection src sport dst dport sk =
    (sk.saddr == src) && (sk.sport == sport) && (sk.daddr == dst) && (sk.dport == dport)

abbrev pub is_local : ℕ → ℕ → TcpSock → Bool
is_local src sport sk = (sk.saddr == src) && (sk.sport == sport)

unfoldable pub tcp_lookup_established : ℕ → ℕ → ℕ → ℕ → Env → Lookup
tcp_lookup_established src sport dst dport env =
    find_sock (is_connection src sport dst dport) env.socks env.established

unfoldable pub tcp_lookup_connecting : ℕ → ℕ → Env → Lookup
tcp_lookup_connecting src sport env = find_sock (is_local src sport) env.socks env.connecting

-- The arguments are the source and the destination of a segment that came in.
unfoldable pub tcp_lookup_sock : ℕ → ℕ → ℕ → ℕ → Env → Lookup
tcp_lookup_sock src sport dst dport env = elim (tcp_lookup_established dst dport src sport env) [
  | dangling ↦ dangling
  | absent ↦ tcp_lookup_connecting dst dport env
  | found sk ↦ found sk
]

-- Writes a socket that a function has worked on back; `none` takes the place of one it freed.
unfoldable pub write_back : Conn → Env
write_back c =
    let env = c.env in
    if c.sk.freed
    then record env { socks = λ q. if c.sk.address == q then none else env.socks q }
    else record env { socks = store c.sk.address c.sk env.socks }

-- `tcp_in`, on a buffer as `tcp_init_segment` leaves it. `none` is a fault.
unfoldable pub tcp_in : ℕ → Skb → Env → Option Env
tcp_in isn skb env = elim (tcp_lookup_sock skb.saddr skb.th.sport skb.daddr skb.th.dport env) [
  | dangling ↦ none
  | absent ↦ some (record env { freed = env.freed ++ (skb.address ∷ []) })
  | found sk ↦ elim (tcp_process isn skb (record { sk = sk; env = env })) [
    | fault ↦ none
    | returned c ↦ some (write_back c)
    | running c ↦ some (write_back c)
  ]
]

unfoldable pub tcp_done : Conn → Conn
tcp_done c = tcp_free_sock (unlink_established c)

-- The static counter and the port. `tick` is below 2 ^ 31, so it is the same as an `int`.
unfoldable pub tcp_generate_port : ℕ → ℕ → ℕ × ℕ
tcp_generate_port port tick = (port + 1, u16 (port + 1 + tick % 10000))

abbrev pub ok : ℤ
ok = pos 0

abbrev pub failed : ℤ
failed = negsuc 0

-- `none` here and in `tcp_set_sport` is a walk over a socket that has been freed.
unfoldable pub tcp_port_used : ℕ → Env → Option Bool
tcp_port_used port env = elim (find_sock (λ sk. sk.sport == port) env.socks env.connecting) [
  | dangling ↦ none
  | absent ↦ some false
  | found _ ↦ some true
]

unfoldable pub tcp_set_sport : ℕ → Conn → Option (Conn × ℤ)
tcp_set_sport port c = if port == 0 then some (c, failed) else elim (tcp_port_used port c.env) [
  | none ↦ none
  | some true ↦ some (c, failed)
  | some false ↦ some (record c { sk = record (c.sk) { sport = port } }, ok)
]

abbrev pub may_write : State → Bool
may_write established = true
may_write close_wait = true
may_write _ = false

-- `none` would be a loop of `tcp_send` that does not end.
unfoldable pub tcp_write : List ℕ → Conn → Option (Conn × Bool)
tcp_write bytes c =
    if may_write c.sk.state
    then elim (tcp_send bytes c) [ none ↦ none | some d ↦ some (d, true) ]
    else some (c, false)

-- -EBADF
abbrev pub ebadf : ℤ
ebadf = negsuc 8

-- `tcp_connecting_or_listening_socks_remove` unlinks the socket from the list that it is in.
abbrev pub unlink_connecting : Conn → Conn
unlink_connecting c = unlink_established c

unfoldable pub close_in : State → Conn → Conn × ℤ
close_in listen c = (tcp_free_sock (unlink_connecting (set_state close c)), ok)
close_in syn_sent c = (set_state fin_wait_1 (tcp_queue_fin c), ok)
close_in syn_received c = (set_state fin_wait_1 (tcp_queue_fin c), ok)
close_in established c = (set_state fin_wait_1 (tcp_queue_fin c), ok)
close_in close_wait c = (set_state last_ack (tcp_queue_fin c), ok)
close_in _ c = (record c { sk = record (c.sk) { err = ebadf } }, failed)

unfoldable pub tcp_close : Conn → Conn × ℤ
tcp_close c = close_in c.sk.state c

-- `tcp_v4_connect` up to its `wait_sleep`: `daddr` and `dport` are those of the address in host
-- byte order, `saddr` is the address of the stack, `sport` is a generated port.
unfoldable pub connect_start : (daddr dport saddr sport isn : ℕ) → Conn → Conn
connect_start daddr dport saddr sport isn c =
    let d = tcp_begin_connect isn (record {
      sk = record (c.sk) { dport = dport; sport = sport; daddr = daddr; saddr = saddr };
      env = record (c.env) { connecting = c.env.connecting ++ (c.sk.address ∷ []) };
    }) in
    record d { sk = record (d.sk) { wait_sleeping = true } }

-- `tcp_v4_connect` behind its `wait_sleep`.
unfoldable pub connect_finish : Conn → Conn
connect_finish c =
    let d = unlink_connecting c in
    record d { env = record (d.env) { established = d.env.established ++ (c.sk.address ∷ []) } }

-- A round of `tcp_accept`: `none` sleeps, else the connection at the head is taken off.
unfoldable pub tcp_accept : TcpSock → TcpSock × Option ℕ
tcp_accept sk = elim sk.accept_queue [
  | [] ↦ (record sk { wait_sleeping = true }, none)
  | p ∷ queue ↦ (record sk { accept_queue = queue }, some p)
]

-- `none` is the `list_add_tail` of a socket that listens, and so is in the list, which cuts the ring.
unfoldable pub tcp_listen : Conn → Option (Conn × ℤ)
tcp_listen c =
    if c.sk.sport == 0
    then some (c, failed)
    else if is_state c.sk.state listen
    then none
    else if is_state c.sk.state close
    then some (
      record {
        sk = record (c.sk) { state = listen };
        env = record (c.env) { connecting = c.env.connecting ++ (c.sk.address ∷ []) };
      },
      ok,
    )
    else some (c, failed)
