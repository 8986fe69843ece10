-- ===== src/Sockets/Tests.antt =====
-- Protocols that keep the address of the next sock, and do nothing else.
use toy_ip.Base.{Option, List, ℕ, ◌+◌, ◌≡◌, refl, none, some, true, [], ◌∷◌, arith, pos}
use toy_ip.Sockets.{Proto, tcp, Sk, store_sk, NetOps, Socket, Kernel, sock_type}
use toy_ip.Sockets.Inet.{inet_create, inet_close, sk_alloc, sk_init_with_socket}
use toy_ip.Sockets.Table.{
  socket_sockets_remove, get_socket, list_del_socket, alloc_socket, free_socket, socket_call,
  close_call,
}
use toy_ip.Ipc.{minus_one}
use toy_ip.Ipc.Client.{Client, returned, lvlip_get_sock}
use toy_ip.Ipc.Link.{Served, peer}
use toy_ip.Ipc.Wire.{at_rest}
use toy_ip.Ipc.Calls.{write, issue}
use toy_ip.Sockets.Stack.{stack_api}
use toy_ip.Sockets.Isolation.{issue-unknown}
use toy_ip.Sockets.Fresh.{IsTable, socket_call-IsTable}
use toy_ip.Sockets.Calls.{socket}
use toy_ip.Sockets.Invariant.{TableStep, called, removed, TableStep-IsTable}
use toy_ip.Sockets.Close.{close_call-fault}

abbrev blank : Sk
blank = record {
  ops = tcp;
  protocol = 0;
  receive_queue = [];
  write_queue = [];
  err = 0;
  sport = 0;
  dport = 0;
  saddr = 0;
  daddr = 0;
  owner = none;
}

abbrev idle : Proto → NetOps ℕ
idle proto = record {
  alloc_sock =
      λ protocol w. (w.rest, record (store_sk w.rest (some blank) w) { rest = w.rest + 1 });
  init = λ a w. w;
  connect = none;
  send_buf = λ a buf w. (0, w);
  send_to = λ a buf addr w. (0, w);
  recv_buf = λ a buf w. (0, (buf, w));
  recv_from = λ a buf addr w. (0, (buf, (addr, w)));
  bind = none;
  close = λ a w. (0, w);
  listen = none;
  accept = none;
  set_sport = none;
}

abbrev first : Socket
first = record { fd = 4097; pid = 7; type = 1; sk = some 0; has_ops = true }

abbrev kernel : Kernel ℕ
kernel = record {
  sockets = first ∷ [];
  socket_count = pos 1;
  next_fd = 4098;
  world = store_sk 0 (some blank) (record { heap = λ a. none; rest = 1 });
}

abbrev kernel-IsTable : IsTable kernel
kernel-IsTable = record {
  below = (omega arith, tt);
  differ = (tt, tt);
  ready = (refl, tt);
  count = refl;
}

abbrev made : Socket
made = record { fd = 4098; pid = 8; type = 1; sk = some 1; has_ops = true }

close_call-fault_example : close_call idle 7 4097 kernel ≡ none
unfolding inet_close store_sk get_socket
close_call-fault_example = close_call-fault idle 7 4097 kernel first kernel.world refl refl refl

socket_call-IsTable_example :
    (get_socket 8 4098 kernel.sockets ≡ none)
    × (l : Kernel ℕ) × (socket_call idle (some 99) 8 2 1 0 kernel ≡ some (4098, l))
    × IsTable l
    × (get_socket 8 4098 l.sockets ≡ some made)
    × (get_socket 7 4097 l.sockets ≡ get_socket 7 4097 kernel.sockets)
unfolding inet_create sk_alloc sk_init_with_socket store_sk sock_type
socket_call-IsTable_example =
    socket_call-IsTable idle (some 99) 8 1 0 kernel made _ 7 4097 kernel-IsTable (omega arith)
      (λ e. absurd (omega (arith, e))) refl

abbrev kernel_after : Kernel ℕ
kernel_after = record kernel { next_fd = 4099 }

-- A call for a domain that is not supported.
unsupported : TableStep idle kernel kernel_after
unfolding socket_call alloc_socket free_socket list_del_socket
unsupported = called (socket none 8 10 1 0) refl

-- The first socket is taken out.
TableStep-IsTable_example : IsTable (socket_sockets_remove first kernel)
unfolding get_socket
TableStep-IsTable_example =
    TableStep-IsTable idle kernel (socket_sockets_remove first kernel) kernel-IsTable (omega arith)
      (removed 7 4097 refl)

-- The process 8 writes to a socket of the process 7.
abbrev app : Client
app = record { socks = record { lvlfd = 3; fd = 4097 } ∷ []; errno = 0 }

abbrev junk : ℕ → ℕ
junk n = 0

abbrev connect_new : Served (Option (Kernel ℕ)) → ℕ × Served (Option (Kernel ℕ))
connect_new w = (3, w)

issue-unknown_example :
    (held : List ℕ) × (issue
        (peer (stack_api idle none 0) 5 junk)
        connect_new
        8
        junk
        4097
        (write (1 ∷ 2 ∷ []))
        app
        (at_rest (some kernel) [])
      ≡ returned minus_one [] [] (record app { errno = 1 }) (at_rest (some kernel) held))
unfolding get_socket lvlip_get_sock
issue-unknown_example =
    issue-unknown idle none 0 8 4097 kernel (λ e. absurd (omega (arith, e)), tt) 5 junk connect_new
      (write (1 ∷ 2 ∷ [])) app (record { lvlfd = 3; fd = 4097 }) [] (omega arith) (omega arith)
      (omega arith) refl
