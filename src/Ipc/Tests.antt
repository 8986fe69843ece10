-- ===== src/Ipc/Tests.antt =====
-- An application with one socket, and a stack that counts what it is sent.
use toy_ip.Base.{ℕ, zero, suc, ◌+◌, ◌≡◌, refl, List, [], ◌∷◌, ◌++◌, arith, length, drop, some, pos}
use toy_ip.Checksum.{bytes16, bytes32}
use toy_ip.Ipc.{Api, zeros, bytes64}
use toy_ip.Ipc.Client.{LvlSock, Client, returned, stuck, lvlip_get_sock, lvl_read, lvl_write}
use toy_ip.Ipc.Link.{Served, peer, overrun, socket_ipc_round}
use toy_ip.Ipc.Wire.{at_rest}
use toy_ip.Ipc.Calls.{write, issue}
use toy_ip.Ipc.Remote.{issue-perform}
use toy_ip.Ipc.Reads.{lvl_read-read}
use toy_ip.Ipc.Server.{Connection, demux_ipc_socket_call}
use toy_ip.Ipc.Threads.{ThreadEnd, ipc_free_thread, free_from, socket_ipc_open}
use toy_ip.Ipc.Ends.{Leaves, socket_ipc_open_total}
use toy_ip.Ipc.Overrun.{lvl_write-overrun}

-- `read` fills two bytes, `close` fails with the error 9.
abbrev counting : Api ℕ
counting = record {
  socket_call = λ pid domain type protocol s. (4097, s);
  connect_call = λ pid fd addr s. (0, s);
  write_call = λ pid fd buf s. (length buf, s + length buf);
  read_call = λ pid fd buf s. (2, (7 ∷ 8 ∷ drop 2 buf, s));
  close_call = λ pid fd s. (4294967287, s);
  bind_call = λ pid fd addr s. (0, s);
  accept_call = λ pid fd addr s. (4098, ([], s));
  listen_call = λ pid fd backoff s. (0, s);
  sendto_call = λ pid fd buf addr s. (length buf, s + length buf);
  recvfrom_call = λ pid fd buf addr s. (0, (buf, ([], s)));
}

abbrev junk : ℕ → ℕ
junk n = 0

abbrev connect_new : Served ℕ → ℕ × Served ℕ
connect_new w = (3, w)

abbrev sock : LvlSock
sock = record { lvlfd = 3; fd = 4097 }

abbrev app : Client
app = record { socks = sock ∷ []; errno = 0 }

issue-perform_example :
    (held : List ℕ) × (issue
        (peer counting 5 junk)
        connect_new
        70
        junk
        4097
        (write (1 ∷ 2 ∷ []))
        app
        (at_rest 100 [])
      ≡ returned 2 [] [] app (at_rest 102 held))
unfolding lvlip_get_sock
issue-perform_example =
    issue-perform counting 5 junk 70 4097 (omega arith) (omega arith) connect_new
      (write (1 ∷ 2 ∷ [])) app sock 100 [] (omega arith) refl (omega arith)

lvl_read-read_example :
    (held : List ℕ) × (lvl_read
        (peer counting 5 junk)
        connect_new
        70
        junk
        4097
        4
        app
        (at_rest 100 [])
      ≡ returned 2 (7 ∷ 8 ∷ 0 ∷ 0 ∷ []) [] app (at_rest 100 held))
unfolding lvlip_get_sock
lvl_read-read_example =
    lvl_read-read counting 5 junk 70 4097 4 (omega arith) (omega arith) (omega arith) 100 100 2
      (7 ∷ 8 ∷ 0 ∷ 0 ∷ []) refl (omega arith) (omega arith) refl connect_new app sock [] refl

abbrev long : List ℕ
long = zeros 5000

length-zeros : (n : ℕ) → length (zeros n) ≡ n
length-zeros zero = refl
length-zeros (suc n) = omega (arith, length-zeros n)

length-long : length long ≡ 5000
length-long = length-zeros 5000

lvl_write-overrun_example :
    (socket_ipc_round counting 5 junk [] (record {
      pending = bytes16 3 ++ (bytes32 70 ++ (bytes32 4097 ++ (bytes64 (length long) ++ long)));
      replies = [];
      stack = 100;
    })
      ≡ overrun)
    × (lvl_write (peer counting 5 junk) connect_new 70 junk 4097 long app (at_rest 100 []) ≡ stuck)
unfolding lvlip_get_sock
lvl_write-overrun_example =
    lvl_write-overrun counting 5 junk 70 4097 (omega arith) long (omega (arith, length-long))
      (omega (arith, length-long)) connect_new app sock 100 [] refl (omega arith)

-- Two connections, and a message of an unknown kind on the one with the descriptor 5.
abbrev unknown : Connection ℕ
unknown = record { pending = 77 ∷ 0 ∷ 1 ∷ 0 ∷ 0 ∷ 0 ∷ []; replies = []; stack = 0 }

socket_ipc_open_total_example :
    (r : ThreadEnd counting 5 junk) × (socket_ipc_open counting 5 junk 9 [] unknown
        (record { connections = 4 ∷ 5 ∷ []; conn_count = pos 2 })
      ≡ some r)
    × Leaves counting 5 junk [] unknown (record { connections = 4 ∷ []; conn_count = pos 1 }) r
socket_ipc_open_total_example =
    socket_ipc_open_total counting 5 junk 9 [] unknown (4 ∷ []) [] (pos 2) refl (omega arith)

-- The thread ends as its connection is closed.
unknown_is_passed_over :
    socket_ipc_open counting 5 junk 9 [] unknown
      (record { connections = 4 ∷ 5 ∷ []; conn_count = pos 2 })
    ≡ some (
        some (record unknown { pending = [] }, record { connections = 4 ∷ []; conn_count = pos 1 }))
unfolding socket_ipc_open socket_ipc_round demux_ipc_socket_call ipc_free_thread free_from
unknown_is_passed_over = refl
