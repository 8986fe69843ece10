-- ===== src/Ipc/Calls.antt =====
-- The calls of an application on a socket whose answer is an int: of toy_app/lib/liblevelip.c on
-- the one side, of toy_src/socket.c on the other.
use toy_ip.Base.{ℕ, ◌^◌, ◌<◌, ◌≤◌, ◌≡◌, Option, List, length}
use toy_ip.Ipc.{Api}
use toy_ip.Ipc.Client.{
  Client, Ret, lvl_connect, lvl_bind, lvl_listen, lvl_close, lvl_write, lvl_sendto,
}

-- The calls on a socket whose answer is an int.
pub data RemoteCall : Type 0 where
  connect bind : (addr : List ℕ) → RemoteCall
  listen : (backoff : ℕ) → RemoteCall
  close : RemoteCall
  write : (buf : List ℕ) → RemoteCall
  sendto : (buf addr : List ℕ) → RemoteCall

-- Ints of 32 bits, addresses of 16 bytes, and a message that fits in the buffer of the stack.
abbrev pub Fits : RemoteCall → Type 0
Fits (connect addr) = length addr ≡ 16
Fits (bind addr) = length addr ≡ 16
Fits (listen backoff) = backoff < 2 ^ 32
Fits close = Unit
Fits (write buf) = length buf ≤ 4078
Fits (sendto buf addr) = (length buf ≤ 4062) × (length addr ≡ 16)

-- The function of toy_src/socket.c, called in the stack.
abbrev pub perform : {S : Type 0} (api : Api S) (pid fd : ℕ) → RemoteCall → S → ℕ × S
perform api pid fd (connect addr) s = api.connect_call pid fd addr s
perform api pid fd (bind addr) s = api.bind_call pid fd addr s
perform api pid fd (listen backoff) s = api.listen_call pid fd backoff s
perform api pid fd close s = api.close_call pid fd s
perform api pid fd (write buf) s = api.write_call pid fd buf s
perform api pid fd (sendto buf addr) s = api.sendto_call pid fd buf addr s

-- The function of the application library.
module _ {W : Type 0} (peer : (lvlfd n : ℕ) → List ℕ → W → Option (List ℕ × W))
    (init_socket : W → ℕ × W) (getpid : ℕ) (junk : ℕ → ℕ) where
  abbrev pub issue : (fd : ℕ) → RemoteCall → Client → W → Ret W
  issue fd (connect addr) cl w = lvl_connect peer init_socket getpid junk fd addr cl w
  issue fd (bind addr) cl w = lvl_bind peer init_socket getpid junk fd addr cl w
  issue fd (listen backoff) cl w = lvl_listen peer init_socket getpid junk fd backoff cl w
  issue fd close cl w = lvl_close peer init_socket getpid junk fd cl w
  issue fd (write buf) cl w = lvl_write peer init_socket getpid junk fd buf cl w
  issue fd (sendto buf addr) cl w = lvl_sendto peer init_socket getpid junk fd buf addr cl w
