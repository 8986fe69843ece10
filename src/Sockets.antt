-- ===== src/Sockets.antt =====
-- toy_src/sock.h, toy_src/socket.h and the data of toy_src/inet.c. The protocols behind `struct
-- net_ops` are an interface, and `none` is an access to memory that is NULL or freed.
use Prim.Native.Nat.{bit_and}
use toy_ip.Base.{ℕ, Bool, true, false, not, Option, none, some, List, [], ◌==◌, if◌then◌else◌, ℤ}
pub mod Inet
pub mod Table
pub mod Fresh
pub mod Close
pub mod Calls
pub mod Remove
pub mod Invariant
pub mod Stack
pub mod Isolation
mod Tests

-- `tcp_ops` and `udp_ops`
pub data Proto : Type 0 where
  tcp udp : Proto

-- `struct sock`; `owner` is the descriptor of the `struct socket` that `sock` points to.
pub record Sk : Type 0 where
  pub ops : Proto
  pub protocol : ℕ
  pub receive_queue : List ℕ
  pub write_queue : List ℕ
  pub err : ℕ
  pub sport : ℕ
  pub dport : ℕ
  pub saddr : ℕ
  pub daddr : ℕ
  pub owner : Option ℕ

-- The memory of the socks, `none` where there is none, and what else the protocols keep.
pub record World (T : Type 0) : Type 0 where
  pub heap : ℕ → Option Sk
  pub rest : T

unfoldable pub store_sk : {T : Type 0} → ℕ → Option Sk → World T → World T
store_sk a sk w = record w { heap = λ b. if b == a then sk else w.heap b }

-- `struct net_ops`: functions of a sock's address, with the int they return; what a table may lack
-- is an `Option`. A buffer or an address that a function fills is passed and returned.
pub record NetOps (T : Type 0) : Type 0 where
  pub alloc_sock : (protocol : ℕ) → World T → ℕ × World T
  pub init : ℕ → World T → World T
  pub connect : Option (ℕ → List ℕ → World T → ℕ × World T)
  pub send_buf : ℕ → List ℕ → World T → ℕ × World T
  pub send_to : ℕ → List ℕ → List ℕ → World T → ℕ × World T
  pub recv_buf : ℕ → List ℕ → World T → ℕ × (List ℕ × World T)
  pub recv_from :
      ℕ → List ℕ → Option (List ℕ) → World T → ℕ × (List ℕ × (Option (List ℕ) × World T))
  pub bind : Option (ℕ → List ℕ → World T → ℕ × World T)
  pub close : ℕ → World T → ℕ × World T
  pub listen : Option (ℕ → ℕ → World T → ℕ × World T)
  pub accept : Option (ℕ → World T → Option ℕ × World T)
  pub set_sport : Option (ℕ → ℕ → World T → ℕ × World T)

-- `struct socket`; `has_ops` is false while `ops` is NULL.
pub record Socket : Type 0 where
  pub fd : ℕ
  pub pid : ℕ
  pub type : ℕ
  pub sk : Option ℕ
  pub has_ops : Bool

-- The list `sockets`, `socket_count`, the static `fd` of `alloc_socket`, and the memory.
pub record Kernel (T : Type 0) : Type 0 where
  pub sockets : List Socket
  pub socket_count : ℤ
  pub next_fd : ℕ
  pub world : World T

-- The first entry of `inet_ops` with a bit of the type.
unfoldable pub sock_type : ℕ → Option Proto
sock_type type =
    if not (bit_and 1 type == 0)
    then some tcp
    else if not (bit_and 2 type == 0)
    then some udp
    else none
