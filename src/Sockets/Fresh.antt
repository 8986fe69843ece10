-- ===== src/Sockets/Fresh.antt =====
-- The table of sockets: descriptors are given out once.
use toy_ip.Base.{
  true, ℕ, u32, ◌^◌, ◌+◌, ◌<◌, ◌≡◌, ◌≢◌, refl, ap, ◌∙◌, inl, inr, Option, none, some, List, [], ◌∷◌,
  ◌++◌, arith, false, ◌&&◌, ◌==◌, if◌then◌else◌, length, All, pos, inc, All-append, length-append,
  Bool-cases,
}
use toy_ip.Sockets.{Proto, World, NetOps, Socket, Kernel}
use toy_ip.Sockets.Inet.{inet_create, sk_init_with_socket, inet_accept}
use toy_ip.Sockets.Table.{get_socket, socket_sockets_enqueue, alloc_socket, socket_call}

-- Every descriptor of the list is below the bound, and no two are the same.
abbrev pub Below : ℕ → List Socket → Type 0
Below n sockets = All (λ (s : Socket). s.fd < n) sockets

abbrev pub Differ : List Socket → Type 0
Differ [] = Unit
Differ (s ∷ sockets) = All (λ (t : Socket). t.fd ≢ s.fd) sockets × Differ sockets

-- Every socket has its functions.
abbrev pub Ready : List Socket → Type 0
Ready sockets = All (λ (s : Socket). s.has_ops ≡ true) sockets

-- Descriptors are different and below the next one, every socket has its functions, and the count
-- is that of the sockets.
pub record IsTable {T : Type 0} (k : Kernel T) : Type 0 where
  pub below : Below k.next_fd k.sockets
  pub differ : Differ k.sockets
  pub ready : Ready k.sockets
  pub count : k.socket_count ≡ pos (length k.sockets)

pub Below-suc : (n : ℕ) (sockets : List Socket) → Below n sockets → Below (n + 1) sockets
Below-suc n [] h = tt
Below-suc n (s ∷ sockets) h = (omega (arith, h.0), Below-suc n sockets h.1)

Differ-append :
    (n : ℕ) (sock : Socket) (sockets : List Socket)
    → sock.fd ≡ n
    → Below n sockets
    → Differ sockets
    → Differ (sockets ++ (sock ∷ []))
Differ-append n sock [] e b d = (tt, tt)
Differ-append n sock (s ∷ sockets) e b d = (
  All-append (λ (t : Socket). t.fd ≢ s.fd) sockets (sock ∷ []) d.0
      ((λ same. absurd (omega (arith, same, e, b.0))), tt),
  Differ-append n sock sockets e b.1 d.1,
)

-- A new socket is found at the end, and all others as before.
get_socket-append :
    (pid fd : ℕ) (sock : Socket) (sockets : List Socket)
    → get_socket pid fd (sockets ++ (sock ∷ [])) ≡ (elim (get_socket pid fd sockets) [
      | none ↦ if (sock.pid == pid) && (sock.fd == fd) then some sock else none
      | some s ↦ some s
    ])
unfolding get_socket
get_socket-append pid fd sock [] = refl
get_socket-append pid fd sock (s ∷ sockets) = elim (Bool-cases ((s.pid == pid) && (s.fd == fd))) [
  | inl e ↦ rw e refl
  | inr e ↦ rw e (get_socket-append pid fd sock sockets)
]

get_socket-Below :
    (pid n : ℕ) (sockets : List Socket) → Below n sockets → get_socket pid n sockets ≡ none
unfolding get_socket
get_socket-Below pid n [] h = refl
get_socket-Below pid n (s ∷ sockets) h = ground (arith, h.0, get_socket-Below pid n sockets h.1)

module _ {T : Type 0} (net_ops : Proto → NetOps T) where
  -- The socket that `sk_init_with_socket` returns keeps its descriptor and its process.
  init-same :
      (sock made : Socket) (a : ℕ) (w v : World T)
      → sk_init_with_socket net_ops sock a w ≡ some (made, v)
      → (made.fd ≡ sock.fd) × (made.pid ≡ sock.pid)
  unfolding sk_init_with_socket
  init-same sock made a w v e = grind (arith, e)

  pub create-same :
      (sock made : Socket) (protocol rc : ℕ) (w v : World T)
      → inet_create net_ops sock protocol w ≡ some (rc, (made, v))
      → (made.fd ≡ sock.fd) × (made.pid ≡ sock.pid)
  unfolding inet_create
  create-same sock made protocol rc w v e = grind (arith, e, init-same)

  init-ops :
      (sock made : Socket) (a : ℕ) (w v : World T)
      → sk_init_with_socket net_ops sock a w ≡ some (made, v)
      → made.has_ops ≡ sock.has_ops
  unfolding sk_init_with_socket
  init-ops sock made a w v e = grind (arith, e)

  pub create-ops :
      (sock made : Socket) (protocol : ℕ) (w v : World T)
      → inet_create net_ops sock protocol w ≡ some (0, (made, v))
      → made.has_ops ≡ true
  unfolding inet_create
  create-ops sock made protocol w v e = grind (arith, e, init-ops)

  pub accept-ops :
      (sock newsock made : Socket) (addr peer : Option (List ℕ)) (rc : ℕ) (w v : World T)
      → inet_accept net_ops sock newsock addr w ≡ some (rc, (made, (peer, v)))
      → made.has_ops ≡ newsock.has_ops
  unfolding inet_accept
  accept-ops sock newsock made addr peer rc w v e = grind (arith, e, init-ops)

  pub accept-same :
      (sock newsock made : Socket) (addr peer : Option (List ℕ)) (rc : ℕ) (w v : World T)
      → inet_accept net_ops sock newsock addr w ≡ some (rc, (made, (peer, v)))
      → (made.fd ≡ newsock.fd) × (made.pid ≡ newsock.pid)
  unfolding inet_accept
  accept-same sock newsock made addr peer rc w v e = grind (arith, e, init-same)

  pub enqueued-IsTable :
      (k : Kernel T) (sock : Socket) (w : World T)
      → IsTable k
      → sock.fd ≡ k.next_fd
      → sock.has_ops ≡ true
      → IsTable (socket_sockets_enqueue sock (record k { next_fd = k.next_fd + 1; world = w }))
  unfolding socket_sockets_enqueue
  enqueued-IsTable k sock w h e ops = record {
    below =
        All-append (λ (s : Socket). s.fd < k.next_fd + 1) k.sockets (sock ∷ [])
          (Below-suc k.next_fd k.sockets h.below) (omega (arith, e), tt);
    differ = Differ-append k.next_fd sock k.sockets e h.below h.differ;
    ready = All-append (λ (s : Socket). s.has_ops ≡ true) k.sockets (sock ∷ []) h.ready (ops, tt);
    count = ap inc h.count ∙ ap pos (omega (arith, length-append k.sockets (sock ∷ [])));
  }

  -- Whatever the memory of a new socket held, in a table in which the next descriptor is not the last int, the descriptors are different
  -- and below the next one, every socket has its functions and the count is that of the sockets:
  -- where `inet_create` succeeds,
  -- `_socket` returns the next descriptor, no socket had it before, the table is again such a
  -- table, the process finds the new socket under the descriptor, and under every other
  -- descriptor each process finds what it found before.
  pub socket_call-IsTable :
      (junk : Option ℕ) (pid type protocol : ℕ) (k : Kernel T) (made : Socket) (w : World T)
      (q fd : ℕ)
      → IsTable k
      → k.next_fd + 1 < 2 ^ 31
      → fd ≢ k.next_fd
      → inet_create net_ops
          (record { fd = k.next_fd; pid = pid; type = type; sk = junk; has_ops = false })
          protocol
          k.world
        ≡ some (0, (made, w))
      → (get_socket pid k.next_fd k.sockets ≡ none)
        × (l : Kernel T) × (socket_call net_ops junk pid 2 type protocol k ≡ some (k.next_fd, l))
        × IsTable l
        × (get_socket pid k.next_fd l.sockets ≡ some made)
        × (get_socket q fd l.sockets ≡ get_socket q fd k.sockets)
  unfolding socket_call alloc_socket socket_sockets_enqueue
  socket_call-IsTable junk pid type protocol k made w q fd h small other e =
      let next : u32 (k.next_fd + 1) ≡ k.next_fd + 1 = omega arith in
      let (same_fd, same_pid) = create-same _ made protocol 0 k.world w e in
      let unknown = get_socket-Below pid k.next_fd k.sockets h.below in
      (
        unknown,
        _,
        rw (socket_call, alloc_socket, e, same_fd, next) refl,
        enqueued-IsTable k made w h same_fd (create-ops _ made protocol k.world w e),
        rw (get_socket-append pid k.next_fd made k.sockets, unknown)
            (ground (arith, same_fd, same_pid)),
        rw (get_socket-append q fd made k.sockets) (ground (arith, same_fd, other)),
      )
