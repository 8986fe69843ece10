-- ===== src/Sockets/Close.antt =====
-- `_close`: what is freed is written to.
use toy_ip.Base.{ℕ, ◌≡◌, refl, none, some, true, ==_iff, Option-cases, inl, inr}
use toy_ip.Sockets.{Proto, World, store_sk, NetOps, Socket, Kernel}
use toy_ip.Sockets.Inet.{inet_close, inet_free, sk_free, with_sk}
use toy_ip.Sockets.Table.{get_socket, socket_sockets_remove, free_socket, disown, close_call}

freed : {T : Type 0} (a : ℕ) (w : World T) → (store_sk a none w).heap a ≡ none
unfolding store_sk
freed a w = rw ((==_iff a a).1 refl) refl

disown_freed : {T : Type 0} (a : ℕ) (w : World T) → disown (some a) (store_sk a none w) ≡ none
disown_freed a w = rw (disown, with_sk, freed a w) refl

-- A socket with its functions set cannot be freed.
pub free_socket-fault :
    {T : Type 0} (sock : Socket) (k : Kernel T) → sock.has_ops ≡ true → free_socket sock k ≡ none
unfolding free_socket inet_free
free_socket-fault sock k ops = elim (Option-cases sock.sk) [
  | inl e ↦ rw (free_socket, ops, inet_free, e) refl
  | inr (a, e) ↦ elim (Option-cases (k.world.heap a)) [
    | inl h ↦ rw (free_socket, ops, inet_free, e, with_sk, h) refl
    | inr (sk, h) ↦
        rw (free_socket, ops, inet_free, e, with_sk, h, e, disown_freed a (sk_free a sk k.world))
          refl
  ]
]

-- Whatever the protocols do: where the protocol's `close` leaves the sock with no error, `_close`
-- of a socket of the table, with its functions set, writes to the sock that it has just freed.
pub close_call-fault :
    {T : Type 0} (net_ops : Proto → NetOps T) (pid sockfd : ℕ) (k : Kernel T) (sock : Socket)
    (w : World T)
    → get_socket pid sockfd k.sockets ≡ some sock
    → sock.has_ops ≡ true
    → inet_close net_ops sock k.world ≡ some (0, w)
    → close_call net_ops pid sockfd k ≡ none
unfolding close_call
close_call-fault net_ops pid sockfd k sock w found ops closes =
    rw
      (
        close_call,
        found,
        closes,
        free_socket-fault sock (socket_sockets_remove sock (record k { world = w })) ops,
      )
      refl
