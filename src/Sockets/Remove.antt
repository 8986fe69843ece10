-- ===== src/Sockets/Remove.antt =====
-- A socket that is taken out of the table of toy_src/socket.c.
use toy_ip.Base.{
  ==_iff, subst, ℕ, suc, ◌<◌, ◌≡◌, ◌≢◌, refl, ap, ◌∙◌, none, some, List, [], ◌∷◌, arith, length,
  All, true, Bool-cases, inl, inr, ◌&&◌, ◌==◌, pos, dec,
}
use toy_ip.Sockets.{Socket, Kernel}
use toy_ip.Sockets.Table.{get_socket, list_del_socket, socket_sockets_remove}
use toy_ip.Sockets.Fresh.{Differ, IsTable}

-- What all sockets have, those that are left have.
All-list_del_socket {ℓ} :
    (P : Socket → Type ℓ) (fd : ℕ) (sockets : List Socket)
    → All P sockets
    → All P (list_del_socket fd sockets)
unfolding list_del_socket
All-list_del_socket P fd [] h = h
All-list_del_socket P fd (s ∷ sockets) h = elim (Bool-cases (s.fd == fd)) [
  | inl e ↦ rw e h.1
  | inr e ↦ rw e (h.0, All-list_del_socket P fd sockets h.1)
]

Differ-list_del_socket :
    (fd : ℕ) (sockets : List Socket) → Differ sockets → Differ (list_del_socket fd sockets)
unfolding list_del_socket
Differ-list_del_socket fd [] h = h
Differ-list_del_socket fd (s ∷ sockets) h = elim (Bool-cases (s.fd == fd)) [
  | inl e ↦ rw e h.1
  | inr e ↦
      rw e (
        All-list_del_socket (λ t. t.fd ≢ s.fd) fd sockets h.0,
        Differ-list_del_socket fd sockets h.1,
      )
]

get_socket-ne :
    (pid fd : ℕ) (sockets : List Socket)
    → All (λ (t : Socket). t.fd ≢ fd) sockets
    → get_socket pid fd sockets ≡ none
unfolding get_socket
get_socket-ne pid fd [] h = refl
get_socket-ne pid fd (s ∷ sockets) h =
    let rest = get_socket-ne pid fd sockets h.1 in ground (arith, h.0, rest)

-- Nobody finds a socket under the descriptor any more.
get_socket-gone :
    (pid fd : ℕ) (sockets : List Socket)
    → Differ sockets
    → get_socket pid fd (list_del_socket fd sockets) ≡ none
unfolding get_socket list_del_socket
get_socket-gone pid fd [] h = refl
get_socket-gone pid fd (s ∷ sockets) h = elim (Bool-cases (s.fd == fd)) [
  | inl e ↦ rw e (
      get_socket-ne pid fd sockets
        (subst (λ n. All (λ (t : Socket). t.fd ≢ n) sockets) ((==_iff s.fd fd).0 e) h.0))
  | inr e ↦ let rest = get_socket-gone pid fd sockets h.1 in rw e (ground (arith, e, rest))
]

get_socket-left :
    (pid fd other : ℕ) (sockets : List Socket)
    → other ≢ fd
    → get_socket pid other (list_del_socket fd sockets) ≡ get_socket pid other sockets
unfolding get_socket list_del_socket
get_socket-left pid fd other [] ne = refl
get_socket-left pid fd other (s ∷ sockets) ne =
    let rest = get_socket-left pid fd other sockets ne in ground (arith, ne, rest)

found-fd :
    (pid fd : ℕ) (sockets : List Socket) (sock : Socket)
    → get_socket pid fd sockets ≡ some sock
    → sock.fd ≡ fd
unfolding get_socket
found-fd pid fd [] sock e = absurd (cc)
found-fd pid fd (s ∷ sockets) sock e = elim (Bool-cases ((s.pid == pid) && (s.fd == fd))) [
  | inl t ↦ grind (arith, t, e)
  | inr t ↦ found-fd pid fd sockets sock (grind (arith, t, e))
]

length-list_del_socket :
    (pid fd : ℕ) (sockets : List Socket) (sock : Socket)
    → get_socket pid fd sockets ≡ some sock
    → length sockets ≡ suc (length (list_del_socket fd sockets))
unfolding get_socket list_del_socket
length-list_del_socket pid fd [] sock e = absurd (cc)
length-list_del_socket pid fd (s ∷ sockets) sock e = elim (Bool-cases (s.fd == fd)) [
  | inl t ↦ rw t refl
  | inr t ↦ rw t (ap suc (length-list_del_socket pid fd sockets sock (grind (arith, t, e))))
]

-- The socket of a process that is removed leaves a table, in which no process finds a socket under
-- its descriptor, and the others are found as before.
pub removed-IsTable :
    {T : Type 0} (pid fd q other : ℕ) (k : Kernel T) (sock : Socket)
    → IsTable k
    → get_socket pid fd k.sockets ≡ some sock
    → other ≢ fd
    → let l = socket_sockets_remove sock k in
      IsTable l
      × (get_socket q fd l.sockets ≡ none)
      × (get_socket q other l.sockets ≡ get_socket q other k.sockets)
unfolding socket_sockets_remove
removed-IsTable pid fd q other k sock h e ne =
    let at : sock.fd ≡ fd = found-fd pid fd k.sockets sock e in
    rw at (
      record {
        below = All-list_del_socket (λ s. s.fd < k.next_fd) fd k.sockets h.below;
        differ = Differ-list_del_socket fd k.sockets h.differ;
        ready = All-list_del_socket (λ s. s.has_ops ≡ true) fd k.sockets h.ready;
        count =
            ap dec h.count ∙ ap (λ n. dec (pos n)) (length-list_del_socket pid fd k.sockets sock e);
      },
      get_socket-gone q fd k.sockets h.differ,
      get_socket-left q fd other k.sockets ne,
    )
