-- ===== src/Ipc/Ends.antt =====
-- How the thread of a connection of toy_src/ipc.c ends, and what it leaves in the list.
use toy_ip.Base.{
  subst, ℕ, zero, suc, ◌<◌, ◌≡◌, refl, ◌∙◌, ap, ◌⊎◌, inl, inr, none, some, List, [], ◌∷◌, ◌++◌,
  append_assoc, arith, ◌==◌, length, false, ℤ, dec, contains,
}
use toy_ip.Ipc.{Api}
use toy_ip.Ipc.Server.{Connection}
use toy_ip.Ipc.Link.{IpcRound, overrun, ended, broken, next, socket_ipc_round}
use toy_ip.Ipc.Threads.{
  Threads, ThreadEnd, free_from, ipc_free_thread, socket_ipc_open, round-pending, round-broken,
}

-- The walk finds the first entry of the connection.
free_from-first :
    (before xs ys : List ℕ) (sock : ℕ) (count : ℤ)
    → contains sock xs ≡ false
    → free_from before sock (xs ++ sock ∷ ys) count
      ≡ record { connections = before ++ (xs ++ ys); conn_count = dec count }
unfolding free_from
free_from-first before [] ys sock count h = ground arith
free_from-first before (x ∷ xs) ys sock count h =
    let other : (x == sock) ≡ false = ground arith in
    let later : contains sock xs ≡ false = ground arith in
    rw other (
      free_from-first (before ++ x ∷ []) xs ys sock count later
      ∙ ap (λ l. record { connections = l; conn_count = dec count })
          (append_assoc before (x ∷ []) (xs ++ ys)))

module _ {S : Type 0} (api : Api S) (sockfd : ℕ) (junk : ℕ → ℕ) where
  -- Rounds of the loop after each of which the thread waits for the next message.
  pub data Rounds : List ℕ → Connection S → List ℕ → Connection S → Type 0 where
    here : {buf : List ℕ} {c : Connection S} → Rounds buf c buf c
    again :
        {buf buf' buf'' : List ℕ} {c d e : Connection S}
        → socket_ipc_round api sockfd junk buf c ≡ next buf' d
        → Rounds buf' d buf'' e
        → Rounds buf c buf'' e

  -- How a thread may end: its last round runs behind the end of a buffer; or it is the one in which
  -- the application has closed the connection, and the list is then `t`.
  abbrev pub Leaves : List ℕ → Connection S → Threads → ThreadEnd api sockfd junk → Type 0
  Leaves buf c t r =
      ((buf' : List ℕ) × (d : Connection S) × Rounds buf c buf' d
        × (socket_ipc_round api sockfd junk buf' d ≡ overrun)
        × (r ≡ none))
      ⊎ ((buf' : List ℕ) × (d : Connection S) × Rounds buf c buf' d
          × (e : Connection S) × (socket_ipc_round api sockfd junk buf' d ≡ ended e)
          × (r ≡ some (e, t)))

  Leaves-again :
      (buf buf' : List ℕ) (c d : Connection S) (t : Threads) (r : ThreadEnd api sockfd junk)
      → socket_ipc_round api sockfd junk buf c ≡ next buf' d
      → Leaves buf' d t r
      → Leaves buf c t r
  Leaves-again buf buf' c d t r e (inl (b, x, rounds, last, ends)) =
      inl (b, x, again e rounds, last, ends)
  Leaves-again buf buf' c d t r e (inr (b, x, rounds, f, last, ends)) =
      inr (b, x, again e rounds, f, last, ends)

  thread_ends :
      (fuel : ℕ) (buf : List ℕ) (c : Connection S) (t : Threads)
      → length c.pending < fuel
      → (r : ThreadEnd api sockfd junk) × (socket_ipc_open api sockfd junk fuel buf c t ≡ some r)
        × Leaves buf c (ipc_free_thread sockfd t) r
  unfolding socket_ipc_open
  thread_ends zero buf c t h = absurd (omega arith)
  thread_ends (suc fuel) buf c t h =
      step (λ buf' d less. thread_ends fuel buf' d t less) (socket_ipc_round api sockfd junk buf c)
        refl
    where
      step :
          ((buf' : List ℕ) (d : Connection S)
            → length d.pending < fuel
            → (r : ThreadEnd api sockfd junk) × (socket_ipc_open api sockfd junk fuel buf' d t
                ≡ some r)
              × Leaves buf' d (ipc_free_thread sockfd t) r)
          → (x : IpcRound S) → socket_ipc_round api sockfd junk buf c ≡ x
          → (r : ThreadEnd api sockfd junk) × (socket_ipc_open api sockfd junk (suc fuel) buf c t
              ≡ some r)
            × Leaves buf c (ipc_free_thread sockfd t) r
      step ih overrun e = (none, rw (socket_ipc_open, e) refl, inl (buf, c, here, e, refl))
      step ih (ended d) e = (
        some (d, ipc_free_thread sockfd t),
        rw (socket_ipc_open, e) refl,
        inr (buf, c, here, d, e, refl),
      )
      step ih (broken d) e = absurd (round-broken api sockfd junk buf c d e)
      step ih (next buf' d) e =
          let (r, ran, left) =
            ih buf' d (omega (arith, h, round-pending api sockfd junk buf buf' c d e)) in
          (
            r,
            rw (socket_ipc_open, e) ran,
            Leaves-again buf buf' c d (ipc_free_thread sockfd t) r e left,
          )

  -- Where what the application has written is all that comes before it closes the connection, the
  -- thread of connection `sockfd` ends, with fuel for as many rounds as there are bytes and one
  -- more. It takes one round after the other. If one of them accesses what is behind the end of a
  -- buffer, the thread stops there; else the last one finds the connection closed, and then the
  -- first entry of the connection is out of the list and counted down, and nothing else. No handler
  -- fails.
  pub socket_ipc_open_total :
      (fuel : ℕ) (buf : List ℕ) (c : Connection S) (xs ys : List ℕ) (count : ℤ)
      → contains sockfd xs ≡ false
      → length c.pending < fuel
      → (r : ThreadEnd api sockfd junk) × (socket_ipc_open api sockfd junk fuel buf c
            (record { connections = xs ++ sockfd ∷ ys; conn_count = count })
          ≡ some r)
        × Leaves buf c (record { connections = xs ++ ys; conn_count = dec count }) r
  unfolding ipc_free_thread
  socket_ipc_open_total fuel buf c xs ys count h less =
      let t : Threads = record { connections = xs ++ sockfd ∷ ys; conn_count = count } in
      let (r, ran, left) = thread_ends fuel buf c t less in
      (r, ran, subst (λ k. Leaves buf c k r) (free_from-first [] xs ys sockfd count h) left)
