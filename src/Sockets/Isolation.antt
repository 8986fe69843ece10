-- ===== src/Sockets/Isolation.antt =====
-- The calls of a process on a descriptor under which it has no socket.
use toy_ip.Base.{
  ◌≢◌, ◌∷◌, ◌==◌, ◌&&◌, All, Bool-cases, inl, inr, ℕ, ◌^◌, ◌<◌, ◌≡◌, refl, ap, ◌∙◌, Option, none,
  some, List, [], arith,
}
use toy_ip.Ipc.{minus_one}
use toy_ip.Ipc.Client.{LvlSock, Client, returned, lvlip_get_sock}
use toy_ip.Ipc.Link.{Served, peer}
use toy_ip.Ipc.Wire.{code, at_rest}
use toy_ip.Ipc.Calls.{RemoteCall, connect, bind, listen, close, write, sendto, Fits, perform, issue}
use toy_ip.Ipc.Remote.{client_after, issue-perform}
use toy_ip.Sockets.{Proto, NetOps, Socket, Kernel}
use toy_ip.Sockets.Table.{
  get_socket, bind_call, connect_call, write_call, sendto_call, listen_call, close_call,
}
use toy_ip.Sockets.Stack.{stack_api}

-- The sockets of `pid` have other descriptors than `fd`. Sockets of other processes may have it.
abbrev pub HasNo : (pid fd : ℕ) → List Socket → Type 0
HasNo pid fd sockets = All (λ (sock : Socket). sock.pid ≡ pid → sock.fd ≢ fd) sockets

get_socket-HasNo :
    (pid fd : ℕ) (sockets : List Socket) → HasNo pid fd sockets → get_socket pid fd sockets ≡ none
unfolding get_socket
get_socket-HasNo pid fd [] h = refl
get_socket-HasNo pid fd (sock ∷ sockets) h =
    elim (Bool-cases ((sock.pid == pid) && (sock.fd == fd))) [
      | inl e ↦
          let both : (sock.pid ≡ pid) × (sock.fd ≡ fd) = ground arith in absurd (h.0 both.0 both.1)
      | inr e ↦ rw e (get_socket-HasNo pid fd sockets h.1)
    ]

module _ {T : Type 0} (net_ops : Proto → NetOps T) (junk_sk : Option ℕ) (junk_type : ℕ) (pid fd : ℕ)
    (k : Kernel T) (others : HasNo pid fd k.sockets) where
  unknown : get_socket pid fd k.sockets ≡ none
  unknown = get_socket-HasNo pid fd k.sockets others

  -- The call in the stack answers -1 and changes nothing.
  refused :
      (call : RemoteCall)
      → perform (stack_api net_ops junk_sk junk_type) pid fd call (some k) ≡ (minus_one, some k)
  unfolding stack_api bind_call connect_call write_call sendto_call listen_call close_call
  refused (connect addr) = ground (arith, unknown)
  refused (bind addr) = ground (arith, unknown)
  refused (listen backoff) = ground (arith, unknown)
  refused close = ground (arith, unknown)
  refused (write buf) = ground (arith, unknown)
  refused (sendto buf addr) = ground (arith, unknown)

  -- The application gets -1 with `errno` 1.
  abbrev told : Client → Client
  told cl = record cl { errno = 1 }

  refused_client : (call : RemoteCall) (cl : Client) → client_after fd call minus_one cl ≡ told cl
  refused_client (connect addr) cl = refl
  refused_client (bind addr) cl = refl
  refused_client (listen backoff) cl = refl
  refused_client close cl = refl
  refused_client (write buf) cl = refl
  refused_client (sendto buf addr) cl = refl

  -- Where no socket of the process `pid` in the table of the stack has the descriptor `fd`, though
  -- sockets of other processes may have it: a call of the application library on it, of those that
  -- `issue-perform` is about, returns -1 with `errno` 1, and changes neither the table, nor the
  -- memory of the stack, nor the application's list. The library has the descriptor in its list,
  -- the connection is idle, ints have 32 bits, addresses 16 bytes, and the message fits in the
  -- buffer of the stack.
  pub issue-unknown :
      (sockfd : ℕ) (junk : ℕ → ℕ)
      (init_socket : Served (Option (Kernel T)) → ℕ × Served (Option (Kernel T)))
      (call : RemoteCall) (cl : Client) (sock : LvlSock) (buf : List ℕ)
      → pid < 2 ^ 32
      → fd < 2 ^ 32
      → Fits call
      → lvlip_get_sock fd cl.socks ≡ some sock
      → (held : List ℕ) × (issue
            (peer (stack_api net_ops junk_sk junk_type) sockfd junk)
            init_socket
            pid
            junk
            fd
            call
            cl
            (at_rest (some k) buf)
          ≡ returned minus_one [] [] (record cl { errno = 1 }) (at_rest (some k) held))
  issue-unknown sockfd junk init_socket call cl sock buf hp hf fits known =
      let api = stack_api net_ops junk_sk junk_type in
      let same = refused call in
      let small : (perform api pid fd call (some k)).0 < 2 ^ 32 = rw same (omega arith) in
      let (held, done) =
        issue-perform api sockfd junk pid fd hp hf init_socket call cl sock (some k) buf fits known
          small in
      let result = λ (p : ℕ × Option (Kernel T)).
        returned (code p.0) [] [] (client_after fd call p.0 cl) (at_rest p.1 held) in
      (
        held,
        done
            ∙ ap result same
            ∙ ap (λ after. returned minus_one [] [] after (at_rest (some k) held))
                (refused_client call cl),
      )
