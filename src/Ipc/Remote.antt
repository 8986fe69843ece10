-- ===== src/Ipc/Remote.antt =====
-- A call of the application library against the same call made in the stack.
use toy_ip.Base.{
  ltb-lt, ◌+◌, length, ℕ, ◌^◌, ◌<◌, ◌≡◌, false, Bool-cases, inl, inr, refl, ap, ◌∙◌, some, List, [],
  ◌++◌, arith, ◌==◌, if◌then◌else◌, length, drop,
}
use toy_ip.Checksum.{bytes16, bytes32}
use toy_ip.Ipc.{is_negative, Api}
use toy_ip.Ipc.Client.{
  LvlSock, Client, Ret, returned, lvlip_get_sock, lvlip_socks_remove, on_sock, finish_close,
  transmit_lvlip, lvl_connect, lvl_bind, lvl_listen, lvl_close, lvl_write, lvl_sendto,
}
use toy_ip.Ipc.Link.{Served, peer}
use toy_ip.Ipc.Calls.{RemoteCall, connect, bind, listen, close, write, sendto, Fits, perform, issue}
use toy_ip.Ipc.Dispatch.{type_of, payload_of, demuxed, short}
use toy_ip.Ipc.Wire.{code, errno_after, take_rc-answer, served-answer, at_rest}

-- The application forgets a socket that it has closed.
abbrev pub client_after : (fd : ℕ) → RemoteCall → (rc : ℕ) → Client → Client
client_after fd close rc cl = record cl {
  socks = if rc == 0 then lvlip_socks_remove fd cl.socks else cl.socks;
  errno = errno_after rc cl.errno;
}
client_after fd _ rc cl = record cl { errno = errno_after rc cl.errno }

module _ {S : Type 0} (api : Api S) (sockfd : ℕ) (junk : ℕ → ℕ) (pid fd : ℕ) (hp : pid < 2 ^ 32)
    (hf : fd < 2 ^ 32) where
  abbrev cmdbuf : RemoteCall → List ℕ → List ℕ
  cmdbuf call buf =
      let msg = bytes16 (type_of call) ++ (bytes32 pid ++ payload_of fd call) in
      msg ++ drop (length msg) buf

  type-small : (call : RemoteCall) → type_of call < 2 ^ 16
  type-small (connect addr) = omega arith
  type-small (bind addr) = omega arith
  type-small (listen backoff) = omega arith
  type-small close = omega arith
  type-small (write buf) = omega arith
  type-small (sendto buf addr) = omega arith

  sent :
      (init_socket : Served S → ℕ × Served S) (call : RemoteCall) (cl : Client) (lvlfd : ℕ) (s : S)
      (buf : List ℕ)
      → Fits call
      → (perform api pid fd call s).0 < 2 ^ 32
      → transmit_lvlip
          (peer api sockfd junk)
          init_socket
          pid
          junk
          lvlfd
          (type_of call)
          (payload_of fd call)
          cl
          (at_rest s buf)
        ≡ returned
            (code (perform api pid fd call s).0)
            []
            []
            (record cl { errno = errno_after (perform api pid fd call s).0 cl.errno })
            (at_rest (perform api pid fd call s).1 (cmdbuf call buf))
  sent init_socket call cl lvlfd s buf fits hr =
      let rc = (perform api pid fd call s).0 in
      let t = (perform api pid fd call s).1 in
      let ht = type-small call in
      let msg = bytes16 (type_of call) ++ (bytes32 pid ++ payload_of fd call) in
      take_rc-answer (type_of call) pid rc ht hp hr (peer api sockfd junk) init_socket junk lvlfd
        (payload_of fd call) cl (at_rest s buf) (at_rest t (cmdbuf call buf))
        (served-answer api sockfd junk lvlfd (type_of call) pid rc (payload_of fd call) buf s t ht
          hp hr (short fd call fits)
          (demuxed api sockfd junk pid fd hp hf call fits s (drop (length msg) buf)))

  with_sock :
      {W : Type 0} (missing : Ret W) (cl : Client) (sock : LvlSock) (call : LvlSock → Ret W)
      → lvlip_get_sock fd cl.socks ≡ some sock
      → on_sock fd missing cl call ≡ call sock
  with_sock missing cl sock call known = rw (on_sock, known) refl

  closed :
      {W : Type 0} (rc : ℕ) (cl : Client) (w : W)
      → rc < 2 ^ 32
      → finish_close fd (returned (code rc) [] [] (record cl { errno = errno_after rc cl.errno }) w)
        ≡ returned (code rc) [] [] (client_after fd close rc cl) w
  closed rc cl w hr = elim (Bool-cases (is_negative rc)) [
    | inl e ↦ let other : (rc == 0) ≡ false = ground (arith, e) in rw (e, other) refl
    | inr e ↦ elim (Bool-cases (rc == 0)) [ inl z ↦ rw (e, z) refl | inr z ↦ rw (e, z) refl ]
  ]

  -- A call of the application library on a socket that it has, over an idle connection, is one
  -- call of the same function in the stack with the same process, descriptor and arguments, for
  -- `connect`, `bind`, `listen`, `close`, `write` of at most 4078 bytes and `sendto` of at most 4062.
  -- It returns what that function returns, or -1 with `errno` set if the result `rc` is negative;
  -- `close` takes the socket out of the application's list exactly if the result is 0. The
  -- connection is idle again. Ints, the result among them, have 32 bits and addresses 16 bytes.
  pub issue-perform :
      (init_socket : Served S → ℕ × Served S) (call : RemoteCall) (cl : Client) (sock : LvlSock)
      (s : S) (buf : List ℕ)
      → Fits call
      → lvlip_get_sock fd cl.socks ≡ some sock
      → (perform api pid fd call s).0 < 2 ^ 32
      → let rc = (perform api pid fd call s).0 in
        (filled : List ℕ) × (issue
            (peer api sockfd junk)
            init_socket
            pid
            junk
            fd
            call
            cl
            (at_rest s buf)
          ≡ returned
              (code rc)
              []
              []
              (client_after fd call rc cl)
              (at_rest (perform api pid fd call s).1 filled))
  unfolding lvl_connect lvl_bind lvl_listen lvl_close lvl_write lvl_sendto
  issue-perform init_socket (connect addr) cl sock s buf fits known hr = (
    cmdbuf (connect addr) buf,
    with_sock _ cl sock _ known ∙ sent init_socket (connect addr) cl sock.lvlfd s buf fits hr,
  )
  issue-perform init_socket (bind addr) cl sock s buf fits known hr = (
    cmdbuf (bind addr) buf,
    with_sock _ cl sock _ known ∙ sent init_socket (bind addr) cl sock.lvlfd s buf fits hr,
  )
  issue-perform init_socket (listen backoff) cl sock s buf fits known hr = (
    cmdbuf (listen backoff) buf,
    with_sock _ cl sock _ known ∙ sent init_socket (listen backoff) cl sock.lvlfd s buf fits hr,
  )
  issue-perform init_socket (write bytes) cl sock s buf fits known hr = (
    cmdbuf (write bytes) buf,
    with_sock _ cl sock _ known
        ∙ rw (ltb-lt (18 + length bytes) (2 ^ 31) (omega arith))
            (sent init_socket (write bytes) cl sock.lvlfd s buf fits hr),
  )
  issue-perform init_socket (sendto bytes addr) cl sock s buf fits known hr = (
    cmdbuf (sendto bytes addr) buf,
    with_sock _ cl sock _ known
        ∙ rw (ltb-lt (34 + length bytes) (2 ^ 31) (omega arith))
            (sent init_socket (sendto bytes addr) cl sock.lvlfd s buf fits hr),
  )
  issue-perform init_socket close cl sock s buf fits known hr = (
    cmdbuf close buf,
    with_sock _ cl sock _ known
        ∙ ap (finish_close fd) (sent init_socket close cl sock.lvlfd s buf fits hr)
        ∙ (closed (perform api pid fd close s).0 cl
            (at_rest (perform api pid fd close s).1 (cmdbuf close buf)) hr),
  )
