-- ===== src/Ipc/Dispatch.antt =====
-- The messages of the calls, and what the dispatch of toy_src/ipc.c makes of them.
use toy_ip.Base.{
  ltb-lt, take_front, ltb-ge, ℕ, ◌^◌, ◌<◌, ◌≤◌, ◌≡◌, refl, subst, some, List, [], ◌++◌, arith,
  length, take, length-append, append_assoc,
}
use toy_ip.Checksum.{bytes16, bytes32}
use toy_ip.Ipc.{bytes64, Api}
use toy_ip.Ipc.Server.{
  Connection, Handled, gather, ipc_connect, ipc_bind, ipc_listen, ipc_close, ipc_write, ipc_sendto,
  ipc_write_rc, demux_ipc_socket_call,
}
use toy_ip.Ipc.Calls.{RemoteCall, connect, bind, listen, close, write, sendto, Fits, perform}
use toy_ip.Ipc.Wire.{le32-bytes32, le64-bytes64, copy-inside, conn}

abbrev pub type_of : RemoteCall → ℕ
type_of (connect addr) = 2
type_of (bind addr) = 6
type_of (listen backoff) = 8
type_of close = 5
type_of (write buf) = 3
type_of (sendto buf addr) = 9

abbrev pub payload_of : (fd : ℕ) → RemoteCall → List ℕ
payload_of fd (connect addr) = bytes32 fd ++ addr
payload_of fd (bind addr) = bytes32 fd ++ addr
payload_of fd (listen backoff) = bytes32 fd ++ bytes32 backoff
payload_of fd close = bytes32 fd
payload_of fd (write buf) = bytes32 fd ++ (bytes64 (length buf) ++ buf)
payload_of fd (sendto buf addr) = bytes32 fd ++ (bytes64 (length buf) ++ (addr ++ buf))

pub sixteen : (addr rest : List ℕ) → length addr ≡ 16 → take 16 (addr ++ rest) ≡ addr
sixteen addr rest e = subst (λ n. take n (addr ++ rest) ≡ addr) e (take_front addr rest)

pub short : (fd : ℕ) (call : RemoteCall) → Fits call → length (payload_of fd call) ≤ 4090
short fd (connect addr) h = omega (arith, h)
short fd (bind addr) h = omega (arith, h)
short fd (listen backoff) h = omega arith
short fd close h = omega arith
short fd (write buf) h = omega arith
short fd (sendto buf addr) h = omega (arith, length-append addr buf)

module _ {S : Type 0} (api : Api S) (sockfd : ℕ) (junk : ℕ → ℕ) (pid fd : ℕ) (hp : pid < 2 ^ 32)
    (hf : fd < 2 ^ 32) where
  abbrev pub Demuxed : RemoteCall → Type 0
  Demuxed call =
      (s : S) (stale : List ℕ)
      → demux_ipc_socket_call api sockfd junk
          (bytes16 (type_of call) ++ (bytes32 pid ++ payload_of fd call) ++ stale) (conn s)
        ≡ ipc_write_rc api sockfd junk pid (type_of call) (perform api pid fd call s).0
            (conn (perform api pid fd call s).1)

  Demuxed-close : Demuxed close
  unfolding demux_ipc_socket_call ipc_close
  Demuxed-close s stale = rw (le32-bytes32 pid [] hp, le32-bytes32 fd [] hf) refl

  Demuxed-connect : (addr : List ℕ) → length addr ≡ 16 → Demuxed (connect addr)
  unfolding demux_ipc_socket_call ipc_connect
  Demuxed-connect addr ha s stale =
      rw (le32-bytes32 pid [] hp, le32-bytes32 fd [] hf, sixteen addr stale ha) refl

  Demuxed-bind : (addr : List ℕ) → length addr ≡ 16 → Demuxed (bind addr)
  unfolding demux_ipc_socket_call ipc_bind
  Demuxed-bind addr ha s stale =
      rw (le32-bytes32 pid [] hp, le32-bytes32 fd [] hf, sixteen addr stale ha) refl

  Demuxed-listen : (backoff : ℕ) → backoff < 2 ^ 32 → Demuxed (listen backoff)
  unfolding demux_ipc_socket_call ipc_listen
  Demuxed-listen backoff hb s stale =
      rw (le32-bytes32 pid [] hp, le32-bytes32 fd [] hf, le32-bytes32 backoff [] hb) refl

  gather-inside :
      (offset : ℕ) (front buf stale : List ℕ) (c : Connection S)
      → length front ≡ offset
      → length buf ≤ 4096
      → gather api sockfd junk offset (length buf) (front ++ (buf ++ stale)) c ≡ some (buf, c)
  unfolding gather
  gather-inside offset front buf stale c e h =
      subst (λ k. gather api sockfd junk k (length buf) (front ++ (buf ++ stale)) c ≡ some (buf, c))
        e
        (rw
          (
            gather,
            ltb-lt (length buf) (2 ^ 31) (omega arith),
            ltb-ge 4096 (length buf) h,
            copy-inside front buf stale,
          )
          refl)

  -- What a handler of the stack does with the message of a call.
  abbrev Handles : (ℕ → List ℕ → Connection S → Handled S) → RemoteCall → Type 0
  Handles handler call =
      (s : S) (stale : List ℕ)
      → handler pid (payload_of fd call ++ stale) (conn s)
        ≡ ipc_write_rc api sockfd junk pid (type_of call) (perform api pid fd call s).0
            (conn (perform api pid fd call s).1)

  Handles-write :
      (buf : List ℕ) → length buf ≤ 4078 → Handles (ipc_write api sockfd junk) (write buf)
  unfolding ipc_write
  Handles-write buf hb s stale =
      let size = le64-bytes64 (length buf) [] (omega arith) in
      let whole =
        gather-inside 12 (bytes32 fd ++ bytes64 (length buf)) buf stale (conn s) refl
          (omega arith) in
      rw (ipc_write, size, whole, le32-bytes32 fd [] hf) refl

  Demuxed-write : (buf : List ℕ) → length buf ≤ 4078 → Demuxed (write buf)
  unfolding demux_ipc_socket_call
  Demuxed-write buf hb s stale =
      rw (demux_ipc_socket_call, le32-bytes32 pid [] hp) (Handles-write buf hb s stale)

  Handles-sendto :
      (buf addr : List ℕ)
      → length buf ≤ 4062
      → length addr ≡ 16
      → Handles (ipc_sendto api sockfd junk) (sendto buf addr)
  unfolding ipc_sendto
  Handles-sendto buf addr hb ha s stale =
      let size = le64-bytes64 (length buf) [] (omega arith) in
      let front = bytes32 fd ++ (bytes64 (length buf) ++ addr) in
      let whole = gather-inside 28 front buf stale (conn s) (omega (arith, ha)) (omega arith) in
      rw
        (
          append_assoc addr buf stale,
          ipc_sendto,
          size,
          whole,
          le32-bytes32 fd [] hf,
          append_assoc addr buf stale,
          sixteen addr (buf ++ stale) ha,
        )
        refl

  Demuxed-sendto :
      (buf addr : List ℕ) → length buf ≤ 4062 → length addr ≡ 16 → Demuxed (sendto buf addr)
  unfolding demux_ipc_socket_call
  Demuxed-sendto buf addr hb ha s stale =
      rw (demux_ipc_socket_call, le32-bytes32 pid [] hp) (Handles-sendto buf addr hb ha s stale)

  pub demuxed : (call : RemoteCall) → Fits call → Demuxed call
  demuxed (connect addr) h = Demuxed-connect addr h
  demuxed (bind addr) h = Demuxed-bind addr h
  demuxed (listen backoff) h = Demuxed-listen backoff h
  demuxed close h = Demuxed-close
  demuxed (write buf) h = Demuxed-write buf h
  demuxed (sendto buf addr) h = Demuxed-sendto buf addr h.0 h.1
