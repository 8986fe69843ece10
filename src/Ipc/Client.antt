-- ===== src/Ipc/Client.antt =====
-- toy_app/lib/liblevelip.c: the calls of an application, each a message to the stack and its
-- answer. Writes and reads that fail are left out; a shorter answer than the code reads is `stuck`.
use toy_ip.Base.{
  u32, ◌^◌, ℕ, ◌+◌, ◌-◌, Bool, true, false, not, ◌&&◌, ◌||◌, Option, none, some, List, [], ◌∷◌,
  ◌++◌, ltb, ◌==◌, if◌then◌else◌, length, take, drop,
}
use toy_ip.Checksum.{bytes16, bytes32}
use toy_ip.Ipc.{bytes64, le16, le32, le64, minus_one, is_negative, copy, zeros, uninit}

-- `struct lvlip_sock`
pub record LvlSock : Type 0 where
  pub lvlfd : ℕ
  pub fd : ℕ

-- The list `lvlip_socks` and `errno`.
pub record Client : Type 0 where
  pub socks : List LvlSock
  pub errno : ℕ

-- What a call does, `W` being all that is outside the application: `aborted` is a failed
-- assertion, `fault` an access behind the end of a buffer. `buf` and `addr` are what the call stores for its caller.
pub data Ret (W : Type 0) : Type 0 where
  aborted stuck fault : Ret W
  returned : (rc : ℕ) (buf addr : List ℕ) → Client → W → Ret W

unfoldable pub lvlip_get_sock : ℕ → List LvlSock → Option LvlSock
lvlip_get_sock fd [] = none
lvlip_get_sock fd (sock ∷ socks) =
    let rest = lvlip_get_sock fd socks in if sock.fd == fd then some sock else rest

-- `list_del_init` of the first with the descriptor
unfoldable pub lvlip_socks_remove : ℕ → List LvlSock → List LvlSock
lvlip_socks_remove fd [] = []
lvlip_socks_remove fd (sock ∷ socks) =
    let rest = lvlip_socks_remove fd socks in if sock.fd == fd then socks else sock ∷ rest

-- AF_INET is 2, SOCK_STREAM 1, SOCK_DGRAM 2, IPPROTO_TCP 6.
unfoldable pub is_socket_supported : (domain type protocol : ℕ) → Bool
is_socket_supported domain type protocol =
    (domain == 2) && (((type == 1) || (type == 2)) && ((protocol == 0) || (protocol == 6)))

-- The front of an answer: `struct ipc_msg` and `struct ipc_err`.
pub record Response : Type 0 where
  pub type : ℕ
  pub pid : ℕ
  pub rc : ℕ
  pub err : ℕ
  pub rest : List ℕ

unfoldable pub response : List ℕ → Option Response
response bytes =
    if ltb (length bytes) 14
    then none
    else some (record {
      type = le16 bytes;
      pid = le32 (drop 2 bytes);
      rc = le32 (drop 6 bytes);
      err = le32 (drop 10 bytes);
      rest = drop 14 bytes;
    })

abbrev pub take_rc : {W : Type 0} → Client → Response → W → Ret W
take_rc cl r v =
    returned r.rc [] [] (if r.rc == minus_one then record cl { errno = r.err } else cl) v

-- The bytes of a call for a socket that the application has.
abbrev pub on_sock : {W : Type 0} (fd : ℕ) (missing : Ret W) → Client → (LvlSock → Ret W) → Ret W
on_sock fd missing cl call = elim (lvlip_get_sock fd cl.socks) [
  | none ↦ missing
  | some sock ↦ call sock
]

-- The new socket is in the list with the descriptor 0 until the answer is there; if the answer
-- is -1, it stays there though its memory is freed.
abbrev pub finish_socket : {W : Type 0} (lvlfd : ℕ) → Client → Ret W → Ret W
finish_socket lvlfd before (returned rc buf addr cl v) =
    returned rc buf addr
      (if rc == minus_one
        then cl
        else record cl { socks = before.socks ++ (record { lvlfd = lvlfd; fd = rc } ∷ []) })
      v
finish_socket lvlfd before ret = ret

abbrev pub finish_close : {W : Type 0} (fd : ℕ) → Ret W → Ret W
finish_close fd (returned rc buf addr cl v) =
    returned rc buf addr
      (if rc == 0 then record cl { socks = lvlip_socks_remove fd cl.socks } else cl) v
finish_close fd ret = ret

-- The caller's buffer of `len` bytes after `memset` and `memcpy`.
abbrev pub copied_out : (len dlen : ℕ) → List ℕ → Option (List ℕ)
copied_out len dlen bytes = elim (copy 0 dlen bytes) [
  | none ↦ none
  | some front ↦ some (front ++ zeros (len - dlen))
]

abbrev pub fill : {W : Type 0} (len dlen : ℕ) → (bytes addr : List ℕ) → Client → W → Ret W
fill len dlen bytes addr cl v = elim (copied_out len dlen bytes) [
  | none ↦ fault
  | some buf ↦ returned dlen buf addr cl v
]

-- The buffer for the answer has `room` bytes, and zeros behind the answer.
abbrev pub padded : (room : ℕ) → Response → List ℕ
padded room r = r.rest ++ zeros (room - 14 - length r.rest)

-- `room` is the size of the buffer for the answer, `len` that of the caller's.
unfoldable pub take_read : {W : Type 0} (room len : ℕ) → Client → Response → W → Ret W
take_read room len cl r v =
    let rest = padded room r in
    let dlen = le64 (drop 4 rest) in
    if is_negative r.rc
    then returned r.rc [] [] (record cl { errno = r.err }) v
    else if ltb len dlen
    then returned minus_one [] [] cl v
    else fill len dlen (drop 12 rest) [] cl v

abbrev pub flag : Bool → ℕ
flag true = 1
flag false = 0

-- There is no return for a length that is too large.
unfoldable pub take_recvfrom :
    {W : Type 0} (room len : ℕ) (wanted : Bool) → Client → Response → W → Ret W
take_recvfrom room len wanted cl r v =
    let rest = padded room r in
    let dlen = le64 (drop 4 rest) in
    if is_negative r.rc
    then returned r.rc [] [] (record cl { errno = r.err }) v
    else if ltb len dlen
    then fault
    else fill len dlen (drop 32 rest) (if wanted then take 16 (drop 16 rest) else []) cl v

unfoldable pub take_accept :
    {W : Type 0} (lvlfd : ℕ) (wanted : Bool) → Client → Response → W → Ret W
take_accept lvlfd wanted cl r v =
    if is_negative r.rc
    then returned r.rc [] [] (record cl { errno = r.err }) v
    else returned r.rc [] (if wanted then take 16 (drop 8 (padded 38 r)) else [])
        (record cl { socks = cl.socks ++ (record { lvlfd = lvlfd; fd = r.rc } ∷ []) }) v

-- `peer lvlfd n msg w` writes `msg` to the socket `lvlfd` and reads the answer, at most `n` bytes;
-- `init_socket` connects a new one. `getpid` is the process.
module _ {W : Type 0} (peer : (lvlfd n : ℕ) → List ℕ → W → Option (List ℕ × W))
    (init_socket : W → ℕ × W) (getpid : ℕ) (junk : ℕ → ℕ) where
  -- A message with its header, and what is done with an answer of its type and process.
  unfoldable pub exchange :
      (lvlfd n type : ℕ) → List ℕ → Client → W → (Response → W → Ret W) → Ret W
  exchange lvlfd n type payload cl w continue =
      elim (peer lvlfd n (bytes16 type ++ (bytes32 getpid ++ payload)) w) [
        | none ↦ stuck
        | some (bytes, v) ↦ elim (response bytes) [
          | none ↦ stuck
          | some r ↦
              if not (r.type == type) || not (r.pid == getpid)
              then returned minus_one [] [] cl v
              else continue r v
        ]
      ]

  unfoldable pub transmit_lvlip : (lvlfd type : ℕ) → List ℕ → Client → W → Ret W
  transmit_lvlip lvlfd type payload cl w = exchange lvlfd 512 type payload cl w (take_rc cl)

  unfoldable pub lvl_socket : (domain type protocol : ℕ) → Client → W → Ret W
  lvl_socket domain type protocol cl w =
      if not (is_socket_supported domain type protocol)
      then aborted
      else (let (lvlfd, v) = init_socket w in
          let added = cl.socks ++ (record { lvlfd = lvlfd; fd = 0 } ∷ []) in
          finish_socket lvlfd cl (
            transmit_lvlip lvlfd 1 (bytes32 domain ++ (bytes32 type ++ bytes32 protocol))
              (record cl { socks = added }) v))

  unfoldable pub lvl_close : (fd : ℕ) → Client → W → Ret W
  lvl_close fd cl w =
      on_sock fd aborted cl
        (λ sock. finish_close fd (transmit_lvlip sock.lvlfd 5 (bytes32 fd) cl w))

  unfoldable pub lvl_connect : (fd : ℕ) (addr : List ℕ) → Client → W → Ret W
  lvl_connect fd addr cl w =
      on_sock fd aborted cl (λ sock. transmit_lvlip sock.lvlfd 2 (bytes32 fd ++ addr) cl w)

  unfoldable pub lvl_bind : (fd : ℕ) (addr : List ℕ) → Client → W → Ret W
  lvl_bind fd addr cl w =
      on_sock fd (returned minus_one [] [] cl w) cl
        (λ sock. transmit_lvlip sock.lvlfd 6 (bytes32 fd ++ addr) cl w)

  unfoldable pub lvl_listen : (fd backoff : ℕ) → Client → W → Ret W
  lvl_listen fd backoff cl w =
      on_sock fd (returned minus_one [] [] cl w) cl
        (λ sock. transmit_lvlip sock.lvlfd 8 (bytes32 fd ++ bytes32 backoff) cl w)

  -- The int `msglen` holds the size of the message, or the memory of `alloca` is too small for it.
  abbrev pub if_int : (size : ℕ) → Ret W → Ret W
  if_int size ret = if ltb size (2 ^ 31) then ret else fault

  unfoldable pub lvl_write : (fd : ℕ) (buf : List ℕ) → Client → W → Ret W
  lvl_write fd buf cl w = on_sock fd aborted cl (λ sock.
      if_int (18 + length buf)
        (transmit_lvlip sock.lvlfd 3 (bytes32 fd ++ (bytes64 (length buf) ++ buf)) cl w))

  unfoldable pub lvl_sendto : (fd : ℕ) (buf addr : List ℕ) → Client → W → Ret W
  lvl_sendto fd buf addr cl w = on_sock fd (returned minus_one [] [] cl w) cl (λ sock.
      if_int (34 + length buf)
        (transmit_lvlip sock.lvlfd 9 (bytes32 fd ++ (bytes64 (length buf) ++ (addr ++ buf))) cl w))

  -- The int `rlen` is the size of the array `rbuf`, in which the fields of the answer, of `fields`
  -- bytes, have to fit.
  abbrev pub if_array : (rlen fields : ℕ) → Ret W → Ret W
  if_array rlen fields ret = if is_negative rlen || ltb rlen fields then fault else ret

  unfoldable pub lvl_read : (fd len : ℕ) → Client → W → Ret W
  lvl_read fd len cl w = on_sock fd aborted cl (λ sock.
      let rlen = u32 (26 + len) in
      if_array rlen 26
        (exchange sock.lvlfd rlen 4 (bytes32 fd ++ bytes64 len) cl w (take_read rlen len cl)))

  unfoldable pub lvl_recvfrom : (fd len : ℕ) (wanted : Bool) → Client → W → Ret W
  lvl_recvfrom fd len wanted cl w = on_sock fd (returned minus_one [] [] cl w) cl (λ sock.
      let rlen = u32 (46 + len) in
      if_array rlen 46 (
        exchange sock.lvlfd rlen 10
          (bytes32 fd ++ (bytes64 len ++ (bytes32 (flag wanted) ++ uninit junk 16))) cl w
          (take_recvfrom rlen len wanted cl)))

  unfoldable pub lvl_accept : (fd : ℕ) (wanted : Bool) → Client → W → Ret W
  lvl_accept fd wanted cl w = on_sock fd aborted cl (λ sock.
      exchange sock.lvlfd 38 7 (bytes32 fd ++ (bytes32 (flag wanted) ++ zeros 16)) cl w
        (take_accept sock.lvlfd wanted cl))
