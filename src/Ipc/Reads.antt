-- ===== src/Ipc/Reads.antt =====
-- `lvl_read` of the application library against `_read` in the stack.
use toy_ip.Base.{
  u32, ◌||◌, ltb-lt, ltb-ge, ℕ, ◌+◌, ◌-◌, ◌^◌, ◌<◌, ◌≤◌, ◌≡◌, refl, some, List, [], ◌++◌, arith,
  false, ltb, length, take, drop, length-take, take-append-drop, ==_iff, subst,
}
use toy_ip.Checksum.{bytes16, bytes32}
use toy_ip.Ipc.{bytes64, is_negative, copy, zeros, Api}
use toy_ip.Ipc.Server.{handled, read_response, ipc_read, demux_ipc_socket_call}
use toy_ip.Ipc.Client.{
  LvlSock, Client, returned, lvlip_get_sock, on_sock, response, exchange, copied_out, fill,
  take_read, lvl_read,
}
use toy_ip.Ipc.Link.{Served, peer}
use toy_ip.Ipc.Wire.{le32-bytes32, le64-bytes64, copy-inside, conn, at_rest, served-reply}

-- The answer of `ipc_read`.
read_answer : (pid fd rlen : ℕ) → List ℕ → List ℕ
read_answer pid fd rlen bytes =
    bytes16 4
    ++ (bytes32 pid ++ (bytes32 rlen ++ (bytes32 0 ++ (bytes32 fd ++ (bytes64 rlen ++ bytes)))))

length-read_answer :
    (pid fd rlen : ℕ) (bytes : List ℕ) → length (read_answer pid fd rlen bytes) ≡ 26 + length bytes
unfolding read_answer
length-read_answer pid fd rlen bytes = omega arith

response-read_answer :
    (pid fd rlen : ℕ) (bytes : List ℕ)
    → pid < 2 ^ 32
    → rlen < 2 ^ 31
    → response (read_answer pid fd rlen bytes)
      ≡ some (record {
        type = 4;
        pid = pid;
        rc = rlen;
        err = 0;
        rest = bytes32 fd ++ (bytes64 rlen ++ bytes);
      })
unfolding response read_answer
response-read_answer pid fd rlen bytes hp hr =
    let long : ltb (length (read_answer pid fd rlen bytes)) 14 ≡ false =
      ltb-ge (length (read_answer pid fd rlen bytes)) 14
        (omega (arith, length-read_answer pid fd rlen bytes)) in
    rw (response, long, le32-bytes32 pid [] hp, le32-bytes32 rlen [] (omega arith)) refl

copy_all :
    (rlen : ℕ) (bytes rest : List ℕ)
    → length bytes ≡ rlen
    → copy 0 rlen (bytes ++ rest) ≡ some bytes
copy_all rlen bytes rest e =
    subst (λ n. copy 0 n (bytes ++ rest) ≡ some bytes) e (copy-inside [] bytes rest)

fill-copy :
    {W : Type 0} (len dlen : ℕ) (from front addr : List ℕ) (cl : Client) (w : W)
    → copy 0 dlen from ≡ some front
    → fill len dlen from addr cl w ≡ returned dlen (front ++ zeros (len - dlen)) addr cl w
fill-copy len dlen from front addr cl w e = rw (fill, copied_out, e) refl

module _ {S : Type 0} (api : Api S) (sockfd : ℕ) (junk : ℕ → ℕ) (pid fd len : ℕ) (hp : pid < 2 ^ 32)
    (hf : fd < 2 ^ 32) (hl : 26 + len < 2 ^ 31) (s t : S) (rlen : ℕ) (rbuf : List ℕ)
    (reads : api.read_call pid fd (zeros len) s ≡ (rlen, (rbuf, t))) (hr : rlen < 2 ^ 31)
    (inside : rlen ≤ len) (same : length rbuf ≡ len) where
  abbrev bytes : List ℕ
  bytes = take rlen rbuf

  length-bytes : length bytes ≡ rlen
  length-bytes = omega (arith, length-take rlen rbuf, same)

  nonnegative : is_negative rlen ≡ false
  nonnegative = ground (arith, hr)

  copied : copy 0 rlen rbuf ≡ some bytes
  copied =
      subst (λ b. copy 0 rlen b ≡ some bytes) (take-append-drop rlen rbuf)
        (copy_all rlen bytes (drop rlen rbuf) length-bytes)

  responds :
      read_response api sockfd junk pid fd (conn s) (rlen, (rbuf, t))
      ≡ handled 0 (record { pending = []; replies = read_answer pid fd rlen bytes; stack = t })
  unfolding read_response read_answer
  responds = rw (read_response, nonnegative, copied, nonnegative) refl

  demuxed_read :
      (stale : List ℕ)
      → demux_ipc_socket_call api sockfd junk
          (bytes16 4 ++ (bytes32 pid ++ (bytes32 fd ++ bytes64 len)) ++ stale)
          (conn s)
        ≡ handled 0 (record { pending = []; replies = read_answer pid fd rlen bytes; stack = t })
  unfolding demux_ipc_socket_call ipc_read
  demuxed_read stale =
      rw
        (
          demux_ipc_socket_call,
          le32-bytes32 pid [] hp,
          ipc_read,
          le64-bytes64 len [] (omega arith),
          ltb-lt len (2 ^ 31) (omega arith),
          le32-bytes32 fd [] hf,
          reads,
        )
        responds

  taken :
      {W : Type 0} (cl : Client) (w : W)
      → take_read
          (26 + len)
          len
          cl
          (record {
            type = 4;
            pid = pid;
            rc = rlen;
            err = 0;
            rest = bytes32 fd ++ (bytes64 rlen ++ bytes);
          })
          w
        ≡ returned rlen (bytes ++ zeros (len - rlen)) [] cl w
  unfolding take_read
  taken cl w =
      let rest = bytes32 fd ++ (bytes64 rlen ++ bytes) in
      let tail = zeros (26 + len - 14 - length rest) in
      rw (take_read, nonnegative, le64-bytes64 rlen [] (omega arith), ltb-ge len rlen inside)
        (fill-copy len rlen (bytes ++ tail) bytes [] cl w (copy_all rlen bytes tail length-bytes))

  -- The message of `lvl_read`.
  abbrev request : List ℕ
  request = bytes16 4 ++ (bytes32 pid ++ (bytes32 fd ++ bytes64 len))

  -- Where `_read` in the stack, given a buffer of the length asked for, keeps its length and returns
  -- a number that is not negative and at most that length: `lvl_read` on a socket that the
  -- application has, over an idle connection, is one call of it with the same process, descriptor
  -- and length. It returns the same number, and the caller's buffer holds that many bytes of the
  -- buffer that `_read` filled, and zeros behind them. Ints have 32 bits, and the length is at most
  -- 2 ^ 31 - 27, so that the answer has a size that is an int.
  pub lvl_read-read :
      (init_socket : Served S → ℕ × Served S) (cl : Client) (sock : LvlSock) (buf : List ℕ)
      → lvlip_get_sock fd cl.socks ≡ some sock
      → (held : List ℕ) × (lvl_read
            (peer api sockfd junk)
            init_socket
            pid
            junk
            fd
            len
            cl
            (at_rest s buf)
          ≡ returned rlen (take rlen rbuf ++ zeros (len - rlen)) [] cl (at_rest t held))
  unfolding lvl_read exchange
  lvl_read-read init_socket cl sock buf known =
      let held = request ++ drop (length request) buf in
      let room : length (read_answer pid fd rlen bytes) ≤ 26 + len =
        omega (arith, length-read_answer pid fd rlen bytes, length-bytes) in
      let served =
        served-reply api sockfd junk sock.lvlfd (26 + len) request (read_answer pid fd rlen bytes)
          buf s t (omega arith) (omega arith) room (demuxed_read (drop (length request) buf)) in
      let rlen_is : u32 (26 + len) ≡ 26 + len = omega arith in
      let array : (is_negative (26 + len) || ltb (26 + len) 26) ≡ false = ground (arith, hl) in
      let same_pid = (==_iff pid pid).1 refl in
      (
        held,
        rw
            (
              lvl_read,
              on_sock,
              known,
              rlen_is,
              array,
              exchange,
              served,
              response-read_answer pid fd rlen bytes hp hr,
              same_pid,
              rlen_is,
            )
            (taken cl (at_rest t held)),
      )
