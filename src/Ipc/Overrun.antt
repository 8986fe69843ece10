-- ===== src/Ipc/Overrun.antt =====
-- Writes that are too long for the buffer of the stack's thread.
use toy_ip.Base.{
  true, ltb-lt, ==-zero_lt, ℕ, ◌+◌, ◌^◌, ◌<◌, ◌≤◌, ◌≡◌, refl, none, some, List, [], ◌++◌, arith,
  Bool-cases, inl, inr, ltb, length, take, drop, length-take, ap, append-nil,
}
use toy_ip.Checksum.{bytes16, bytes32}
use toy_ip.Ipc.{bytes64, copy, Api}
use toy_ip.Ipc.Server.{Connection, fault, gather, ipc_write, demux_ipc_socket_call}
use toy_ip.Ipc.Client.{
  LvlSock, Client, stuck, lvlip_get_sock, on_sock, exchange, transmit_lvlip, lvl_write,
}
use toy_ip.Ipc.Link.{Served, peer, overrun, socket_ipc_round, after}
use toy_ip.Ipc.Wire.{le32-bytes32, le64-bytes64, drop_all, at_rest}

copy-outside : (offset n : ℕ) (buf : List ℕ) → length buf < offset + n → copy offset n buf ≡ none
copy-outside offset n buf h = rw (copy, ltb-lt (length buf) (offset + n) h) refl

module _ {S : Type 0} (api : Api S) (sockfd : ℕ) (junk : ℕ → ℕ) (pid fd : ℕ) (hp : pid < 2 ^ 32)
    (xs : List ℕ) (long : 4078 < length xs) (hl : 18 + length xs < 2 ^ 31) where
  abbrev request : List ℕ
  request = bytes16 3 ++ (bytes32 pid ++ (bytes32 fd ++ (bytes64 (length xs) ++ xs)))

  -- What of the message is in the buffer behind the header.
  abbrev msg : List ℕ
  msg = bytes32 fd ++ (bytes64 (length xs) ++ take 4078 xs)

  length-msg : length msg ≡ 4090
  length-msg = omega (arith, length-take 4078 xs)

  abbrev held : List ℕ
  held = bytes16 3 ++ (bytes32 pid ++ msg)

  none_gathered : (c : Connection S) → gather api sockfd junk 12 (length xs) msg c ≡ none
  unfolding gather
  none_gathered c =
      let int : ltb (length xs) (2 ^ 31) ≡ true = ltb-lt (length xs) (2 ^ 31) (omega arith) in
      elim (Bool-cases (ltb 4096 (length xs))) [
        | inl e ↦ rw (gather, int, e, copy-outside 12 4096 msg (omega (arith, length-msg))) refl
        | inr e ↦
            rw (gather, int, e, copy-outside 12 (length xs) msg (omega (arith, length-msg))) refl
      ]

  write-fault : (c : Connection S) → ipc_write api sockfd junk pid msg c ≡ fault
  unfolding ipc_write
  write-fault c = rw (ipc_write, le64-bytes64 (length xs) [] (omega arith), none_gathered c) refl

  demuxed_fault :
      (c : Connection S)
      → demux_ipc_socket_call api sockfd junk (bytes16 3 ++ (bytes32 pid ++ msg)) c ≡ fault
  unfolding demux_ipc_socket_call
  demuxed_fault c = rw (demux_ipc_socket_call, le32-bytes32 pid [] hp) (write-fault c)

  round_overrun :
      (buf : List ℕ) (s : S)
      → length buf ≤ 4096
      → socket_ipc_round api sockfd junk buf (record { pending = request; replies = []; stack = s })
        ≡ overrun
  unfolding socket_ipc_round
  round_overrun buf s hb =
      let stale : drop (length held) buf ≡ [] =
        drop_all (length held) buf (omega (arith, length-msg)) in
      let more = ==-zero_lt (length held) (omega arith) in
      rw (socket_ipc_round, stale, append-nil held, more)
        (ap (after held)
          (demuxed_fault (record { pending = drop 4096 request; replies = []; stack = s })))

  -- A `lvl_write` of more than 4078 and at most 2 ^ 31 - 19 bytes on a socket that the application
  -- has, over an idle connection, gets no answer: the thread of the stack, whose buffer has at most
  -- 4096 bytes, copies from behind the end of that buffer before it calls `_write`. The process
  -- number has 32 bits.
  pub lvl_write-overrun :
      (init_socket : Served S → ℕ × Served S) (cl : Client) (sock : LvlSock) (s : S) (buf : List ℕ)
      → lvlip_get_sock fd cl.socks ≡ some sock
      → length buf ≤ 4096
      → (socket_ipc_round api sockfd junk buf
            (record { pending = request; replies = []; stack = s })
          ≡ overrun)
        × (lvl_write (peer api sockfd junk) init_socket pid junk fd xs cl (at_rest s buf) ≡ stuck)
  unfolding lvl_write transmit_lvlip exchange peer
  lvl_write-overrun init_socket cl sock s buf known hb = (
    round_overrun buf s hb,
    rw
        (
          lvl_write,
          on_sock,
          known,
          ltb-lt (18 + length xs) (2 ^ 31) hl,
          transmit_lvlip,
          exchange,
          peer,
          round_overrun buf s hb,
        )
        refl,
  )
