-- ===== src/Ipc/Server.antt =====
-- toy_src/ipc.c: the messages that the stack takes from an application, over the functions of
-- toy_src/socket.c. A read takes what is there of the application's bytes, at most as many as asked
-- for; reads and writes that fail are left out.
use toy_ip.Base.{
  ◌^◌, not, ℕ, ◌-◌, Option, none, some, List, ◌++◌, ltb, ◌==◌, if◌then◌else◌, length, take, drop,
}
use toy_ip.Checksum.{bytes16, bytes32}
use toy_ip.Ipc.{
  bytes64, le16, le32, le64, minus_one, is_negative, negated, copy, zeros, uninit, Api,
}

-- A connection: the bytes of the application not read yet, those for it not read by it yet, and
-- the state of the stack.
pub record Connection (S : Type 0) : Type 0 where
  pub pending : List ℕ
  pub replies : List ℕ
  pub stack : S

-- What a handler does: `fault` is an access behind the end of a buffer.
pub data Handled (S : Type 0) : Type 0 where
  fault : Handled S
  handled : (rc : ℕ) → Connection S → Handled S

-- `err.rc` and `err.err` for what a function returned.
abbrev pub ipc_err : ℕ → List ℕ
ipc_err rc =
    if is_negative rc then bytes32 minus_one ++ bytes32 (negated rc) else bytes32 rc ++ bytes32 0

-- `sockfd` is the connection's descriptor, `junk` what the stack of the thread holds.
module _ {S : Type 0} (api : Api S) (sockfd : ℕ) (junk : ℕ → ℕ) where
  abbrev pub respond : List ℕ → Connection S → Handled S
  respond bytes c = handled 0 (record c { replies = c.replies ++ bytes })

  unfoldable pub ipc_write_rc : (pid type rc : ℕ) → Connection S → Handled S
  ipc_write_rc pid type rc c = respond (bytes16 type ++ (bytes32 pid ++ ipc_err rc)) c

  -- A function's result and the state it leaves, answered by `ipc_write_rc`.
  abbrev pub answer : (pid type : ℕ) → Connection S → ℕ × S → Handled S
  answer pid type c (rc, s) = ipc_write_rc pid type rc (record c { stack = s })

  unfoldable pub ipc_socket : (pid : ℕ) → List ℕ → Connection S → Handled S
  ipc_socket pid msg c =
      answer pid 1 c
        (api.socket_call pid (le32 msg) (le32 (drop 4 msg)) (le32 (drop 8 msg)) c.stack)

  unfoldable pub ipc_connect : (pid : ℕ) → List ℕ → Connection S → Handled S
  ipc_connect pid msg c =
      answer pid 2 c (api.connect_call pid (le32 msg) (take 16 (drop 4 msg)) c.stack)

  unfoldable pub ipc_close : (pid : ℕ) → List ℕ → Connection S → Handled S
  ipc_close pid msg c = answer pid 5 c (api.close_call pid (le32 msg) c.stack)

  unfoldable pub ipc_bind : (pid : ℕ) → List ℕ → Connection S → Handled S
  ipc_bind pid msg c = answer pid 6 c (api.bind_call pid (le32 msg) (take 16 (drop 4 msg)) c.stack)

  unfoldable pub ipc_listen : (pid : ℕ) → List ℕ → Connection S → Handled S
  ipc_listen pid msg c = answer pid 8 c (api.listen_call pid (le32 msg) (le32 (drop 4 msg)) c.stack)

  -- The bytes to send: the first 4096 from the message, at `offset`, and the rest from the
  -- connection, as many as are there, before zeros.
  unfoldable pub gather : (offset len : ℕ) → List ℕ → Connection S → Option (List ℕ × Connection S)
  gather offset len msg c =
      if not (ltb len (2 ^ 31))
      then none
      else if ltb 4096 len
      then elim (copy offset 4096 msg) [
        | none ↦ none
        | some front ↦
            let more = take (len - 4096) c.pending in
            some (
              front ++ (more ++ zeros (len - 4096 - length more)),
              record c { pending = drop (len - 4096) c.pending },
            )
      ]
      else elim (copy offset len msg) [ none ↦ none | some buf ↦ some (buf, c) ]

  unfoldable pub ipc_write : (pid : ℕ) → List ℕ → Connection S → Handled S
  ipc_write pid msg c = elim (gather 12 (le64 (drop 4 msg)) msg c) [
    | none ↦ fault
    | some (buf, d) ↦ answer pid 3 d (api.write_call pid (le32 msg) buf d.stack)
  ]

  unfoldable pub ipc_sendto : (pid : ℕ) → List ℕ → Connection S → Handled S
  ipc_sendto pid msg c = elim (gather 28 (le64 (drop 4 msg)) msg c) [
    | none ↦ fault
    | some (buf, d) ↦
        answer pid 9 d (api.sendto_call pid (le32 msg) buf (take 16 (drop 12 msg)) d.stack)
  ]

  -- The response of `ipc_read` is allocated with `rlen` bytes behind its fields, too few for them
  -- if `rlen` is negative.
  unfoldable pub read_response : (pid fd : ℕ) → Connection S → ℕ × (List ℕ × S) → Handled S
  read_response pid fd c (rlen, (rbuf, s)) =
      if is_negative rlen then fault else elim (copy 0 rlen rbuf) [
        | none ↦ fault
        | some bytes ↦
            respond
              (bytes16 4
                ++ (bytes32 pid ++ (ipc_err rlen ++ (bytes32 fd ++ (bytes64 rlen ++ bytes)))))
              (record c { stack = s })
      ]

  unfoldable pub ipc_read : (pid : ℕ) → List ℕ → Connection S → Handled S
  ipc_read pid msg c =
      let len = le64 (drop 4 msg) in
      if not (ltb len (2 ^ 31))
      then fault
      else read_response pid (le32 msg) c (api.read_call pid (le32 msg) (zeros len) c.stack)

  -- The address goes into the response if the request asked for it.
  abbrev pub addr_field : (wanted : ℕ) → List ℕ → List ℕ
  addr_field wanted addr = if wanted == 0 then uninit junk 16 else addr

  unfoldable pub recvfrom_response :
      (pid fd wanted : ℕ) → Connection S → ℕ × (List ℕ × (List ℕ × S)) → Handled S
  recvfrom_response pid fd wanted c (rlen, (rbuf, (addr, s))) =
      if is_negative rlen then fault else elim (copy 0 rlen rbuf) [
        | none ↦ fault
        | some bytes ↦
            respond
              (bytes16 10
                ++ (bytes32 pid
                    ++ (ipc_err rlen
                        ++ (bytes32 fd
                            ++ (bytes64 rlen
                                ++ (uninit junk 4 ++ (addr_field wanted addr ++ bytes)))))))
              (record c { stack = s })
      ]

  unfoldable pub ipc_recvfrom : (pid : ℕ) → List ℕ → Connection S → Handled S
  ipc_recvfrom pid msg c =
      let wanted = le32 (drop 12 msg) in
      let addr = if wanted == 0 then none else some (take 16 (drop 16 msg)) in
      let len = le64 (drop 4 msg) in
      if not (ltb len (2 ^ 31))
      then fault
      else recvfrom_response pid (le32 msg) wanted c
          (api.recvfrom_call pid (le32 msg) (zeros len) addr c.stack)

  abbrev pub accept_response : (pid wanted : ℕ) → Connection S → ℕ × (List ℕ × S) → Handled S
  accept_response pid wanted c (rc, (addr, s)) =
      respond
        (bytes16 7
          ++ (bytes32 pid
              ++ (bytes32 rc
                  ++ (bytes32 0 ++ (bytes32 sockfd ++ (uninit junk 4 ++ addr_field wanted addr))))))
        (record c { stack = s })

  unfoldable pub ipc_accept : (pid : ℕ) → List ℕ → Connection S → Handled S
  ipc_accept pid msg c =
      let wanted = le32 (drop 4 msg) in
      let addr = if wanted == 0 then none else some (uninit junk 16) in
      accept_response pid wanted c (api.accept_call pid (le32 msg) addr c.stack)

  -- The `switch` on the type.
  unfoldable pub demux_ipc_socket_call : List ℕ → Connection S → Handled S
  demux_ipc_socket_call cmdbuf c =
      let type = le16 cmdbuf in
      let pid = le32 (drop 2 cmdbuf) in
      let msg = drop 6 cmdbuf in
      if type == 1
      then ipc_socket pid msg c
      else if type == 2
      then ipc_connect pid msg c
      else if type == 3
      then ipc_write pid msg c
      else if type == 4
      then ipc_read pid msg c
      else if type == 6
      then ipc_bind pid msg c
      else if type == 7
      then ipc_accept pid msg c
      else if type == 5
      then ipc_close pid msg c
      else if type == 8
      then ipc_listen pid msg c
      else if type == 9
      then ipc_sendto pid msg c
      else if type == 10
      then ipc_recvfrom pid msg c
      else handled 0 c
