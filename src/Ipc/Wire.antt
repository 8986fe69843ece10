-- ===== src/Ipc/Wire.antt =====
-- Fields that are written and read back, and one message through the loop of the stack.
use toy_ip.Base.{
  take_front, drop_front, ltb-ge, ℕ, zero, suc, ◌+◌, ◌^◌, ◌<◌, ◌≤◌, ◌≡◌, refl, Option, some, List,
  [], ◌∷◌, ◌++◌, arith, false, ◌==◌, if◌then◌else◌, length, take, drop, length-append, ==_iff,
  Bool-cases, inl, inr,
}
use toy_ip.Checksum.{bytes16, bytes32}
use toy_ip.Ipc.{bytes64, le16, le32, le64, minus_one, is_negative, negated, copy, Api}
use toy_ip.Ipc.Server.{Connection, handled, ipc_write_rc, ipc_err, demux_ipc_socket_call}
use toy_ip.Ipc.Client.{Client, returned, response, exchange, transmit_lvlip}
use toy_ip.Ipc.Link.{after, socket_ipc_round, Served, peer}

pub le16-bytes16 : (n : ℕ) (rest : List ℕ) → n < 2 ^ 16 → le16 (bytes16 n ++ rest) ≡ n
le16-bytes16 n rest h = omega arith

pub le32-bytes32 : (n : ℕ) (rest : List ℕ) → n < 2 ^ 32 → le32 (bytes32 n ++ rest) ≡ n
le32-bytes32 n rest h = omega arith

pub le64-bytes64 : (n : ℕ) (rest : List ℕ) → n < 2 ^ 64 → le64 (bytes64 n ++ rest) ≡ n
le64-bytes64 n rest h = omega arith

module _ {A : Type 0} where
  take_all : (n : ℕ) (xs : List A) → length xs ≤ n → take n xs ≡ xs
  take_all zero [] h = refl
  take_all (suc n) [] h = refl
  take_all zero (x ∷ xs) h = absurd (omega arith)
  take_all (suc n) (x ∷ xs) h = rw (take_all n xs (omega arith)) refl

  pub drop_all : (n : ℕ) (xs : List A) → length xs ≤ n → drop n xs ≡ []
  drop_all zero [] h = refl
  drop_all (suc n) [] h = refl
  drop_all zero (x ∷ xs) h = absurd (omega arith)
  drop_all (suc n) (x ∷ xs) h = drop_all n xs (omega arith)

-- The bytes `xs` are read back from a buffer that holds them behind `front`.
pub copy-inside :
    (front xs rest : List ℕ) → copy (length front) (length xs) (front ++ (xs ++ rest)) ≡ some xs
copy-inside front xs rest =
    let size : length front + length xs ≤ length (front ++ (xs ++ rest)) =
      omega (arith, length-append front (xs ++ rest), length-append xs rest) in
    rw
      (
        ltb-ge (length (front ++ (xs ++ rest))) (length front + length xs) size,
        drop_front front (xs ++ rest),
        take_front xs rest,
      )
      refl

-- What the application makes of an answer by `ipc_write_rc`: -1 with `errno` set if the function
-- returned a negative number, and else what it returned.
abbrev pub code : ℕ → ℕ
code rc = if is_negative rc then minus_one else rc

abbrev pub errno_after : ℕ → ℕ → ℕ
errno_after rc errno = if is_negative rc then negated rc else errno

-- The answer of `ipc_write_rc`.
abbrev pub rc_answer : (type pid rc : ℕ) → List ℕ
rc_answer type pid rc = bytes16 type ++ (bytes32 pid ++ ipc_err rc)

module _ (type pid rc : ℕ) (ht : type < 2 ^ 16) (hp : pid < 2 ^ 32) (hr : rc < 2 ^ 32) where
  pub length-rc_answer : length (rc_answer type pid rc) ≡ 14
  length-rc_answer = elim (Bool-cases (is_negative rc)) [ inl e ↦ rw e refl | inr e ↦ rw e refl ]

  response-rc_answer :
      response (rc_answer type pid rc)
      ≡ some (record { type = type; pid = pid; rc = code rc; err = errno_after rc 0; rest = [] })
  unfolding response
  response-rc_answer = elim (Bool-cases (is_negative rc)) [
    | inl e ↦
        rw
          (
            e,
            response,
            le16-bytes16 type [] ht,
            le32-bytes32 pid [] hp,
            le32-bytes32 (negated rc) [] (omega arith),
          )
          refl
    | inr e ↦
        rw (e, response, le16-bytes16 type [] ht, le32-bytes32 pid [] hp, le32-bytes32 rc [] hr)
          refl
  ]

  -- An answer is taken for the return value.
  pub take_rc-answer :
      {W : Type 0} (peer : (lvlfd n : ℕ) → List ℕ → W → Option (List ℕ × W))
      (init_socket : W → ℕ × W) (junk : ℕ → ℕ) (lvlfd : ℕ) (payload : List ℕ) (cl : Client)
      (w v : W)
      → peer lvlfd 512 (bytes16 type ++ (bytes32 pid ++ payload)) w
        ≡ some (rc_answer type pid rc, v)
      → transmit_lvlip peer init_socket pid junk lvlfd type payload cl w
        ≡ returned (code rc) [] [] (record cl { errno = errno_after rc cl.errno }) v
  unfolding transmit_lvlip exchange
  take_rc-answer peer init_socket junk lvlfd payload cl w v e =
      let same_type = (==_iff type type).1 refl in
      let same_pid = (==_iff pid pid).1 refl in
      elim (Bool-cases (is_negative rc)) [
        | inl n ↦ rw (transmit_lvlip, exchange, e, response-rc_answer, same_type, same_pid, n) refl
        | inr n ↦
            let other : (rc == minus_one) ≡ false = ground (arith, n) in
            rw (transmit_lvlip, exchange, e, response-rc_answer, same_type, same_pid, n, other) refl
      ]

-- The link at rest, with what the buffer of the stack's thread holds.
abbrev pub conn : {S : Type 0} → S → Connection S
conn s = record { pending = []; replies = []; stack = s }

abbrev pub at_rest : {S : Type 0} → S → List ℕ → Served S
at_rest s buf = record { conn = conn s; buf = buf }

module _ {S : Type 0} (api : Api S) (sockfd : ℕ) (junk : ℕ → ℕ) where
  -- One message that fits in the buffer of the thread goes whole to the dispatch.
  pub round_lem :
      (buf msg replies : List ℕ) (s : S)
      → 0 < length msg
      → length msg ≤ 4096
      → socket_ipc_round api sockfd junk buf
          (record { pending = msg; replies = replies; stack = s })
        ≡ after (msg ++ drop (length msg) buf) (
            demux_ipc_socket_call api sockfd junk
              (msg ++ drop (length msg) buf)
              (record { pending = []; replies = replies; stack = s }))
  unfolding socket_ipc_round
  round_lem buf msg replies s some_bytes fits =
      let whole = take_all 4096 msg fits in
      let empty = drop_all 4096 msg fits in
      let more : (length msg == 0) ≡ false = ground (arith, some_bytes) in
      rw (socket_ipc_round, whole, empty, more) refl

  -- What the dispatch writes in answer to a message is what the application reads.
  pub served-reply :
      (lvlfd n : ℕ) (msg reply buf : List ℕ) (s t : S)
      → 0 < length msg
      → length msg ≤ 4096
      → length reply ≤ n
      → let cmdbuf = msg ++ drop (length msg) buf in
        demux_ipc_socket_call api sockfd junk cmdbuf (conn s)
          ≡ handled 0 (record { pending = []; replies = reply; stack = t })
        → peer api sockfd junk lvlfd n msg (at_rest s buf) ≡ some (reply, at_rest t cmdbuf)
  unfolding peer
  served-reply lvlfd n msg reply buf s t some_bytes fits room served =
      let whole = take_all n reply room in
      let none_left = drop_all n reply room in
      rw (peer, round_lem buf msg [] s some_bytes fits, served, whole, none_left) refl

  -- The same for the answer of `ipc_write_rc`.
  pub served-answer :
      (lvlfd type pid rc : ℕ) (payload buf : List ℕ) (s t : S)
      → type < 2 ^ 16
      → pid < 2 ^ 32
      → rc < 2 ^ 32
      → length payload ≤ 4090
      → let msg = bytes16 type ++ (bytes32 pid ++ payload) in
        let cmdbuf = msg ++ drop (length msg) buf in
        demux_ipc_socket_call api sockfd junk cmdbuf (conn s)
          ≡ ipc_write_rc api sockfd junk pid type rc (conn t)
        → peer api sockfd junk lvlfd 512 msg (at_rest s buf)
          ≡ some (rc_answer type pid rc, at_rest t cmdbuf)
  unfolding ipc_write_rc
  served-answer lvlfd type pid rc payload buf s t ht hp hr fits served =
      served-reply lvlfd 512 (bytes16 type ++ (bytes32 pid ++ payload)) (rc_answer type pid rc) buf
        s t (omega arith) (omega arith) (omega (arith, length-rc_answer type pid rc ht hp hr))
        served
