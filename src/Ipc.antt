-- ===== src/Ipc.antt =====
-- toy_src/ipc.h: messages between an application and the stack, as the bytes of the packed structs
-- on a little-endian machine with 4-byte ints and 8-byte sizes. An int is its 32-bit pattern, and a
-- `struct sockaddr_in` the list of its 16 bytes.
use toy_ip.Base.{
  ℕ, zero, suc, ◌+◌, ◌-◌, ◌*◌, ◌/◌, ◌%◌, Bool, Option, none, some, List, [], ◌∷◌, ◌++◌, ltb, leb,
  if◌then◌else◌, length, take, drop,
}
use toy_ip.Checksum.{bytes16, bytes32}
pub mod Server
pub mod Client
pub mod Link
pub mod Wire
pub mod Calls
pub mod Dispatch
pub mod Remote
pub mod Reads
pub mod Overrun
pub mod Threads
pub mod Ends
mod Tests

abbrev pub bytes64 : ℕ → List ℕ
bytes64 n = bytes32 n ++ bytes32 (n / 4294967296)

-- The 16-, 32- and 64-bit value at the front of a buffer. The buffers are long enough wherever the
-- code reads one, so that the last clauses are not reached.
abbrev pub le16 : List ℕ → ℕ
le16 (a ∷ b ∷ _) = a + 256 * b
le16 _ = 0

abbrev pub le32 : List ℕ → ℕ
le32 (a ∷ b ∷ c ∷ d ∷ _) = a + 256 * b + 65536 * c + 16777216 * d
le32 _ = 0

abbrev pub le64 : List ℕ → ℕ
le64 (a ∷ b ∷ c ∷ d ∷ e ∷ f ∷ g ∷ h ∷ _) =
    a + 256 * b + 65536 * c + 16777216 * d + 4294967296 * (e + 256 * f + 65536 * g + 16777216 * h)
le64 _ = 0

-- The int -1, the test `n < 0`, and `-n`.
abbrev pub minus_one : ℕ
minus_one = 4294967295

abbrev pub is_negative : ℕ → Bool
is_negative n = leb 2147483648 n

abbrev pub negated : ℕ → ℕ
negated n = (4294967296 - n) % 4294967296

-- `n` bytes at `offset` of a buffer; `none` is a read behind its end.
abbrev pub copy : (offset n : ℕ) → List ℕ → Option (List ℕ)
copy offset n buf = if ltb (length buf) (offset + n) then none else some (take n (drop offset buf))

abbrev pub zeros : ℕ → List ℕ
zeros zero = []
zeros (suc n) = 0 ∷ zeros n

-- `n` bytes that were never written, with what the stack holds there.
abbrev pub uninit : (ℕ → ℕ) → ℕ → List ℕ
uninit stack zero = []
uninit stack (suc n) = stack n ∷ uninit stack n

-- The functions of toy_src/socket.c, on a state of type `S`, with the int that they return. A
-- buffer or an address that they may fill is passed and returned.
pub record Api (S : Type 0) : Type 0 where
  pub socket_call : (pid domain type protocol : ℕ) → S → ℕ × S
  pub connect_call : (pid sockfd : ℕ) (addr : List ℕ) → S → ℕ × S
  pub write_call : (pid sockfd : ℕ) (buf : List ℕ) → S → ℕ × S
  pub read_call : (pid sockfd : ℕ) (buf : List ℕ) → S → ℕ × (List ℕ × S)
  pub close_call : (pid sockfd : ℕ) → S → ℕ × S
  pub bind_call : (pid sockfd : ℕ) (addr : List ℕ) → S → ℕ × S
  pub accept_call : (pid sockfd : ℕ) (addr : Option (List ℕ)) → S → ℕ × (List ℕ × S)
  pub listen_call : (pid sockfd backoff : ℕ) → S → ℕ × S
  pub sendto_call : (pid sockfd : ℕ) (buf addr : List ℕ) → S → ℕ × S
  pub recvfrom_call :
      (pid sockfd : ℕ) (buf : List ℕ) (addr : Option (List ℕ)) → S → ℕ × (List ℕ × (List ℕ × S))
