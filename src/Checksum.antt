-- ===== src/Checksum.antt =====
-- The Internet checksum of toy_src/utils.c. Memory is a list of bytes, and a 16-bit load reads the
-- lower byte first (a little-endian machine).
pub mod Fold
pub mod Words
pub mod Verify
pub mod Transport
mod Tests
use toy_ip.Base.{
  ℕ, zero, suc, ◌+◌, ◌*◌, ◌-◌, ◌/◌, ◌%◌, ◌^◌, List, [], ◌∷◌, ◌++◌, Option, none, some, u16, u32,
  ◌==◌, if◌then◌else◌,
}

-- The loop takes two bytes at a time, and a last single byte is the lower byte of a zero word.
-- The list holds the `count` bytes at `addr`.
sum_every_16bits_from : ℕ → List ℕ → ℕ
sum_every_16bits_from sum [] = sum
sum_every_16bits_from sum (a ∷ []) = u32 (sum + a)
sum_every_16bits_from sum (a ∷ b ∷ bytes) = sum_every_16bits_from (u32 (sum + (a + 256 * b))) bytes

unfoldable pub sum_every_16bits : List ℕ → ℕ
unfolding sum_every_16bits_from
sum_every_16bits bytes = sum_every_16bits_from 0 bytes

-- `while (sum >> 16) sum = (sum & 0xFFFF) + (sum >> 16);` on fuel.
unfoldable pub fold : ℕ → ℕ → Option ℕ
fold zero sum = none
fold (suc fuel) sum =
    let rest = fold fuel (sum % 2 ^ 16 + sum / 2 ^ 16) in
    if sum / 2 ^ 16 == 0 then some sum else rest

-- `return ~sum`, cut to the 16 bits of the return type.
unfoldable pub complement : Option ℕ → Option ℕ
complement none = none
complement (some sum) = some (u16 (2 ^ 32 - 1 - sum))

-- Three tests of the loop are enough for a 32-bit sum (`Fold.fold_total`).
unfoldable pub checksum : List ℕ → ℕ → Option ℕ
checksum bytes start_sum = complement (fold 3 (u32 (start_sum + sum_every_16bits bytes)))

-- The bytes of a 16-bit and of a 32-bit value in memory.
abbrev pub bytes16 : ℕ → List ℕ
bytes16 n = n % 256 ∷ n / 256 % 256 ∷ []

abbrev pub bytes32 : ℕ → List ℕ
bytes32 n = n % 256 ∷ n / 256 % 256 ∷ n / 65536 % 256 ∷ n / 16777216 % 256 ∷ []

-- `htons` on a little-endian machine
abbrev pub swap16 : ℕ → ℕ
swap16 n = n % 256 * 256 + n / 256 % 256

-- `htonl` on a little-endian machine
abbrev pub swap32 : ℕ → ℕ
swap32 n = ((n % 256 * 256 + n / 256 % 256) * 256 + n / 65536 % 256) * 256 + n / 16777216 % 256

-- `struct pseudo_head`, as it lies in memory
abbrev pub pseudo_head : ℕ → ℕ → ℕ → ℕ → List ℕ
pseudo_head saddr daddr proto len =
    bytes32 saddr ++ (bytes32 daddr ++ (0 ∷ proto ∷ bytes16 (swap16 (u16 len))))

unfoldable pub tcp_udp_checksum : ℕ → ℕ → ℕ → List ℕ → ℕ → Option ℕ
tcp_udp_checksum saddr daddr proto bytes len =
    checksum bytes (sum_every_16bits (pseudo_head saddr daddr proto len))
