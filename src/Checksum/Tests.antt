-- ===== src/Checksum/Tests.antt =====
-- Runs of the checksum, and its theorems at concrete buffers.
use toy_ip.Base.{ℕ, ◌+◌, ◌%◌, ◌<◌, ◌≡◌, ◌↔◌, refl, List, [], ◌∷◌, ◌++◌, some, arith}
use toy_ip.Checksum.{sum_every_16bits, fold, complement, checksum, bytes16, tcp_udp_checksum}
use toy_ip.Checksum.Words.{words}
use toy_ip.Checksum.Verify.{checksum-zero_iff}

-- An IP header (20 bytes) with a zero checksum field at offset 10.
abbrev head : List ℕ
head = 0x45 ∷ 0 ∷ 0 ∷ 0x73 ∷ 0 ∷ 0 ∷ 0x40 ∷ 0 ∷ 0x40 ∷ 0x11 ∷ []

abbrev addresses : List ℕ
addresses = 0xc0 ∷ 0xa8 ∷ 0 ∷ 1 ∷ 0xc0 ∷ 0xa8 ∷ 0 ∷ 0xc7 ∷ []

-- The bytes in memory are b8 61.
checksum_runs : checksum (head ++ (bytes16 0 ++ addresses)) 0 ≡ some 0x61b8
unfolding checksum sum_every_16bits fold complement
checksum_runs = refl

checksum_odd : checksum (0xff ∷ 0xff ∷ 0xff ∷ []) 0 ≡ some 0xff00
unfolding checksum sum_every_16bits fold complement
checksum_odd = refl

tcp_udp_checksum_runs : tcp_udp_checksum 0 0 6 (1 ∷ 2 ∷ []) 2 ≡ some 0xf5fe
unfolding tcp_udp_checksum checksum sum_every_16bits fold complement
tcp_udp_checksum_runs = refl

checksum-zero_iff_example :
    (checksum (0xff ∷ 0xff ∷ []) 0 ≡ some 0)
    ↔ ((0 < 0 + words (0xff ∷ 0xff ∷ [])) × ((0 + words (0xff ∷ 0xff ∷ [])) % 65535 ≡ 0))
checksum-zero_iff_example =
    checksum-zero_iff (0xff ∷ 0xff ∷ []) 0 (omega arith) (omega arith) (omega arith)
