-- ===== src/Checksum/Words.antt =====
-- The sum of the 16-bit words of a buffer, without wrap-around, and when the loop computes it.
use toy_ip.Base.{
  ℕ, ◌+◌, ◌*◌, ◌%◌, ◌^◌, ◌≤◌, ◌<◌, ◌≡◌, refl, List, [], ◌∷◌, ◌++◌, arith, u32, length, All,
}
use toy_ip.Checksum.{sum_every_16bits_from, sum_every_16bits}

abbrev pub IsByte : ℕ → Type 0
IsByte b = b < 256

abbrev pub words : List ℕ → ℕ
words [] = 0
words (a ∷ []) = a
words (a ∷ b ∷ bytes) = a + 256 * b + words bytes

pub words-append : (xs ys : List ℕ) → length xs % 2 ≡ 0 → words (xs ++ ys) ≡ words xs + words ys
words-append [] ys h = omega arith
words-append (a ∷ []) ys h = absurd (omega arith)
words-append (a ∷ b ∷ xs) ys h = omega (arith, words-append xs ys (omega arith))

pub words-le : (xs : List ℕ) → All IsByte xs → 2 * words xs ≤ 65535 * (length xs + 1)
words-le [] h = omega arith
words-le (a ∷ []) h = omega arith
words-le (a ∷ b ∷ xs) h = omega (arith, words-le xs h.1.1)

sum_every_16bits_from-words :
    (acc : ℕ) (xs : List ℕ) → acc < 2 ^ 32 → sum_every_16bits_from acc xs ≡ u32 (acc + words xs)
unfolding sum_every_16bits_from
sum_every_16bits_from-words acc [] h = omega arith
sum_every_16bits_from-words acc (a ∷ []) h = refl
sum_every_16bits_from-words acc (a ∷ b ∷ xs) h =
    omega (arith, sum_every_16bits_from-words (u32 (acc + (a + 256 * b))) xs (omega arith))

pub sum_every_16bits-words : (xs : List ℕ) → sum_every_16bits xs ≡ u32 (words xs)
unfolding sum_every_16bits
sum_every_16bits-words xs = omega (arith, sum_every_16bits_from-words 0 xs (omega arith))
