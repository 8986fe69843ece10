-- ===== src/Checksum/Verify.antt =====
-- A stored checksum verifies, and what verifies.
use toy_ip.Base.{
  ℕ, ◌+◌, ◌-◌, ◌%◌, ◌^◌, ◌≤◌, ◌<◌, ◌≡◌, ◌↔◌, ◌∙◌, sym, ap, List, ◌++◌, some, arith, u32, length,
  All, All-append, length-append,
}
use toy_ip.Checksum.{sum_every_16bits, checksum, bytes16}
use toy_ip.Checksum.Fold.{residue, fold_total, complement-residue}
use toy_ip.Checksum.Words.{IsByte, words, words-append, words-le, sum_every_16bits-words}

-- For every buffer and start value the loop ends and the checksum is 65535 less the ones'
-- complement residue of the 32-bit sum of the words, taken modulo 2 ^ 32.
pub checksum_total :
    (xs : List ℕ) (start : ℕ) → checksum xs start ≡ some (65535 - residue (u32 (start + words xs)))
unfolding checksum
checksum_total xs start =
    let sum : ℕ = u32 (start + words xs) in
    let e : u32 (start + sum_every_16bits xs) ≡ sum = omega (arith, sum_every_16bits-words xs) in
    rw (e, fold_total sum (omega arith)) (complement-residue sum)

some_value : (a b : ℕ) → some a ≡ some b → a ≡ b
some_value a b h = cc

residue-full : (n : ℕ) → (65535 - residue n ≡ 0) ↔ ((0 < n) × (n % 65535 ≡ 0))
residue-full n = (λ h. ground arith, λ h. ground arith)

words_small :
    (xs : List ℕ) (start : ℕ)
    → All IsByte xs
    → length xs ≤ 65535
    → start < 2 ^ 24
    → u32 (start + words xs) ≡ start + words xs
words_small xs start bytes short small = omega (arith, words-le xs bytes)

-- Over at most 65535 bytes and with a start value below 2 ^ 24, `checksum` answers 0 exactly if
-- the sum of the words and the start value is positive and divisible by 65535.
pub checksum-zero_iff :
    (xs : List ℕ) (start : ℕ)
    → All IsByte xs
    → length xs ≤ 65535
    → start < 2 ^ 24
    → (checksum xs start ≡ some 0) ↔ ((0 < start + words xs) × ((start + words xs) % 65535 ≡ 0))
checksum-zero_iff xs start bytes short small =
    let e = words_small xs start bytes short small in
    let total = rw e at (checksum_total xs start) in
    (
      λ h. (residue-full (start + words xs)).0 (some_value _ _ (sym total ∙ h)),
      λ h. total ∙ ap some ((residue-full (start + words xs)).1 h),
    )

-- The buffer `pre`, the 16-bit field `c`, `post` sums to the buffer with a zero field and `c`.
words-field :
    (pre post : List ℕ) (c : ℕ)
    → length pre % 2 ≡ 0
    → c < 2 ^ 16
    → words (pre ++ (bytes16 c ++ post)) ≡ words (pre ++ (bytes16 0 ++ post)) + c
words-field pre post c even small =
    omega
      (arith, words-append pre (bytes16 c ++ post) even, words-append pre (bytes16 0 ++ post) even)

module _ (pre post : List ℕ) (bpre : All IsByte pre) (bpost : All IsByte post) where
  field-IsByte : (c : ℕ) → All IsByte (pre ++ (bytes16 c ++ post))
  field-IsByte c = All-append IsByte pre _ bpre (omega arith, (omega arith, bpost))

  length-field : (c : ℕ) → length (pre ++ (bytes16 c ++ post)) ≡ length pre + (length post + 2)
  length-field c = omega (arith, length-append pre (bytes16 c ++ post))

residue_fits : (n : ℕ) → 65535 - residue n < 2 ^ 16
residue_fits n = omega arith

residue_completes :
    (n : ℕ) → (0 < n + (65535 - residue n)) × ((n + (65535 - residue n)) % 65535 ≡ 0)
residue_completes n = ground arith

-- A sender computes the checksum `c` of a buffer whose 16-bit checksum field, at an even offset,
-- is zero, and stores it there: then the receiver's checksum of the buffer is 0. The buffer has
-- fewer than 65000 bytes beside the field, and both sides use one start value below 2 ^ 24.
pub checksum-stored :
    (pre post : List ℕ) (start c : ℕ)
    → length pre % 2 ≡ 0
    → All IsByte pre
    → All IsByte post
    → length pre + length post < 65000
    → start < 2 ^ 24
    → checksum (pre ++ (bytes16 0 ++ post)) start ≡ some c
    → checksum (pre ++ (bytes16 c ++ post)) start ≡ some 0
checksum-stored pre post start c even bpre bpost short small h =
    (checksum-zero_iff (pre ++ (bytes16 c ++ post)) start (field-IsByte pre post bpre bpost c)
        (omega (arith, length-field pre post bpre bpost c)) small).1
      (rw (words-field pre post c even fits, ← assoc, value) (residue_completes sum))
  where
    sum : ℕ
    sum = start + words (pre ++ (bytes16 0 ++ post))

    value : c ≡ 65535 - residue sum
    value = some_value _ _ (
        sym h
        ∙ rw
            (words_small (pre ++ (bytes16 0 ++ post)) start (field-IsByte pre post bpre bpost 0)
              (omega (arith, length-field pre post bpre bpost 0)) small)
            at (checksum_total (pre ++ (bytes16 0 ++ post)) start))

    fits : c < 2 ^ 16
    fits = rw value (residue_fits sum)

    assoc : sum + c ≡ start + (words (pre ++ (bytes16 0 ++ post)) + c)
    assoc = omega arith
