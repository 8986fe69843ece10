-- ===== src/Checksum/Fold.antt =====
-- The folding loop of `checksum` ends, and yields the residue of the sum in ones' complement.
use toy_ip.Base.{ℕ, ◌+◌, ◌-◌, ◌%◌, ◌^◌, ◌<◌, ◌≡◌, some, arith, ◌==◌, if◌then◌else◌}
use toy_ip.Checksum.{fold, complement}

-- The number in 1 .. 65535 that is congruent to a positive `n` modulo 65535, and 0 for 0.
abbrev pub residue : ℕ → ℕ
residue n = if n == 0 then 0 else (n - 1) % 65535 + 1

pub fold_total : (s : ℕ) → s < 2 ^ 32 → fold 3 s ≡ some (residue s)
unfolding fold
fold_total s h = ground arith

pub complement-residue : (n : ℕ) → complement (some (residue n)) ≡ some (65535 - residue n)
unfolding complement
complement-residue n = ground arith
