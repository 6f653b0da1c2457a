-- ===== src/Rightsizer/Mebibytes.antt =====
-- `roundUpMiB`.
use kubetidy.Base.{ℕ, ◌+◌, ◌-◌, ◌*◌, ◌/◌, ◌%◌, ◌^◌, ◌≤◌, ◌<◌, ◌≡◌, arith}
use kubetidy.Base.Int.{ℤ, pos, negsuc, pos_part, neg_part, quot, ◌≤ℤ◌, add64, sub64, mul64}
use kubetidy.Rightsizer.{mib, round_up_mib}

-- A whole number of mebibytes, of either sign.
abbrev pub IsAligned : ℤ → Type 0
IsAligned z = (pos_part z % mib ≡ 0) × (neg_part z % mib ≡ 0)

-- The wrap-around of 64 bits keeps alignment.
mul64-IsAligned : (z : ℤ) → IsAligned (mul64 z (pos mib))
unfolding mul64
mul64-IsAligned (pos n) = ground arith
mul64-IsAligned (negsuc n) = ground arith

pub round_up_mib-IsAligned : (z : ℤ) → IsAligned (round_up_mib z)
unfolding round_up_mib
round_up_mib-IsAligned z =
    ground (arith, mul64-IsAligned (quot (sub64 (add64 z (pos mib)) (pos 1)) mib))

-- `roundUpMiB` of a byte count that leaves room for one more mebibyte is the least whole number of
-- mebibytes that is not below it: it lies less than a mebibyte above.
pub round_up_mib_least :
    (n : ℕ)
    → n + mib ≤ 2 ^ 63
    → (r : ℕ) × (round_up_mib (pos n) ≡ pos (r * mib)) × (n ≤ r * mib) × (r * mib < n + mib)
unfolding round_up_mib
round_up_mib_least n h = ((n + (mib - 1)) / mib, ground arith, omega arith, omega arith)

pub round_up_mib_mono :
    (m n : ℕ) → m ≤ n → n + mib ≤ 2 ^ 63 → round_up_mib (pos m) ≤ℤ round_up_mib (pos n)
round_up_mib_mono m n h k =
    let (r, e, lo, hi) = round_up_mib_least m (omega arith) in
    let (s, f, lo', hi') = round_up_mib_least n k in rw (e, f) (omega arith)
