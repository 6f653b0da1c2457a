-- ===== src/Scan/Pool/Totals.antt =====
-- Sums over the phases of all goroutines, and how one move changes them.
-- The sum of the weights of the first n phases.
use native.Mathlib.Decide.{dec_lt}
use kubetidy.Base.{ℕ, zero, suc, ◌+◌, ◌≤◌, ◌<◌, ◌≡◌, refl, arith}
use kubetidy.Scan.Pool.{
  Phase, waiting, running, written, numbered, told, released, finished, update,
}

abbrev pub total : (Phase → ℕ) → (ℕ → Phase) → ℕ → ℕ
total w f zero = 0
total w f (suc n) = total w f n + w (f n)

pub total-update_above :
    (w : Phase → ℕ) (f : ℕ → Phase) (i : ℕ) (p : Phase) (n : ℕ)
    → n ≤ i
    → total w (update f i p) n ≡ total w f n
unfolding update
total-update_above w f i p zero h = refl
total-update_above w f i p (suc n) h = ground (arith, total-update_above w f i p n)

-- One move takes the old weight out and puts the new one in.
pub total-update :
    (w : Phase → ℕ) (f : ℕ → Phase) (i : ℕ) (p : Phase) (n : ℕ)
    → i < n
    → total w (update f i p) n + w (f i) ≡ total w f n + w p
unfolding update
total-update w f i p zero h = absurd (omega arith)
total-update w f i p (suc n) h = elim (dec_lt i n) [
  | yes lt ↦ ground (arith, total-update w f i p n lt)
  | no ge ↦
      let same : i ≡ n = omega arith in
      ground (arith, same, total-update_above w f i p n (omega arith))
]

pub total_zero :
    (w : Phase → ℕ) (f : ℕ → Phase) (n : ℕ) → ((i : ℕ) → i < n → w (f i) ≡ 0) → total w f n ≡ 0
total_zero w f zero h = refl
total_zero w f (suc n) h =
    let before = total_zero w f n (λ i l. h i (omega arith)) in
    omega (arith, before, h n (omega arith))

pub total_one :
    (w : Phase → ℕ) (f : ℕ → Phase) (n : ℕ) → ((i : ℕ) → i < n → w (f i) ≡ 1) → total w f n ≡ n
total_one w f zero h = refl
total_one w f (suc n) h =
    let before = total_one w f n (λ i l. h i (omega arith)) in
    omega (arith, before, h n (omega arith))

-- A goroutine holds a place in the semaphore.
unfoldable pub holds : Phase → ℕ
holds waiting = 0
holds released = 0
holds finished = 0
holds _ = 1

-- What it still has to do.
unfoldable pub remaining : Phase → ℕ
remaining waiting = 6
remaining running = 5
remaining written = 4
remaining (numbered k) = 3
remaining told = 2
remaining released = 1
remaining finished = 0

-- It has a number of the counter.
unfoldable pub has_number : Phase → ℕ
has_number waiting = 0
has_number running = 0
has_number written = 0
has_number _ = 1
