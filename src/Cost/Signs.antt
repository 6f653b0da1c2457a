-- ===== src/Cost/Signs.antt =====
-- The sign of the savings.
use kubetidy.Base.{ℕ, ◌^◌, ◌≤◌, arith}
use kubetidy.Base.Float.{Float64, ◌⊗◌, ◌⊘◌, decimal, nought, of_int, ◌≼◌, IsNumber, IsIeee}
use kubetidy.Base.FloatOrder.{decimal-IsNumber, le_of_not_lt}
use kubetidy.Base.Int.{ℤ, ◌≤ℤ◌}
use kubetidy.Cost.{bytes_per_gib, effective_replicas, non_negative, monthly_cost, monthly_savings}
use kubetidy.Model.{ResourceSpec, ResourcePrice}

-- Neither request of `a` is above that of `b`.
abbrev pub IsLighter : ResourceSpec → ResourceSpec → Type 0
IsLighter a b =
    (a.requests.cpu_millicores ≤ℤ b.requests.cpu_millicores)
    × (a.requests.memory_bytes ≤ℤ b.requests.memory_bytes)

module _ {F : Type 0} ⦃fl : Float64 F⦄ (laws : IsIeee F) where
  open laws use {lt_number, le_total, of_int_mono, decimal_strict}

  non_negative_nonneg : (v : F) → IsNumber (non_negative v) → nought ≼ non_negative v
  unfolding non_negative
  non_negative_nonneg v n = ground (arith, decimal-IsNumber laws 0 0, le_of_not_lt laws v nought)

  -- The price of an amount, in units of which `k` make one that is paid for.
  priced_mono :
      (m n : ℤ) (k : ℕ) (p : F)
      → m ≤ℤ n
      → 2 ≤ k
      → k ≤ 2 ^ 50
      → IsNumber ((of_int m ⊘ decimal k 0) ⊗ non_negative p)
      → IsNumber ((of_int n ⊘ decimal k 0) ⊗ non_negative p)
      → ((of_int m ⊘ decimal k 0) ⊗ non_negative p) ≼ ((of_int n ⊘ decimal k 0) ⊗ non_negative p)
  priced_mono m n k p h lo hi a b =
      let (x, price) = laws.mul_number _ _ a in
      let (y, _) = laws.mul_number _ _ b in
      let unit = decimal_strict 0 0 k 0 (omega arith) hi (omega arith) (omega arith) in
      laws.mul_mono _ _ _ (non_negative_nonneg p price)
        (laws.div_mono _ _ _ unit (of_int_mono m n h) x y) a b

  monthly_cost_mono :
      (a b : ResourceSpec) (price : ResourcePrice F)
      → IsLighter a b
      → IsNumber (monthly_cost a price)
      → IsNumber (monthly_cost b price)
      → monthly_cost a price ≼ monthly_cost b price
  unfolding monthly_cost
  monthly_cost_mono a b price (c, m) p q =
      let (pc, pm) = laws.add_number _ _ p in
      let (qc, qm) = laws.add_number _ _ q in
      laws.add_mono _ _ _ _ (priced_mono _ _ 1000 _ c (omega arith) (omega arith) pc qc)
        (priced_mono _ _ bytes_per_gib _ m (omega arith) (omega arith) pm qm) p q

  replicas_nonneg : (r : ℤ) → nought ≼ of_int {F = F} (effective_replicas r)
  replicas_nonneg r = rw (← laws.of_int_nought) (of_int_mono _ _ (ground arith))

  -- A proposal whose requests are not above the current ones never costs more: its savings are not
  -- negative, and those of the way back are not positive, at any price and number of replicas at
  -- which the savings are numbers.
  pub monthly_savings_sign :
      (current proposed : ResourceSpec) (price : ResourcePrice F) (replicas : ℤ)
      → IsLighter proposed current
      → IsNumber (monthly_savings current proposed price replicas)
      → IsNumber (monthly_savings proposed current price replicas)
      → (nought ≼ monthly_savings current proposed price replicas)
        × (monthly_savings proposed current price replicas ≼ nought)
  unfolding monthly_savings
  monthly_savings_sign current proposed price replicas h n k =
      let (per, _) = laws.mul_number _ _ n in
      let (back, _) = laws.mul_number _ _ k in
      let (c, p) = laws.sub_number _ _ per in
      let dearer = monthly_cost_mono proposed current price h p c in
      let count = replicas_nonneg replicas in
      (
        laws.mul_nonneg _ _ (laws.sub_nonneg _ _ dearer per) count n,
        laws.mul_nonpos _ _ (laws.sub_nonpos _ _ dearer back) count k,
      )
