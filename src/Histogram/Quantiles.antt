-- ===== src/Histogram/Quantiles.antt =====
-- `Percentile`.
use mathlib.Core.List.{Memᴰ}
use kubetidy.Base.{
  if◌then◌else◌, Bool-cases, length, All, ℕ, zero, suc, ◌<◌, ◌≡◌, refl, ◌⊎◌, inl, inr, true, false,
  Option, none, some, List, [], ◌∷◌, arith,
}
use kubetidy.Base.Float.{Float64, ◌⊕◌, ◌⊗◌, less, less_eq, decimal, nought, ◌≼◌, IsNumber, IsIeee}
use kubetidy.Base.FloatOrder.{decimal-IsNumber, le_of_not_lt, not_lt_of_le, lt_of_le_of_lt}
use kubetidy.Base.Int.{pos_part}
use kubetidy.Histogram.{Histogram, bounds_from, reach, last_or, quantile, percentile}
use kubetidy.Histogram.Layout.{IsValid}

module _ {F : Type 0} ⦃fl : Float64 F⦄ where
  -- The bound at which the accumulated weight reaches the target, or the last resort.
  unfoldable read : List F → List F → F → F → F → F
  read bounds weights cumulative target last = elim (reach bounds weights cumulative target) [
    | none ↦ last
    | some b ↦ b
  ]

  reach_member : (bs ws : List F) (c t : F) {b : F} → reach bs ws c t ≡ some b → Memᴰ b bs
  unfolding reach
  reach_member (b ∷ bs) (w ∷ ws) c t {b = x} e = elim (Bool-cases (less_eq t (c ⊕ w))) [
    | inl here ↦ Memᴰ.head (ground arith)
    | inr there ↦ Memᴰ.tail (reach_member bs ws (c ⊕ w) t (rw there at e))
  ]
  reach_member [] ws c t e = cc
  reach_member (b ∷ bs) [] c t e = cc

  last_or_member : (b : F) (bs : List F) → Memᴰ (last_or bs b) (b ∷ bs)
  unfolding last_or
  last_or_member b [] = Memᴰ.head refl
  last_or_member b (x ∷ xs) = Memᴰ.tail (last_or_member x xs)

  -- For a histogram with a bucket, `Percentile` is 0 where there is no weight, and otherwise the
  -- bound of one of its buckets.
  percentile_bound :
      (h : Histogram F) (q : F)
      → 0 < length h.bounds
      → ((less_eq h.total nought ≡ true) × (percentile h q ≡ nought))
        ⊎ ((less_eq h.total nought ≡ false) × Memᴰ (percentile h q) h.bounds)
  unfolding percentile last_or
  percentile_bound h q n = elim (Bool-cases (less_eq h.total nought)) [
    | inl bare ↦ rw bare (inl (refl, refl))
    | inr filled ↦ rw filled (
        inr (
          refl,
          from_reach h.bounds n (reach h.bounds h.weights nought (quantile q ⊗ h.total)) refl,
        ))
  ]
    where
      from_reach :
          (bs : List F)
          → 0 < length bs
          → (o : Option F) → reach bs h.weights nought (quantile q ⊗ h.total) ≡ o
          → Memᴰ (elim o [ none ↦ last_or bs nought | some b ↦ b ]) bs
      from_reach [] m o e = absurd (omega arith)
      from_reach (b ∷ bs) m none e = last_or_member b bs
      from_reach (b ∷ bs) m (some x) e = reach_member (b ∷ bs) h.weights _ _ e

  -- The bounds rise, from `start` up to `end`.
  abbrev IsRisingTo : F → List F → F → Type 0
  IsRisingTo start [] end = start ≼ end
  IsRisingTo start (b ∷ bs) end = (start ≼ b) × IsRisingTo b bs end

  -- The bounds rise, from `start` on.
  abbrev pub IsRising : F → List F → Type 0
  IsRising start [] = Unit
  IsRising start (b ∷ bs) = (start ≼ b) × IsRising b bs

  module _ (laws : IsIeee F) where
    open laws use {number_of_le, le_trans, mul_mono}

    rising_to :
        (start b : F) (bs : List F)
        → start ≼ b
        → IsRising b bs
        → IsRisingTo start (b ∷ bs) (last_or bs b)
    unfolding last_or
    rising_to start b [] h r = (h, (number_of_le start b h).1)
    rising_to start b (x ∷ xs) h r = (h, rising_to b x xs r.0 r.1)

    rising-le : (start : F) (bs : List F) (end : F) → IsRisingTo start bs end → start ≼ end
    rising-le start [] end r = r
    rising-le start (b ∷ bs) end r = le_trans start b end r.0 (rising-le b bs end r.1)

    le-read :
        (start : F) (bs ws : List F) (c t end : F)
        → IsRisingTo start bs end
        → start ≼ read bs ws c t end
    unfolding read reach
    le-read start [] ws c t end r = r
    le-read start (b ∷ bs) [] c t end r = rising-le start (b ∷ bs) end r
    le-read start (b ∷ bs) (w ∷ ws) c t end r =
        ground (arith, le_trans start b _ r.0 (le-read b bs ws (c ⊕ w) t end r.1))

    read_mono :
        (start : F) (bs ws : List F) (c s t end : F)
        → IsRisingTo start bs end
        → s ≼ t
        → read bs ws c s end ≼ read bs ws c t end
    unfolding read reach
    read_mono start [] ws c s t end r h = (number_of_le start end r).1
    read_mono start (b ∷ bs) [] c s t end r h =
        (number_of_le start end (rising-le start (b ∷ bs) end r)).1
    read_mono start (b ∷ bs) (w ∷ ws) c s t end r h = ground (
      arith,
      le_trans s t (c ⊕ w) h,
      number_of_le start b r.0,
      le-read b bs ws (c ⊕ w) t end r.1,
      read_mono b bs ws (c ⊕ w) s t end r.1 h,
    )

    read_last_mono :
        (bs ws : List F) (c s t : F)
        → IsRising nought bs
        → s ≼ t
        → read bs ws c s (last_or bs nought) ≼ read bs ws c t (last_or bs nought)
    unfolding last_or
    read_last_mono [] ws c s t r h =
        read_mono nought [] ws c s t nought (decimal-IsNumber laws 0 0) h
    read_last_mono (b ∷ bs) ws c s t r h =
        read_mono nought (b ∷ bs) ws c s t (last_or bs b) (rising_to nought b bs r.0 r.1) h

    cut_above_mono :
        (p q : F)
        → p ≼ q
        → (if less (decimal 1 0) p then decimal 1 0 else p)
          ≼ (if less (decimal 1 0) q then decimal 1 0 else q)
    cut_above_mono p q h = ground (
      arith,
      number_of_le p q h,
      decimal-IsNumber laws 1 0,
      le_of_not_lt laws (decimal 1 0) p,
      not_lt_of_le laws (decimal 1 0) p,
      le_trans p q (decimal 1 0) h,
      le_of_not_lt laws (decimal 1 0) q,
    )

    cut_below_mono :
        (p q : F)
        → p ≼ q
        → (if less p nought then nought else p) ≼ (if less q nought then nought else q)
    cut_below_mono p q h = ground (
      arith,
      number_of_le p q h,
      decimal-IsNumber laws 0 0,
      le_of_not_lt laws p nought,
      le_of_not_lt laws q nought,
      lt_of_le_of_lt laws p q nought h,
    )

    quantile_mono : (p q : F) → p ≼ q → quantile p ≼ quantile q
    quantile_mono p q h = cut_above_mono _ _ (cut_below_mono p q h)

    -- `Percentile` is monotone: a higher quantile never reads a lower bound, if the bounds rise and
    -- neither target weight is NaN.
    pub percentile_mono :
        (h : Histogram F) (p q : F)
        → IsRising nought h.bounds
        → IsNumber (quantile p ⊗ h.total)
        → IsNumber (quantile q ⊗ h.total)
        → p ≼ q
        → percentile h p ≼ percentile h q
    unfolding percentile read
    percentile_mono h p q r m n le = elim (Bool-cases (less_eq h.total nought)) [
      | inl bare ↦ rw bare (decimal-IsNumber laws 0 0)
      | inr filled ↦
          let number = (laws.mul_number _ _ m).1 in
          let weight : nought ≼ h.total =
            ground (arith, laws.le_total h.total nought number (decimal-IsNumber laws 0 0)) in
          let targets =
            mul_mono (quantile p) (quantile q) h.total weight (quantile_mono p q le) m n in
          rw filled (read_last_mono h.bounds h.weights nought _ _ r targets)
    ]

  -- The bounds of a new histogram rise, if their products are numbers and the first is positive.
  module _ (laws : IsIeee F) where
    bounds_from-IsRising :
        (n : ℕ) (r b start : F)
        → start ≼ b
        → nought ≼ b
        → decimal 1 0 ≼ r
        → All IsNumber (bounds_from (suc n) r b)
        → IsRising start (bounds_from n r b)
    unfolding bounds_from
    bounds_from-IsRising zero r b start h p q a = tt
    bounds_from-IsRising (suc n) r b start h p q a =
        let grown = laws.le-mul b r p q a.1.0 in
        (h, bounds_from-IsRising n r (b ⊗ r) b grown (laws.le_trans _ _ _ p grown) q a.1)

    -- The bounds of every valid histogram rise, if the first is positive, the ratio is at least 1
    -- and no bound nor the one after the last is NaN.
    pub Valid-IsRising :
        (h : Histogram F)
        → IsValid h
        → nought ≼ h.cfg.first_bucket_upper
        → decimal 1 0 ≼ h.cfg.ratio
        → All IsNumber
            (bounds_from (suc (pos_part h.cfg.num_buckets)) h.cfg.ratio h.cfg.first_bucket_upper)
        → IsRising nought h.bounds
    Valid-IsRising h v p q a =
        rw v.laid_out
          (bounds_from-IsRising (pos_part h.cfg.num_buckets) h.cfg.ratio _ nought p p q a)
