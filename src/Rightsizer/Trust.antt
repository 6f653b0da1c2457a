-- ===== src/Rightsizer/Trust.antt =====
-- `Confidence`: what a snapshot can reach, and what no history can reach.
use mathlib.Core.Path.{subst, subst⁻¹}
use kubetidy.Base.{
  if◌then◌else◌, ℕ, ◌*◌, ◌^◌, ◌≤◌, ◌<◌, ◌≡◌, refl, ap, ◌∙◌, Bool, true, false, arith,
}
use kubetidy.Base.Float.{
  Float64, ◌⊕◌, ◌⊖◌, ◌⊗◌, ◌⊘◌, decimal, nought, of_int, ◌≼◌, IsNumber, IsIeee,
}
use kubetidy.Base.FloatOrder.{decimal-IsNumber, not_lt_of_le, lt_of_le_of_lt, clamp_bounds}
use kubetidy.Base.Int.{pos, ◌-ℤ◌, ◌*ℤ◌, quot, ltb_ℤ}
use kubetidy.Base.Text.{Text}
use kubetidy.Model.{
  EvidenceTier, static, snapshot, operator, historical, allocated, UsageStats, low, band,
}
use kubetidy.Rightsizer.{
  clamp, clamp01, hours, mature_window_hours, mature_samples, immature_floor, data_maturity,
  tier_base, worst_cv, variance_penalty, tier_score, confidence_score,
}

module _ {F : Type 0} ⦃fl : Float64 F⦄ (laws : IsIeee F) where
  open laws use {
    number_of_le, le_trans, lt_number, decimal_mono, decimal_strict, sub-le, mul_nonneg,
  }

  pub clamp01_bounds : (v : F) → IsNumber v → (nought ≼ clamp01 v) × (clamp01 v ≼ decimal 1 0)
  unfolding clamp01
  clamp01_bounds v n =
      clamp_bounds laws v nought (decimal 1 0) n (decimal_mono 0 0 1 0 (omega arith))

  -- A number that was clamped was a number before.
  clamp01-IsNumber : (v : F) → IsNumber (clamp01 v) → IsNumber v
  unfolding clamp01
  clamp01-IsNumber v n = ground (arith, lt_number v nought, lt_number (decimal 1 0) v)

  variance_penalty_nonneg :
      (usage : UsageStats F) → IsNumber (variance_penalty usage) → nought ≼ variance_penalty usage
  unfolding variance_penalty
  variance_penalty_nonneg usage n =
      let cv = clamp01-IsNumber _ (laws.mul_number _ _ n).1 in
      mul_nonneg (decimal 3 1) (clamp01 (worst_cv usage)) (decimal_mono 0 0 3 1 (omega arith))
        (clamp01_bounds (worst_cv usage) cv).0 n

  -- What the penalty leaves is no more than what it is taken from.
  penalised-le :
      (x : F) (usage : UsageStats F)
      → IsNumber (x ⊖ variance_penalty usage)
      → (x ⊖ variance_penalty usage) ≼ x
  penalised-le x usage n =
      sub-le x (variance_penalty usage) (variance_penalty_nonneg usage (laws.sub_number _ _ n).1) n

  snapshot_score-le :
      (usage : UsageStats F)
      → IsNumber (tier_score snapshot usage)
      → tier_score snapshot usage ≼ decimal 5 1
  unfolding tier_score tier_base
  snapshot_score-le usage n =
      let score = decimal 5 1 ⊖ variance_penalty usage in
      ground (
        arith,
        penalised-le (decimal 5 1) usage,
        lt_number (decimal 6 1) score,
        not_lt_of_le laws (decimal 6 1) score,
        le_trans score (decimal 5 1) (decimal 6 1),
        decimal_mono 5 1 6 1 (omega arith),
      )

  -- The confidence of a snapshot is low, whatever its usage and its variance, if its score is not
  -- NaN.
  pub band-snapshot :
      (usage : UsageStats F) (reason : Text)
      → usage.tier ≡ snapshot
      → IsNumber (tier_score usage.tier usage)
      → band (record { score = confidence_score usage; reason = reason }) ≡ low
  unfolding confidence_score clamp band
  band-snapshot usage reason e n =
      let below : tier_score usage.tier usage ≼ decimal 5 1 =
        subst⁻¹ (λ t. tier_score t usage ≼ decimal 5 1) e
          (snapshot_score-le usage (subst (λ t. IsNumber (tier_score t usage)) e n)) in
      ground (
        arith,
        lt_of_le_of_lt laws _ _ _ below
            (decimal_strict 5 1 60 2 (omega arith) (omega arith) (omega arith) (omega arith)),
        not_lt_of_le laws _ _ (le_trans _ _ _ below (decimal_mono 5 1 99 2 (omega arith))),
        decimal_strict 5 2 60 2 (omega arith) (omega arith) (omega arith) (omega arith),
      )

  -- The ratios that the maturity is made of are not NaN.
  pub record HasMaturity (usage : UsageStats F) : Type 0 where
    pub window : IsNumber (hours {F = F} usage.window ⊘ mature_window_hours)
    pub samples : IsNumber (fl.log10 (of_int usage.samples) ⊘ fl.log10 mature_samples)

  sample_bounds :
      (usage : UsageStats F)
      → HasMaturity usage
      → let s =
          if ltb_ℤ (pos 1) usage.samples
          then clamp01 (fl.log10 (of_int usage.samples) ⊘ fl.log10 mature_samples)
          else nought in
        (nought ≼ s) × (s ≼ decimal 1 0)
  sample_bounds usage m = ground (
    arith,
    clamp01_bounds (fl.log10 (of_int usage.samples) ⊘ fl.log10 mature_samples) m.samples,
    decimal_mono 0 0 1 0 (omega arith),
    decimal-IsNumber laws 0 0,
  )

  -- The maturity lies between 0 and 1.
  pub data_maturity_bounds :
      (usage : UsageStats F)
      → HasMaturity usage
      → (nought ≼ data_maturity usage) × (data_maturity usage ≼ decimal 1 0)
  unfolding data_maturity
  data_maturity_bounds usage m =
      let (lo, hi) = clamp01_bounds (hours usage.window ⊘ mature_window_hours) m.window in
      let (lo', hi') = sample_bounds usage m in
      (
        laws.le-min _ _ _ lo lo',
        le_trans _ _ _ (laws.min-le_left _ _ (number_of_le _ _ hi).0 (number_of_le _ _ hi').0) hi,
      )

  hours-nought : hours {F = F} (pos 0) ⊘ mature_window_hours ≡ nought
  unfolding hours mature_window_hours quot ◌-ℤ◌ ◌*ℤ◌
  hours-nought =
      let strict = λ (m : ℕ) (p : 1001 < 1000 * m) (q : m ≤ 2 ^ 50).
        decimal_strict 0 0 m 0 (omega arith) q (omega arith) (omega arith) in
      rw (
        laws.of_int_nought,
        laws.div_nought _ (strict 3_600_000_000_000 (omega arith) (omega arith)),
        laws.add_nought,
        laws.div_nought _ (strict 72 (omega arith) (omega arith)),
      )

  clamped_nought : clamp01 {F = F} nought ≼ nought
  unfolding clamp01
  clamped_nought = ground (
    arith,
    decimal-IsNumber laws 0 0,
    not_lt_of_le laws (decimal 1 0) nought (decimal_mono 0 0 1 0 (omega arith)),
  )

  -- Without a window the maturity is at most 0.
  data_maturity-windowless :
      (usage : UsageStats F)
      → HasMaturity usage
      → usage.window ≡ pos 0
      → data_maturity usage ≼ nought
  unfolding data_maturity
  data_maturity-windowless usage m e =
      let (lo, hi) = clamp01_bounds (hours usage.window ⊘ mature_window_hours) m.window in
      let (lo', hi') = sample_bounds usage m in
      let zero_ratio : hours usage.window ⊘ mature_window_hours ≡ nought =
        ap (λ w. hours w ⊘ mature_window_hours) e ∙ hours-nought in
      le_trans _ _ _ (laws.min-le_left _ _ (number_of_le _ _ hi).0 (number_of_le _ _ hi').0)
        (rw zero_ratio clamped_nought)

  abbrev pub is_time_series : EvidenceTier → Bool
  is_time_series static = false
  is_time_series snapshot = false
  is_time_series _ = true

  -- What a time-series tier earns over the floor.
  earned : EvidenceTier → UsageStats F → F
  earned t usage = data_maturity usage ⊗ (tier_base t ⊖ immature_floor)

  base_ge_floor :
      (t : EvidenceTier) → is_time_series t ≡ true → immature_floor {F = F} ≼ tier_base t
  unfolding immature_floor tier_base
  base_ge_floor static h = cc
  base_ge_floor snapshot h = cc
  base_ge_floor operator h = decimal_mono 30 2 85 2 (omega arith)
  base_ge_floor historical h = decimal_mono 30 2 9 1 (omega arith)
  base_ge_floor allocated h = decimal_mono 30 2 9 1 (omega arith)

  series_score-eq :
      (t : EvidenceTier) (usage : UsageStats F)
      → is_time_series t ≡ true
      → tier_score t usage ≡ immature_floor ⊕ earned t usage ⊖ variance_penalty usage
  unfolding tier_score earned
  series_score-eq static usage h = cc
  series_score-eq snapshot usage h = cc
  series_score-eq _ usage h = refl

  series_score-le :
      (t : EvidenceTier) (usage : UsageStats F)
      → is_time_series t ≡ true
      → usage.window ≡ pos 0
      → HasMaturity usage
      → IsNumber (immature_floor ⊕ earned t usage ⊖ variance_penalty usage)
      → (immature_floor ⊕ earned t usage ⊖ variance_penalty usage) ≼ immature_floor
  unfolding earned
  series_score-le t usage h e m n =
      let sum = (laws.sub_number _ _ n).0 in
      let product = (laws.add_number _ _ sum).1 in
      let gain = (laws.mul_number _ _ product).1 in
      let zero =
        laws.mul_nonpos _ _ (data_maturity-windowless usage m e)
          (laws.sub_nonneg _ _ (base_ge_floor t h) gain) product in
      le_trans _ _ _ (penalised-le _ usage n) (laws.add-le _ _ zero sum)

  -- A time-series usage without a window scores at most 0.30, however many samples it has, if its
  -- score and the two parts of its maturity are not NaN.
  pub confidence-windowless :
      (usage : UsageStats F)
      → is_time_series usage.tier ≡ true
      → usage.window ≡ pos 0
      → HasMaturity usage
      → IsNumber (tier_score usage.tier usage)
      → confidence_score usage ≼ immature_floor
  unfolding confidence_score clamp immature_floor
  confidence-windowless usage t e m n =
      let same = series_score-eq usage.tier usage t in
      let below : tier_score usage.tier usage ≼ immature_floor =
        rw same (series_score-le usage.tier usage t e m (rw same at n)) in
      ground (
        arith,
        below,
        not_lt_of_le laws _ _ (le_trans _ _ _ below (decimal_mono 30 2 99 2 (omega arith))),
        decimal_mono 5 2 30 2 (omega arith),
      )
