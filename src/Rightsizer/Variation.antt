-- ===== src/Rightsizer/Variation.antt =====
-- `Confidence`: more variation never makes it higher.
use mathlib.Core.Path.{subst}
use kubetidy.Base.{if◌then◌else◌, ◌≡◌, sym, arith}
use kubetidy.Base.Float.{Float64, ◌⊕◌, ◌⊖◌, ◌⊗◌, less, decimal, nought, ◌≼◌, IsNumber, IsIeee}
use kubetidy.Base.FloatOrder.{decimal-IsNumber, le_of_not_lt, le_of_lt, lt_of_le_of_lt}
use kubetidy.Model.{EvidenceTier, static, snapshot, operator, historical, allocated, UsageStats}
use kubetidy.Rightsizer.{
  clamp, clamp01, data_maturity, maturity_of, immature_floor, tier_base, worst_cv, variance_penalty,
  tier_score, confidence_score,
}

module _ {F : Type 0} ⦃fl : Float64 F⦄ (laws : IsIeee F) where
  open laws use {number_of_le, le_trans, lt_number, decimal_mono, sub_mono}

  clamp_mono : (x y lo hi : F) → x ≼ y → lo ≼ hi → clamp x lo hi ≼ clamp y lo hi
  unfolding clamp
  clamp_mono x y lo hi h k = ground (
    arith,
    number_of_le x y h,
    number_of_le lo hi k,
    le_of_not_lt laws x lo,
    le_of_not_lt laws y lo,
    le_of_not_lt laws hi x,
    le_of_not_lt laws hi y,
    le_of_lt laws x lo,
    le_of_lt laws y lo,
    le_of_lt laws hi x,
    le_of_lt laws hi y,
    le_trans x y lo,
    le_trans lo x y,
    le_trans hi x y,
    le_trans x y hi,
    lt_of_le_of_lt laws x y lo,
  )

  -- A bound on one side keeps the order.
  raised_mono :
      (x y lo : F)
      → x ≼ y
      → IsNumber lo
      → (if less x lo then lo else x) ≼ (if less y lo then lo else y)
  raised_mono x y lo h n =
      ground (arith, number_of_le x y h, le_of_not_lt laws y lo, lt_of_le_of_lt laws x y lo)

  capped_mono :
      (x y hi : F)
      → x ≼ y
      → IsNumber hi
      → (if less hi x then hi else x) ≼ (if less hi y then hi else y)
  capped_mono x y hi h n = ground (
    arith,
    number_of_le x y h,
    le_of_not_lt laws hi x,
    le_of_not_lt laws hi y,
    le_trans hi x y,
    le_of_lt laws hi x,
  )

  -- The other usage varies no less, in either metric, and is of as much history.
  pub record VariesMore (u v : UsageStats F) : Type 0 where
    pub same_tier : v.tier ≡ u.tier
    pub same_window : v.window ≡ u.window
    pub same_samples : v.samples ≡ u.samples
    pub cpu : u.cpu_millicores.cv ≼ v.cpu_millicores.cv
    pub memory : u.memory_bytes.cv ≼ v.memory_bytes.cv

  worst_cv_mono : (u v : UsageStats F) → VariesMore u v → worst_cv u ≼ worst_cv v
  unfolding worst_cv
  worst_cv_mono u v h =
      raised_mono _ _ nought (laws.max_mono _ _ _ _ h.cpu h.memory) (decimal-IsNumber laws 0 0)

  mul_mono_left :
      (k x y : F) → nought ≼ k → x ≼ y → IsNumber (k ⊗ x) → IsNumber (k ⊗ y) → (k ⊗ x) ≼ (k ⊗ y)
  mul_mono_left k x y p h n m =
      let comm = laws.mul_comm in
      subst (λ z. z ≼ (k ⊗ y)) (comm x k)
        (subst (λ z. (x ⊗ k) ≼ z) (comm y k)
          (laws.mul_mono x y k p h (subst IsNumber (comm k x) n) (subst IsNumber (comm k y) m)))

  penalty_mono :
      (u v : UsageStats F)
      → VariesMore u v
      → IsNumber (variance_penalty u)
      → IsNumber (variance_penalty v)
      → variance_penalty u ≼ variance_penalty v
  unfolding variance_penalty clamp01
  penalty_mono u v h n m =
      mul_mono_left _ _ _ (decimal_mono 0 0 3 1 (omega arith))
        (clamp_mono _ _ nought (decimal 1 0) (worst_cv_mono u v h)
          (decimal_mono 0 0 1 0 (omega arith)))
        n m

  -- From one starting point, the greater penalty leaves less.
  docked_mono :
      (x : F) (u v : UsageStats F)
      → VariesMore u v
      → IsNumber (x ⊖ variance_penalty u)
      → IsNumber (x ⊖ variance_penalty v)
      → (x ⊖ variance_penalty v) ≼ (x ⊖ variance_penalty u)
  docked_mono x u v h n m =
      let (start, less_penalty) = laws.sub_number _ _ n in
      let (_, more_penalty) = laws.sub_number _ _ m in
      sub_mono x x _ _ start (penalty_mono u v h less_penalty more_penalty) m n

  -- What a time-series tier starts from.
  ripe : EvidenceTier → UsageStats F → F
  ripe t usage = immature_floor ⊕ data_maturity usage ⊗ (tier_base t ⊖ immature_floor)

  same_ripe : (t : EvidenceTier) (u v : UsageStats F) → VariesMore u v → ripe t v ≡ ripe t u
  unfolding ripe data_maturity
  same_ripe t u v h i =
      immature_floor
      ⊕ maturity_of (h.same_window i) (h.same_samples i) ⊗ (tier_base t ⊖ immature_floor)

  series_mono :
      (t : EvidenceTier) (u v : UsageStats F)
      → VariesMore u v
      → IsNumber (ripe t u ⊖ variance_penalty u)
      → IsNumber (ripe t v ⊖ variance_penalty v)
      → (ripe t v ⊖ variance_penalty v) ≼ (ripe t u ⊖ variance_penalty u)
  series_mono t u v h n m =
      let same = same_ripe t u v h in
      subst (λ x. (x ⊖ variance_penalty v) ≼ (ripe t u ⊖ variance_penalty u)) (sym same)
        (docked_mono (ripe t u) u v h n (subst (λ x. IsNumber (x ⊖ variance_penalty v)) same m))

  tier_score_mono :
      (t : EvidenceTier) (u v : UsageStats F)
      → VariesMore u v
      → IsNumber (tier_score t u)
      → IsNumber (tier_score t v)
      → tier_score t v ≼ tier_score t u
  unfolding tier_score ripe
  tier_score_mono static u v h n m = docked_mono (tier_base static) u v h n m
  tier_score_mono snapshot u v h n m =
      capped_mono _ _ (decimal 6 1)
        (docked_mono (tier_base snapshot) u v h (uncapped _ n) (uncapped _ m))
        (decimal-IsNumber laws 6 1)
    where
      uncapped : (x : F) → IsNumber (if less (decimal 6 1) x then decimal 6 1 else x) → IsNumber x
      uncapped x k = ground (arith, lt_number (decimal 6 1) x)
  tier_score_mono operator u v h n m = series_mono operator u v h n m
  tier_score_mono historical u v h n m = series_mono historical u v h n m
  tier_score_mono allocated u v h n m = series_mono allocated u v h n m

  -- Of two usages of the same tier, window and number of samples, the one whose coefficients of
  -- variation are both at least as high scores at most the confidence of the other, in every tier,
  -- if neither score is NaN.
  pub confidence_score-antitone :
      (u v : UsageStats F)
      → VariesMore u v
      → IsNumber (tier_score u.tier u)
      → IsNumber (tier_score v.tier v)
      → confidence_score v ≼ confidence_score u
  unfolding confidence_score
  confidence_score-antitone u v h n m =
      let below : tier_score u.tier v ≼ tier_score u.tier u =
        tier_score_mono u.tier u v h n (subst (λ t. IsNumber (tier_score t v)) h.same_tier m) in
      clamp_mono _ _ (decimal 5 2) (decimal 99 2)
        (subst (λ t. tier_score t v ≼ tier_score u.tier u) (sym h.same_tier) below)
        (decimal_mono 5 2 99 2 (omega arith))
