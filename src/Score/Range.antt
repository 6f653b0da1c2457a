-- ===== src/Score/Range.antt =====
-- The range of the score and of its factors.
use kubetidy.Base.{
  ltb, Bool-cases, All, ℕ, ◌≤◌, ◌≡◌, refl, ◌≢◌, ◌⊎◌, inl, inr, false, List, [], ◌∷◌, arith,
}
use kubetidy.Base.Float.{Float64, less, decimal, nought, IsIeee}
use kubetidy.Base.FloatOrder.{decimal-IsNumber, not_lt_of_le}
use kubetidy.Base.Int.{ℤ, pos, negsuc}
use kubetidy.Model.{Recommendation, ScoreFactor}
use kubetidy.Score.{cut_score, clamp_unit, accuracy_mean, coverage, compute}

-- An integer that lies in 0..100.
abbrev pub IsPercentage : ℤ → Type 0
IsPercentage s = (n : ℕ) × (s ≡ pos n) × (n ≤ 100)

cut_score-IsPercentage : (s : ℤ) → IsPercentage (cut_score s)
unfolding cut_score
cut_score-IsPercentage (pos n) = elim (Bool-cases (ltb 100 n)) [
  | inl above ↦ (100, ground arith, omega arith)
  | inr within ↦ (n, ground arith, ground arith)
]
cut_score-IsPercentage (negsuc n) = (0, ground arith, omega arith)

module _ {F : Type 0} ⦃fl : Float64 F⦄ where
  -- A factor's value lies between 0 and 1, unless it is NaN.
  abbrev pub IsFactor : ScoreFactor F → Type 0
  IsFactor f = (less f.value nought ≡ false) × (less (decimal 1 0) f.value ≡ false)

  module _ (laws : IsIeee F) where
    clamp_unit_range :
        (v : F) → (less (clamp_unit v) nought ≡ false) × (less (decimal 1 0) (clamp_unit v) ≡ false)
    unfolding clamp_unit
    clamp_unit_range v = ground (
      arith,
      not_lt_of_le laws nought nought (decimal-IsNumber laws 0 0),
      not_lt_of_le laws (decimal 1 0) nought (laws.decimal_mono 0 0 1 0 (omega arith)),
      not_lt_of_le laws (decimal 1 0) (decimal 1 0) (decimal-IsNumber laws 1 0),
      not_lt_of_le laws (decimal 1 0) nought (laws.decimal_mono 0 0 1 0 (omega arith)),
      not_lt_of_le laws nought (decimal 1 0),
    )

    -- The efficiency score of any scan lies in 0..100, and no factor of its breakdown is below 0 or
    -- above 1. Without recommendations the score is 100.
    pub compute_range :
        (recs : List (Recommendation F))
        → IsPercentage (compute recs).0
          × All IsFactor (compute recs).1
          × ((recs ≢ []) ⊎ ((compute recs).0 ≡ pos 100))
    unfolding compute
    compute_range [] =
        let zero-le-one = laws.decimal_mono 0 0 1 0 (omega arith) in
        (
          (100, refl, omega arith),
          (
            (not_lt_of_le laws _ _ zero-le-one, not_lt_of_le laws _ _ (decimal-IsNumber laws 1 0)),
            tt,
          ),
          inr refl,
        )
    compute_range (r ∷ rs) = (
      cut_score-IsPercentage _,
      (clamp_unit_range (accuracy_mean (r ∷ rs)), (clamp_unit_range (coverage (r ∷ rs)), tt)),
      inl (λ e. cc),
    )
