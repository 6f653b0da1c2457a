-- ===== src/Score.antt =====
-- internal/score/score.go: the efficiency score of a cluster.
pub mod Range
mod Tests
use Prim.Native.Nat.{min, max}
use kubetidy.Base.{if◌then◌else◌, length, ℕ, ◌+◌, ◌*◌, List, [], ◌∷◌}
use kubetidy.Base.Float.{Float64, ◌⊕◌, ◌⊗◌, ◌⊘◌, less, less_eq, decimal, nought, of_int}
use kubetidy.Base.Int.{ℤ, pos, ltb_ℤ}
use kubetidy.Base.Text.{codes}
use kubetidy.Model.{ResourceAmounts, is_zero, Recommendation, ScoreFactor}

-- An integer cut to 0..100.
unfoldable pub cut_score : ℤ → ℤ
cut_score s = if ltb_ℤ s (pos 0) then pos 0 else if ltb_ℤ (pos 100) s then pos 100 else s

module _ {F : Type 0} ⦃fl : Float64 F⦄ where
  -- The weight of a request; no amount of money.
  unfoldable pub cost_proxy : ResourceAmounts → F
  cost_proxy a =
      of_int a.cpu_millicores ⊘ decimal 1000 0
      ⊕ decimal 10 2 ⊗ of_int a.memory_bytes ⊘ decimal (1024 * 1024 * 1024) 0

  unfoldable pub accuracy : ResourceAmounts → ResourceAmounts → F
  accuracy current proposed =
      let c = cost_proxy current in
      let p = cost_proxy proposed in
      let hi = fl.max c p in if less_eq hi nought then nought else fl.min c p ⊘ hi

  unfoldable pub clamp_unit : F → F
  clamp_unit v = if less v nought then nought else if less (decimal 1 0) v then decimal 1 0 else v

  abbrev pub accuracy_of : Recommendation F → F
  accuracy_of r = accuracy r.current.requests r.proposed.requests

  abbrev pub weight_of : Recommendation F → F
  weight_of r = cost_proxy r.proposed.requests

  -- The loop of `Compute`: the weighted accuracies, the weights and the workloads with requests.
  unfoldable pub tally : List (Recommendation F) → F → F → ℕ → F × F × ℕ
  tally [] acc weights covered = (acc, weights, covered)
  tally (r ∷ rs) acc weights covered =
      tally rs (acc ⊕ accuracy_of r ⊗ weight_of r) (weights ⊕ weight_of r)
        (if is_zero r.current.requests then covered else covered + 1)

  -- The second loop, for proposals without cost.
  unfoldable pub accuracy_sum : List (Recommendation F) → F → F
  accuracy_sum [] acc = acc
  accuracy_sum (r ∷ rs) acc = accuracy_sum rs (acc ⊕ accuracy_of r)

  unfoldable pub accuracy_mean : List (Recommendation F) → F
  unfolding tally accuracy_sum
  accuracy_mean recs =
      let sums = tally recs nought nought 0 in
      if less nought sums.1
      then sums.0 ⊘ sums.1
      else accuracy_sum recs nought ⊘ of_int (pos (length recs))

  unfoldable pub coverage : List (Recommendation F) → F
  unfolding tally
  coverage recs = of_int (pos (tally recs nought nought 0).2) ⊘ of_int (pos (length recs))

  unfoldable pub compute : List (Recommendation F) → ℤ × List (ScoreFactor F)
  compute [] = (
    pos 100,
    record {
      name = codes "Nothing to optimize";
      value = decimal 1 0;
      description =
          codes "No workloads with usage data to rightsize; cluster scored as fully efficient.";
    }
        ∷ [],
  )
  compute (r ∷ rs) =
      let accurate = accuracy_mean (r ∷ rs) in
      let covered = coverage (r ∷ rs) in
      (
        cut_score (fl.round ((accurate ⊗ decimal 70 2 ⊕ covered ⊗ decimal 30 2) ⊗ decimal 100 0)),
        record {
          name = codes "Request accuracy";
          value = clamp_unit accurate;
          description =
              codes
                "How closely current requests match the recommended sizing (cost-weighted across workloads).";
        }
            ∷ record {
              name = codes "Coverage (requests set)";
              value = clamp_unit covered;
              description = codes "Fraction of workloads that declare resource requests.";
            }
            ∷ [],
      )
