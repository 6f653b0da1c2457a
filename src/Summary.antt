-- ===== src/Summary.antt =====
-- internal/summary/summary.go and the status types of api/v1alpha1/clusterusagesummary_types.go: the
-- rollup of a cluster. The formatted time is an argument.
pub mod Counts
mod Tests
use kubetidy.Base.{
  if◌then◌else◌, length, take, ℕ, Bool, ◌&&◌, Option, none, some, List, [], ◌∷◌, ◌++◌, map,
}
use kubetidy.Base.Float.{Float64, ◌⊕◌, less, less_eq, nought}
use kubetidy.Base.Int.{ℤ, pos, pos_part, ltb_ℤ, leb_ℤ}
use kubetidy.Base.Sort.{sort_by}
use kubetidy.Base.Text.{Text, text_eq, text_less, has_key}
use kubetidy.Model.{Workload, workload_ref, Recommendation, percent}
use kubetidy.Profile.{TargetRef}

pub record WorkloadTarget (F : Type 0) : Type 0 where
  pub target_ref : TargetRef
  pub namespace : Text
  pub monthly_savings : F
  pub confidence : ℤ

pub record SummaryStatus (F : Type 0) : Type 0 where
  pub generated_at : Text
  pub efficiency_score : ℤ
  pub workload_count : ℕ
  pub total_monthly_cost : F
  pub wasted_monthly_cost : F
  pub top_targets : List (WorkloadTarget F)

-- What is summed up for one workload: `agg`.
pub record Aggregate (F : Type 0) : Type 0 where
  pub workload : Workload
  pub savings : F
  pub confidence : ℤ

unfoldable pub default_top_n : ℤ
default_top_n = pos 20

-- A key is stored once in a set.
unfoldable pub add_seen : Text → List Text → List Text
unfolding has_key
add_seen key seen = if has_key key seen then seen else seen ++ (key ∷ [])

unfoldable pub seen_loop : {F : Type 0} → List Text → List (Recommendation F) → List Text
unfolding add_seen
seen_loop seen [] = seen
seen_loop seen (r ∷ rs) = seen_loop (add_seen (workload_ref r.workload) seen) rs

unfoldable pub count_workloads : {F : Type 0} → List (Recommendation F) → ℕ
unfolding seen_loop
count_workloads recs = length (seen_loop [] recs)

unfoldable pub clamp_score : ℤ → ℤ
clamp_score s = if ltb_ℤ s (pos 0) then pos 0 else if ltb_ℤ (pos 100) s then pos 100 else s

module _ {F : Type 0} ⦃fl : Float64 F⦄ where
  abbrev pub raise_confidence : ℤ → Recommendation F → ℤ
  unfolding percent
  raise_confidence best r = if ltb_ℤ best (percent r.confidence) then percent r.confidence else best

  -- One round of the aggregation; the map and the order of its keys are one list.
  unfoldable pub add_aggregate : List (Aggregate F) → Recommendation F → List (Aggregate F)
  unfolding raise_confidence
  add_aggregate [] r =
      record {
        workload = r.workload;
        savings = nought ⊕ r.monthly_savings;
        confidence = raise_confidence (pos 0) r;
      }
      ∷ []
  add_aggregate (a ∷ more) r =
      let rest = add_aggregate more r in
      if text_eq (workload_ref a.workload) (workload_ref r.workload)
      then record a {
        savings = a.savings ⊕ r.monthly_savings;
        confidence = raise_confidence a.confidence r;
      }
        ∷ more
      else a ∷ rest

  unfoldable pub aggregate_loop : List (Aggregate F) → List (Recommendation F) → List (Aggregate F)
  unfolding add_aggregate
  aggregate_loop all [] = all
  aggregate_loop all (r ∷ rs) =
      aggregate_loop (if less_eq r.monthly_savings nought then all else add_aggregate all r) rs

  abbrev pub target_of : Aggregate F → WorkloadTarget F
  target_of a = record {
    target_ref = record { kind = a.workload.kind; name = a.workload.name };
    namespace = a.workload.namespace;
    monthly_savings = a.savings;
    confidence = a.confidence;
  }

  -- The order of the sort: larger savings first, then by namespace and name.
  unfoldable pub target_before : WorkloadTarget F → WorkloadTarget F → Bool
  unfolding text_less
  target_before i j =
      if less_eq i.monthly_savings j.monthly_savings && less_eq j.monthly_savings i.monthly_savings
      then text_less (i.namespace ++ i.target_ref.name) (j.namespace ++ j.target_ref.name)
      else less j.monthly_savings i.monthly_savings

  unfoldable pub top_n_targets : List (Recommendation F) → ℤ → List (WorkloadTarget F)
  unfolding sort_by aggregate_loop target_before
  top_n_targets recs n =
      let targets = sort_by target_before (map target_of (aggregate_loop [] recs)) in
      if ltb_ℤ (pos 0) n && ltb_ℤ n (pos (length targets))
      then take (pos_part n) targets
      else targets

  -- The loop of `Build` over the costs, where no cost function may be given.
  unfoldable pub total_cost : Option (Recommendation F → F) → F → List (Recommendation F) → F
  total_cost cost sum [] = sum
  total_cost none sum (r ∷ rs) = total_cost none sum rs
  total_cost (some cost) sum (r ∷ rs) = total_cost (some cost) (sum ⊕ cost r) rs

  unfoldable pub wasted_cost : F → List (Recommendation F) → F
  wasted_cost sum [] = sum
  wasted_cost sum (r ∷ rs) =
      wasted_cost (if less nought r.monthly_savings then sum ⊕ r.monthly_savings else sum) rs

  unfoldable pub build_summary :
      List (Recommendation F) → ℤ → Option (Recommendation F → F) → ℤ → Text → SummaryStatus F
  unfolding count_workloads total_cost wasted_cost top_n_targets clamp_score default_top_n
  build_summary recs score cost top_n generated_at = record {
    generated_at = generated_at;
    efficiency_score = clamp_score score;
    workload_count = count_workloads recs;
    total_monthly_cost = total_cost cost nought recs;
    wasted_monthly_cost = wasted_cost nought recs;
    top_targets = top_n_targets recs (if leb_ℤ top_n (pos 0) then default_top_n else top_n);
  }
