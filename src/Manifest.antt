-- ===== src/Manifest.antt =====
-- internal/manifest/cost.go: the cost of workloads, and the comparison of two manifests; Parse is
-- manifest.go. A Go map is an association list, and the order in which `range` gives it is an
-- argument.
pub mod Parse
pub mod Ranking
pub mod Order
mod Tests
use kubetidy.Base.{
  if◌then◌else◌, filter_map, Bool, ◌&&◌, Option, none, some, List, [], ◌∷◌, ◌++◌, map,
}
use kubetidy.Base.Float.{Float64, ◌⊕◌, ◌⊖◌, ◌⊗◌, less, less_eq, decimal, nought, of_int}
use kubetidy.Base.Int.{ℤ, pos}
use kubetidy.Base.Maps.{lookup_text, put_text}
use kubetidy.Base.Sort.{sort_by}
use kubetidy.Base.Text.{Text, codes, text_less}
use kubetidy.Cost.{effective_replicas, monthly_cost}
use kubetidy.Model.{ResourceSpec, Container, Workload, ResourcePrice}
use kubetidy.Pricing.{default_config}

pub record WorkloadCost (F : Type 0) : Type 0 where
  pub kind : Text
  pub namespace : Text
  pub name : Text
  pub replicas : ℤ
  pub monthly : F

-- `Ref`
unfoldable pub cost_ref : {F : Type 0} → WorkloadCost F → Text
cost_ref w = w.kind ++ (codes "/" ++ (w.namespace ++ (codes "/" ++ w.name)))

pub data ChangeStatus : Type 0 where
  added removed changed unchanged : ChangeStatus

pub record CostChange (F : Type 0) : Type 0 where
  pub ref : Text
  pub kind : Text
  pub namespace : Text
  pub name : Text
  pub before : F
  pub after : F
  pub delta : F
  pub status : ChangeStatus

pub record CostReport (F : Type 0) : Type 0 where
  pub changes : List (CostChange F)
  pub before_total : F
  pub after_total : F
  pub net_delta : F

-- `indexByRef`, from the entries so far.
unfoldable pub index_by_ref :
    {F : Type 0}
    → List (Text × WorkloadCost F)
    → List (WorkloadCost F)
    → List (Text × WorkloadCost F)
unfolding put_text cost_ref
index_by_ref m [] = m
index_by_ref m (c ∷ cs) = index_by_ref (put_text (cost_ref c) c m) cs

abbrev pub request_spec : Container → ResourceSpec
request_spec c = record {
  requests = c.requests;
  limits = record { cpu_millicores = pos 0; memory_bytes = pos 0 };
}

module _ {F : Type 0} ⦃fl : Float64 F⦄ where
  unfoldable pub per_replica : F → List Container → ResourcePrice F → F
  unfolding monthly_cost
  per_replica sum [] price = sum
  per_replica sum (c ∷ cs) price = per_replica (sum ⊕ monthly_cost (request_spec c) price) cs price

  abbrev pub workload_cost : ResourcePrice F → Workload → WorkloadCost F
  unfolding per_replica
  workload_cost price w =
      let replicas = effective_replicas w.replicas in
      record {
        kind = w.kind;
        namespace = w.namespace;
        name = w.name;
        replicas = replicas;
        monthly = per_replica nought w.containers price ⊗ of_int replicas;
      }

  -- `CostWorkloads`
  abbrev pub cost_workloads : List Workload → ResourcePrice F → List (WorkloadCost F)
  unfolding workload_cost
  cost_workloads ws price = map (workload_cost price) ws

  unfoldable pub abs : F → F
  abs v = if less v nought then fl.neg v else v

  unfoldable pub approx_equal : F → F → Bool
  unfolding abs
  approx_equal a b = less (abs (a ⊖ b)) (decimal 5 3)

  -- The change of a workload of the head, for what the base has of it.
  unfoldable pub head_change : Text → WorkloadCost F → Option (WorkloadCost F) → CostChange F
  unfolding approx_equal
  head_change ref h none = record {
    ref = ref;
    kind = h.kind;
    namespace = h.namespace;
    name = h.name;
    before = nought;
    after = h.monthly;
    delta = h.monthly ⊖ nought;
    status = added;
  }
  head_change ref h (some b) = record {
    ref = ref;
    kind = h.kind;
    namespace = h.namespace;
    name = h.name;
    before = b.monthly;
    after = h.monthly;
    delta = h.monthly ⊖ b.monthly;
    status = if approx_equal b.monthly h.monthly then unchanged else changed;
  }

  abbrev pub removal : Text → WorkloadCost F → CostChange F
  removal ref b = record {
    ref = ref;
    kind = b.kind;
    namespace = b.namespace;
    name = b.name;
    before = b.monthly;
    after = nought;
    delta = fl.neg b.monthly;
    status = removed;
  }

  -- The two loops of `Compare`, over the entries in the order of `range`.
  abbrev pub change_for : List (Text × WorkloadCost F) → Text × WorkloadCost F → CostChange F
  unfolding head_change lookup_text
  change_for base (ref, h) = head_change ref h (lookup_text ref base)

  abbrev pub removal_of :
      List (Text × WorkloadCost F) → Text × WorkloadCost F → Option (CostChange F)
  unfolding lookup_text
  removal_of head (ref, b) = elim (lookup_text ref head) [
    | none ↦ some (removal ref b)
    | some h ↦ none
  ]

  abbrev pub removals :
      List (Text × WorkloadCost F) → List (Text × WorkloadCost F) → List (CostChange F)
  unfolding removal_of
  removals head bs = filter_map (removal_of head) bs

  unfoldable pub change_before : CostChange F → CostChange F → Bool
  unfolding abs text_less
  change_before i j =
      if less_eq (abs i.delta) (abs j.delta) && less_eq (abs j.delta) (abs i.delta)
      then text_less i.ref j.ref
      else less (abs j.delta) (abs i.delta)

  unfoldable pub sum_before : F → List (CostChange F) → F
  sum_before sum [] = sum
  sum_before sum (c ∷ cs) = sum_before (sum ⊕ c.before) cs

  unfoldable pub sum_after : F → List (CostChange F) → F
  sum_after sum [] = sum
  sum_after sum (c ∷ cs) = sum_after (sum ⊕ c.after) cs

  -- `Compare`, where `range` gives the entries of a map in some order.
  unfoldable pub compare_costs :
      (List (Text × WorkloadCost F) → List (Text × WorkloadCost F))
      → List (WorkloadCost F)
      → List (WorkloadCost F)
      → CostReport F
  unfolding index_by_ref change_for removals change_before sort_by sum_before sum_after
  compare_costs order base head =
      let base_by_ref = index_by_ref [] base in
      let head_by_ref = index_by_ref [] head in
      let changes =
        map (change_for base_by_ref) (order head_by_ref)
        ++ removals head_by_ref (order base_by_ref) in
      let before_sum = sum_before nought changes in
      let after_sum = sum_after nought changes in
      record {
        changes = sort_by change_before changes;
        before_total = before_sum;
        after_total = after_sum;
        net_delta = after_sum ⊖ before_sum;
      }

  abbrev pub price_or : F → F → F
  price_or given default = if less nought given then given else default

  -- `DefaultPrice`
  abbrev pub default_price : F → F → ResourcePrice F
  default_price cpu mem = record {
    cpu_core_month = price_or cpu (default_config {F = F}).cpu_core_month;
    mem_gib_month = price_or mem (default_config {F = F}).mem_gib_month;
    source = codes "derived node pricing";
  }
