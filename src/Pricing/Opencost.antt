-- ===== src/Pricing/Opencost.antt =====
-- internal/pricing/opencost.go: the prices that an allocation report of OpenCost gives. The HTTP
-- client, the URL and the JSON decoder are the fields of OpencostApi; the entries of a bucket come in
-- the order of `range`.
use kubetidy.Base.{
  ◌==◌, if◌then◌else◌, length, ◌^◌, Bool, false, not, ◌&&◌, ◌||◌, Option, none, some, List, [], ◌∷◌,
  ◌++◌,
}
use kubetidy.Base.Float.{Float64, ◌⊕◌, ◌⊗◌, ◌⊘◌, less, less_eq, decimal, nought}
use kubetidy.Base.Maps.{lookup_text, put_text}
use kubetidy.Base.Text.{Text, codes, is_empty}
use kubetidy.Model.{Workload, ResourcePrice}
use kubetidy.Pricing.{endpoint}
use kubetidy.Scan.{Answer, found, failed}

-- `ocAllocation`
pub record Allocation (F : Type 0) : Type 0 where
  pub name : Text
  pub namespace : Text
  pub controller : Text
  pub cpu_core_hours : F
  pub cpu_cost : F
  pub ram_byte_hours : F
  pub ram_cost : F

pub record HttpResponse : Type 0 where
  pub is_ok : Bool
  pub status : Text
  pub body : Text

pub record OpencostApi (F : Type 0) : Type 0 where
  pub trim_space : Text → Text
  pub allocation_url : Text → Text → Answer Text
  -- the error of a request that cannot be built
  pub request_error : Text → Option Text
  pub send : Text → Answer HttpResponse
  -- the first 512 bytes, trimmed
  pub error_body : Text → Text
  pub decode : Text → Answer (List (List (Text × Allocation F)))

pub record OpencostProvider (F : Type 0) : Type 0 where
  pub by_workload : List (Text × ResourcePrice F)
  pub blended : ResourcePrice F

-- The sums over the allocations, and the prices so far.
pub record AllocationSum (F : Type 0) : Type 0 where
  pub cpu_cost : F
  pub cpu_core_hours : F
  pub ram_cost : F
  pub ram_byte_hours : F
  pub by_workload : List (Text × ResourcePrice F)

-- `strings.HasPrefix(s, "__")`
unfoldable pub has_two_underscores : Text → Bool
has_two_underscores [] = false
has_two_underscores (c ∷ []) = false
has_two_underscores (c ∷ d ∷ s) = (c == 95) && (d == 95)

-- `isSyntheticAllocation`
unfoldable pub is_synthetic : {F : Type 0} → Text → Allocation F → Bool
unfolding has_two_underscores
is_synthetic key a =
    has_two_underscores key || (is_empty a.controller && has_two_underscores a.name)

unfoldable pub workload_key : Text → Text → Text
workload_key namespace name = namespace ++ (codes "/" ++ name)

module _ {F : Type 0} ⦃fl : Float64 F⦄ where
  -- `hoursPerMonth`
  abbrev pub hours_per_month : F
  hours_per_month = decimal 730 0

  unfoldable pub unit_rate : F → F → F
  unit_rate cost quantity = if less_eq quantity nought then nought else cost ⊘ quantity

  unfoldable pub opencost_rates : F → F → F → F → ResourcePrice F
  unfolding unit_rate
  opencost_rates cpu_cost cpu_hours ram_cost ram_hours = record {
    cpu_core_month = unit_rate cpu_cost cpu_hours ⊗ hours_per_month;
    mem_gib_month = unit_rate ram_cost ram_hours ⊗ decimal (2 ^ 30) 0 ⊗ hours_per_month;
    source = codes "OpenCost";
  }

  -- The prices of a workload that has a name and a price.
  unfoldable pub put_rates :
      Allocation F → ResourcePrice F → List (Text × ResourcePrice F) → List (Text × ResourcePrice F)
  unfolding put_text workload_key
  put_rates a rates prices =
      if not (is_empty a.namespace)
        && (not (is_empty a.controller)
            && (less nought rates.cpu_core_month || less nought rates.mem_gib_month))
      then put_text (workload_key a.namespace a.controller) rates prices
      else prices

  unfoldable pub add_allocation : AllocationSum F → Text → Allocation F → AllocationSum F
  unfolding is_synthetic opencost_rates put_rates
  add_allocation sum key a = if is_synthetic key a then sum else record {
    cpu_cost = sum.cpu_cost ⊕ a.cpu_cost;
    cpu_core_hours = sum.cpu_core_hours ⊕ a.cpu_core_hours;
    ram_cost = sum.ram_cost ⊕ a.ram_cost;
    ram_byte_hours = sum.ram_byte_hours ⊕ a.ram_byte_hours;
    by_workload =
        put_rates a (opencost_rates a.cpu_cost a.cpu_core_hours a.ram_cost a.ram_byte_hours)
          sum.by_workload;
  }

  unfoldable pub add_bucket : AllocationSum F → List (Text × Allocation F) → AllocationSum F
  unfolding add_allocation
  add_bucket sum [] = sum
  add_bucket sum ((key, a) ∷ more) = add_bucket (add_allocation sum key a) more

  unfoldable pub add_buckets : AllocationSum F → List (List (Text × Allocation F)) → AllocationSum F
  unfolding add_bucket
  add_buckets sum [] = sum
  add_buckets sum (b ∷ bs) = add_buckets (add_bucket sum b) bs

  abbrev pub no_allocations : AllocationSum F
  no_allocations = record {
    cpu_cost = nought;
    cpu_core_hours = nought;
    ram_cost = nought;
    ram_byte_hours = nought;
    by_workload = [];
  }

  unfoldable pub build_from_sum : AllocationSum F → Answer (OpencostProvider F)
  unfolding opencost_rates
  build_from_sum sum =
      let blended =
        opencost_rates sum.cpu_cost sum.cpu_core_hours sum.ram_cost sum.ram_byte_hours in
      if less_eq blended.cpu_core_month nought
        && (less_eq blended.mem_gib_month nought && (length sum.by_workload == 0))
      then failed (codes "opencost: no cost data returned (is OpenCost collecting yet?)")
      else found (record { by_workload = sum.by_workload; blended = blended })

  -- `buildProvider`
  unfoldable pub build_provider : List (List (Text × Allocation F)) → Answer (OpencostProvider F)
  unfolding add_buckets build_from_sum
  build_provider buckets = build_from_sum (add_buckets no_allocations buckets)

  -- `opencostProvider.ResourcePrice`
  unfoldable pub opencost_price : OpencostProvider F → Workload → ResourcePrice F
  unfolding lookup_text workload_key
  opencost_price p w = elim (lookup_text (workload_key w.namespace w.name) p.by_workload) [
    | none ↦ p.blended
    | some price ↦ price
  ]

  module _ (api : OpencostApi F) where
    unfoldable pub read_allocations : HttpResponse → Answer (OpencostProvider F)
    unfolding build_provider
    read_allocations resp =
        if not resp.is_ok
        then failed (
            codes "opencost: allocation API returned "
            ++ (resp.status ++ (codes ": " ++ api.error_body resp.body)))
        else elim (api.decode resp.body) [
          | failed err ↦ failed (codes "opencost: decoding allocation response: " ++ err)
          | found buckets ↦ build_provider buckets
        ]

    unfoldable pub query_allocations : Text → Answer (OpencostProvider F)
    unfolding read_allocations
    query_allocations endpoint = elim (api.request_error endpoint) [
      | some err ↦ failed (codes "opencost: building request: " ++ err)
      | none ↦ elim (api.send endpoint) [
        | failed err ↦ failed (codes "opencost: querying allocation API: " ++ err)
        | found resp ↦ read_allocations resp
      ]
    ]

    -- `newOpenCostProviderWithClient`
    unfoldable pub new_opencost_provider : Text → Text → Answer (OpencostProvider F)
    unfolding query_allocations
    new_opencost_provider base_url window =
        if is_empty (api.trim_space base_url)
        then failed (codes "opencost: empty base URL")
        else elim (api.allocation_url base_url (if is_empty window then codes "7d" else window)) [
          | failed err ↦ failed err
          | found endpoint ↦ query_allocations endpoint
        ]
