-- ===== src/Scan/Tests.antt =====
-- Scans over `Fixed`, and the theorems at them.
use Prim.Native.String.{String}
use mathlib.Core.List.{Memᴰ}
use kubetidy.Base.{
  if◌then◌else◌, ℕ, suc, ◌≤◌, ◌<◌, ◌≡◌, refl, ◌⊎◌, false, some, List, [], ◌∷◌, arith,
}
use kubetidy.Base.Fixed.{Fixed, fixed_float}
use kubetidy.Base.FixedLaws.{Fixed-IsIeee}
use kubetidy.Base.Float.{decimal, nought}
use kubetidy.Base.Int.{pos}
use kubetidy.Base.Text.{Text, codes, text_eq}
use kubetidy.Model.{
  EvidenceTier, static, snapshot, operator, historical, allocated, tier_rank, Container, Workload,
  Percentiles, UsageStats, ResourcePrice, default_policy,
}
use kubetidy.Scan.{
  Answer, found, failed, tier_count, dominant_tier, WorkloadResult, Engine, warning, no_result,
  analyze_workload, flatten, ScanInputs, run,
}
use kubetidy.Scan.Isolation.{IsInserted, run-isolates}
use kubetidy.Scan.Pool.{
  told, finished, Pool, scan_workers, update, start, moved, launched, wrote, gave_back, launch,
  write, skip, release, finish, Reach, here, next, IsOver,
}
use kubetidy.Scan.Pool.Refinement.{flatten_slots, result_at, pool_refines}
use kubetidy.Scan.Tier.{Covers, dominant_tier_lem}

abbrev measured : ℕ → Percentiles Fixed
measured m = record {
  avg = nought;
  p50 = nought;
  p95 = decimal m 0;
  p99 = nought;
  peak = decimal m 0;
  cv = decimal 2 1;
}

abbrev web_usage : UsageStats Fixed
web_usage = record {
  cpu_millicores = measured 280;
  memory_bytes = measured 104_857_600;
  window = pos 0;
  samples = pos 9;
  tier = historical;
}

abbrev web_price : ResourcePrice Fixed
web_price = record { cpu_core_month = decimal 20 0; mem_gib_month = decimal 3 0; source = [] }

abbrev container : Container
container = record {
  name = codes "web";
  requests = record { cpu_millicores = pos 2000; memory_bytes = pos 536_870_912 };
  limits = record { cpu_millicores = pos 0; memory_bytes = pos 536_870_912 };
}

abbrev workload : String → Workload
workload name = record {
  kind = codes "Deployment";
  name = codes name;
  namespace = codes "shop";
  replicas = pos 3;
  containers = container ∷ [];
  selector = [];
  node_labels = [];
}

-- The usage of the workload "web" alone is known.
abbrev usage_of : Workload → Answer (List (Text × UsageStats Fixed))
usage_of w =
    if text_eq w.name (codes "web")
    then found ((codes "web", web_usage) ∷ [])
    else failed (codes "no metrics")

abbrev engine : Engine Fixed
engine = record {
  usage = usage_of;
  price = λ w. found web_price;
  policy = default_policy;
  declared_tier = snapshot;
  printer = record { whole_number = λ n. codes "n"; fixed_digits = λ k x. codes "x" };
}

abbrev inputs : ScanInputs
inputs = record {
  context = codes "prod";
  namespace = [];
  workloads = workload "web" ∷ workload "db" ∷ [];
  now = pos 0;
  tier_order = historical ∷ [];
}

run-isolates_example :
    let whole = run engine inputs in
    let rest = run engine (record inputs { workloads = workload "web" ∷ [] }) in
    (whole.recommendations ≡ rest.recommendations)
    × (whole.total_monthly_waste ≡ rest.total_monthly_waste)
    × (whole.efficiency_score ≡ rest.efficiency_score)
    × (whole.score_breakdown ≡ rest.score_breakdown)
    × (whole.tier ≡ rest.tier)
    × (whole.workload_count ≡ suc rest.workload_count)
    × IsInserted
        (warning (codes "usage unavailable for ") (workload "db") (codes "no metrics"))
        whole.warnings
        rest.warnings
unfolding text_eq
run-isolates_example =
    run-isolates engine Fixed-IsIeee inputs (workload "web" ∷ []) (workload "db") []
      (codes "no metrics") refl

covered : Covers (snapshot ∷ historical ∷ []) (snapshot ∷ historical ∷ [])
unfolding tier_count
covered static h = absurd (omega arith)
covered snapshot h = Memᴰ.head refl
covered operator h = absurd (omega arith)
covered historical h = Memᴰ.tail (Memᴰ.head refl)
covered allocated h = absurd (omega arith)

covered_back : Covers (historical ∷ snapshot ∷ []) (snapshot ∷ historical ∷ [])
unfolding tier_count
covered_back static h = absurd (omega arith)
covered_back snapshot h = Memᴰ.tail (Memᴰ.head refl)
covered_back operator h = absurd (omega arith)
covered_back historical h = Memᴰ.head refl
covered_back allocated h = absurd (omega arith)

dominant_tier_lem_example :
    (r : EvidenceTier) × (dominant_tier (snapshot ∷ historical ∷ []) (snapshot ∷ historical ∷ [])
      ≡ some r)
    × (dominant_tier (historical ∷ snapshot ∷ []) (snapshot ∷ historical ∷ []) ≡ some r)
    × ((u : EvidenceTier)
        → (tier_count u (snapshot ∷ historical ∷ []) < tier_count r (snapshot ∷ historical ∷ []))
          ⊎ ((tier_count u (snapshot ∷ historical ∷ []) ≡ tier_count r (snapshot ∷ historical ∷ []))
              × (tier_rank u ≤ tier_rank r)))
dominant_tier_lem_example =
    dominant_tier_lem (snapshot ∷ historical ∷ []) (historical ∷ snapshot ∷ []) snapshot
      (historical ∷ []) covered covered_back

-- The pool at one workload, with nobody to report to.
abbrev one_workload : List Workload
one_workload = workload "web" ∷ []

abbrev pool_end : Pool (WorkloadResult Fixed)
pool_end =
    moved
      (gave_back
        (moved (wrote (launched start) 0 (analyze_workload engine (workload "web"))) 0 told) 0)
      0 finished

pool_run : Reach 1 false (result_at engine one_workload) pool_end
unfolding start launched wrote gave_back moved update scan_workers result_at
pool_run =
    next
      (next
        (next (next (next here (launch (omega arith) (omega arith))) (write 0 refl))
          (skip 0 refl refl))
        (release 0 refl))
      (finish 0 refl)

pool-IsOver : IsOver 1 false (result_at engine one_workload) pool_end
unfolding start launched wrote gave_back moved update
pool-IsOver = record { launched_all = refl; all_done = λ i l. ground arith }

pool_refines_example :
    flatten_slots engine no_result pool_end.slots 1 0 ≡ flatten engine no_result one_workload
pool_refines_example = pool_refines engine false one_workload pool_run pool-IsOver
