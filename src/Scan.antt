-- ===== src/Scan.antt =====
-- internal/scan/scan.go: the scan engine. A usage or price provider is a parameter: a function of
-- the workload into a result or the text of its error (providers answer the same question alike
-- during one scan).
pub mod Tier
pub mod Analysis
pub mod Isolation
pub mod Pool
mod Tests
use kubetidy.Base.{
  ltb, ◌==◌, if◌then◌else◌, length, ℕ, suc, ◌*◌, ◌≡◌, refl, ◌⊎◌, inl, inr, Bool, false, not, ◌&&◌,
  ◌||◌, Option, none, some, List, [], ◌∷◌, ◌++◌, map,
}
use kubetidy.Base.Float.{Float64, ◌⊕◌, less, less_eq, decimal, nought}
use kubetidy.Base.Int.{ℤ, pos, ltb_ℤ, sub64}
use kubetidy.Base.Maps.{lookup_text}
use kubetidy.Base.Text.{Text, codes}
use kubetidy.Cost.{monthly_savings}
use kubetidy.Model.{
  EvidenceTier, snapshot, operator, historical, tier_rank, is_snapshot, ResourceSpec, Container,
  Workload, workload_ref, UsageStats, Policy, ResourcePrice, Recommendation, ScanResult,
}
use kubetidy.Rightsizer.{recommend, confidence_score}
use kubetidy.Score.{compute}
use kubetidy.Wording.{Printer, build_evidence, build_explanation, build_reason}

-- What a provider answers.
pub data Answer (A : Type 0) : Type 0 where
  found : A → Answer A
  failed : Text → Answer A

pub Answer-cases :
    {A : Type 0} (a : Answer A) → ((x : A) × (a ≡ found x)) ⊎ ((err : Text) × (a ≡ failed err))
Answer-cases (found x) = inl (x, refl)
Answer-cases (failed err) = inr (err, refl)

abbrev pub cpu_eps : ℤ
cpu_eps = pos 25

abbrev pub mem_eps : ℤ
mem_eps = pos (32 * 1024 * 1024)

-- `int64`: the least value is its own negative.
unfoldable pub abs64 : ℤ → ℤ
unfolding sub64
abs64 v = if ltb_ℤ v (pos 0) then sub64 (pos 0) v else v

-- Neither request moves by a meaningful amount.
unfoldable pub barely_moves : ResourceSpec → ResourceSpec → Bool
unfolding abs64 sub64
barely_moves current proposed =
    ltb_ℤ (abs64 (sub64 current.requests.cpu_millicores proposed.requests.cpu_millicores)) cpu_eps
    && ltb_ℤ (abs64 (sub64 current.requests.memory_bytes proposed.requests.memory_bytes)) mem_eps

module _ {F : Type 0} ⦃fl : Float64 F⦄ where
  abbrev pub noise_floor_dollars : F
  noise_floor_dollars = decimal 1 0

  unfoldable pub is_noise : ResourceSpec → ResourceSpec → F → Bool
  is_noise current proposed savings =
      if less_eq savings (fl.neg noise_floor_dollars)
      then false
      else if less_eq noise_floor_dollars savings
      then false
      else barely_moves current proposed

-- `counts[r.Tier]`
unfoldable pub tier_count : EvidenceTier → List EvidenceTier → ℕ
tier_count t [] = 0
tier_count t (u ∷ us) =
    if tier_rank u == tier_rank t then suc (tier_count t us) else tier_count t us

-- One round of the loop over the counts: more recommendations win, and the higher tier on a tie.
unfoldable pub better_tier : List EvidenceTier → EvidenceTier → EvidenceTier → EvidenceTier
unfolding tier_count
better_tier tiers best tier =
    if ltb (tier_count best tiers) (tier_count tier tiers)
      || ((tier_count tier tiers == tier_count best tiers) && ltb (tier_rank best) (tier_rank tier))
    then tier
    else best

-- The loop over the map, whose keys come in any order.
unfoldable pub best_tier : List EvidenceTier → List EvidenceTier → EvidenceTier → EvidenceTier
best_tier tiers [] best = best
best_tier tiers (tier ∷ rest) best = best_tier tiers rest (better_tier tiers best tier)

-- `dominantTier`: from the tiers of the recommendations and the order of the map's keys.
unfoldable pub dominant_tier : List EvidenceTier → List EvidenceTier → Option EvidenceTier
unfolding best_tier
dominant_tier keys [] = none
dominant_tier keys (t ∷ ts) = some (best_tier (t ∷ ts) keys t)

-- What one workload contributes to a scan.
pub record WorkloadResult (F : Type 0) : Type 0 where
  pub recs : List (Recommendation F)
  pub warnings : List Text
  pub waste : F

-- The engine's interfaces, its policy and the printing of numbers.
pub record Engine (F : Type 0) : Type 0 where
  pub usage : Workload → Answer (List (Text × UsageStats F))
  pub price : Workload → Answer (ResourcePrice F)
  pub policy : Policy F
  pub declared_tier : EvidenceTier
  pub printer : Printer F

abbrev pub spec_of : Container → ResourceSpec
spec_of c = record { requests = c.requests; limits = c.limits }

abbrev pub warning : Text → Workload → Text → Text
warning what w err = what ++ (workload_ref w ++ (codes ": " ++ err))

module _ {F : Type 0} ⦃fl : Float64 F⦄ where
  abbrev pub no_price : ResourcePrice F
  no_price = record { cpu_core_month = nought; mem_gib_month = nought; source = [] }

  -- The savings that count as waste.
  abbrev pub add_waste : F → Recommendation F → F
  add_waste waste r = if less nought r.monthly_savings then waste ⊕ r.monthly_savings else waste

  unfoldable pub add_result : WorkloadResult F → Option (Recommendation F) → WorkloadResult F
  add_result out none = out
  add_result out (some r) = record out {
    recs = out.recs ++ (r ∷ []);
    waste = add_waste out.waste r;
  }

  abbrev pub no_result : WorkloadResult F
  no_result = record { recs = []; warnings = []; waste = nought }

module _ {F : Type 0} ⦃fl : Float64 F⦄ (e : Engine F) where
  abbrev pub savings_of : Workload → ResourcePrice F → Container → UsageStats F → F
  savings_of w price c st =
      monthly_savings (spec_of c) (recommend (spec_of c) st e.policy) price w.replicas

  -- The recommendation for a container with usage.
  abbrev pub recommendation_for :
      Workload → ResourcePrice F → Container → UsageStats F → Recommendation F
  recommendation_for w price c st =
      let proposed = recommend (spec_of c) st e.policy in
      record {
        workload = w;
        container_name = c.name;
        current = spec_of c;
        proposed = proposed;
        monthly_savings = savings_of w price c st;
        confidence = record { score = confidence_score st; reason = build_reason e.printer st };
        tier = st.tier;
        usage = st;
        evidence = build_evidence e.printer st;
        explanation = build_explanation e.printer (spec_of c) proposed st price e.policy;
      }

  -- One round of the loop over the containers: `none` where the code says `continue`.
  unfoldable pub container_result :
      Workload
      → ResourcePrice F
      → List (Text × UsageStats F)
      → Container
      → Option (Recommendation F)
  unfolding lookup_text
  container_result w price stats c = elim (lookup_text c.name stats) [
    | none ↦ none
    | some st ↦
        if is_noise (spec_of c) (recommend (spec_of c) st e.policy) (savings_of w price c st)
        then none
        else some (recommendation_for w price c st)
  ]

  unfoldable pub containers_loop :
      Workload
      → ResourcePrice F
      → List (Text × UsageStats F)
      → List Container
      → WorkloadResult F
      → WorkloadResult F
  unfolding container_result add_result
  containers_loop w price stats [] out = out
  containers_loop w price stats (c ∷ cs) out =
      containers_loop w price stats cs (add_result out (container_result w price stats c))

  -- `analyzeWorkload`, once the usage is known.
  unfoldable pub analyze_with :
      Workload → List (Text × UsageStats F) → Answer (ResourcePrice F) → WorkloadResult F
  unfolding containers_loop
  analyze_with w stats (found price) = containers_loop w price stats w.containers no_result
  analyze_with w stats (failed err) =
      containers_loop w no_price stats w.containers
        (record no_result { warnings = warning (codes "pricing unavailable for ") w err ∷ [] })

  unfoldable pub analyze_workload : Workload → WorkloadResult F
  unfolding analyze_with
  analyze_workload w = elim (e.usage w) [
    | failed err ↦ record no_result {
      warnings = warning (codes "usage unavailable for ") w err ∷ [];
    }
    | found stats ↦ analyze_with w stats (e.price w)
  ]

  -- One round of the flattening loop of `Run`.
  abbrev pub join : WorkloadResult F → WorkloadResult F → WorkloadResult F
  join out r = record {
    recs = out.recs ++ r.recs;
    warnings = out.warnings ++ r.warnings;
    waste = out.waste ⊕ r.waste;
  }

  -- The flattening loop over the slots, one of each workload in order.
  unfoldable pub flatten : WorkloadResult F → List Workload → WorkloadResult F
  unfolding analyze_workload
  flatten out [] = out
  flatten out (w ∷ ws) = flatten (join out (analyze_workload w)) ws

abbrev pub or_declared : EvidenceTier → Option EvidenceTier → EvidenceTier
or_declared t none = t
or_declared t (some u) = u

unfoldable pub snapshot_caveat : List Text
snapshot_caveat =
    codes
      "snapshot (metrics-server): recommendations are based on a single live reading, not historical peaks. Treat them as directional and verify before applying. For high-confidence numbers, install the kubetidy operator (`kubectl tidy init`) or point at Prometheus with --prometheus-url."
    ∷ []

-- `Run`: its inputs, with the order in which the map of the tiers is read.
pub record ScanInputs : Type 0 where
  pub context : Text
  pub namespace : Text
  pub workloads : List Workload
  pub now : ℤ
  pub tier_order : List EvidenceTier

module _ {F : Type 0} ⦃fl : Float64 F⦄ where
  unfoldable pub run_tier : Engine F → ScanInputs → EvidenceTier
  unfolding flatten dominant_tier
  run_tier e i = or_declared e.declared_tier (
      dominant_tier i.tier_order
        (map (λ (r : Recommendation F). r.tier) (flatten e no_result i.workloads).recs))

  unfoldable pub run : Engine F → ScanInputs → ScanResult F
  unfolding run_tier snapshot_caveat
  run e i =
      let all = flatten e no_result i.workloads in
      let graded = compute all.recs in
      record {
        context = i.context;
        namespace = i.namespace;
        tier = run_tier e i;
        generated_at = i.now;
        workload_count = length i.workloads;
        recommendations = all.recs;
        efficiency_score = graded.0;
        score_breakdown = graded.1;
        total_monthly_waste = all.waste;
        warnings =
            if is_snapshot (run_tier e i) then snapshot_caveat ++ all.warnings else all.warnings;
      }
