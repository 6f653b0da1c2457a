-- ===== src/Operator/Cycle.antt =====
-- internal/operator/collector.go: `Tick`, `Rehydrate` and what a tick writes. The lister, the
-- sampler, the pricer and the writers are the fields of Cluster; the writers act on a store of any
-- kind, and give the text of an error or none.
use kubetidy.Base.{
  if◌then◌else◌, filter_map, Bool, ◌&&◌, ◌||◌, Option, none, some, List, [], ◌∷◌, ◌++◌,
}
use kubetidy.Base.Float.{Float64, decimal, nought}
use kubetidy.Base.Int.{ℤ, pos}
use kubetidy.Base.Text.{Text, codes}
use kubetidy.Cost.{monthly_savings}
use kubetidy.Histogram.{Histogram, percentile}
use kubetidy.Model.{
  static, operator, Container, Workload, workload_ref, Percentiles, UsageStats, Policy,
  ResourcePrice, Recommendation,
}
use kubetidy.Operator.{
  Sample, ContainerState, Collector, Codec, lookup_state, profile_name, key_in, observe_samples,
  build_profile, rehydrate_containers,
}
use kubetidy.Profile.{UsageProfile}
use kubetidy.Recommend.{RecommendationObject, BuiltObject, build}
use kubetidy.Rightsizer.{recommend, confidence_score}
use kubetidy.Scan.{Answer, found, failed, spec_of, no_price}
use kubetidy.Score.{compute}
use kubetidy.Summary.{SummaryStatus, build_summary}
use kubetidy.Wording.{Printer, build_reason}

pub record Cluster (F : Type 0) (S : Type 0) : Type 0 where
  pub list : Answer (List Workload)
  pub sample : Workload → Answer (List (Text × Sample F))
  pub price : Workload → Answer (ResourcePrice F)
  pub get : S → Text → Text → Answer (Option (UsageProfile F))
  pub save : S → UsageProfile F → S × Option Text
  pub save_recommendation : S → RecommendationObject F → S × Option Text
  pub save_summary : S → SummaryStatus F → S × Option Text
  -- which of the optional parts are set
  pub has_pricer : Bool
  pub has_recommendations : Bool
  pub has_summary : Bool
  pub policy : Policy F
  pub printer : Printer F
  -- what the clock shows when a workload is at hand, and the stamp of what a tick writes
  pub clock : Workload → ℤ
  pub stamp : Text

-- The collector and the store, with the first error so far.
pub record Cycle (F : Type 0) (S : Type 0) : Type 0 where
  pub collector : Collector F
  pub store : S
  pub first_err : Option Text

-- `if err != nil && firstErr == nil { firstErr = err }`
abbrev pub keep_first : Option Text → Option Text → Option Text
keep_first none err = err
keep_first (some e) err = some e

-- `fmt.Errorf("…%s: %w", …)` around an error, where there is one.
abbrev pub wrap : Text → Option Text → Option Text
wrap what none = none
wrap what (some err) = some (what ++ (codes ": " ++ err))

module _ {F : Type 0} ⦃fl : Float64 F⦄ where
  abbrev pub zero_percentiles : Percentiles F
  zero_percentiles = record {
    avg = nought;
    p50 = nought;
    p95 = nought;
    p99 = nought;
    peak = nought;
    cv = nought;
  }

  unfoldable pub percentiles_of : Histogram F → Percentiles F
  unfolding percentile
  percentiles_of h = record zero_percentiles {
    p50 = percentile h (decimal 50 2);
    p95 = percentile h (decimal 95 2);
    peak = h.max_seen;
  }

  -- The usage of a live state; the window stays at zero.
  unfoldable pub usage_of : ContainerState F → UsageStats F
  unfolding percentiles_of
  usage_of st = record {
    cpu_millicores = percentiles_of st.cpu;
    memory_bytes = percentiles_of st.mem;
    window = pos 0;
    samples = st.observed;
    tier = operator;
  }

  abbrev pub zero_usage : UsageStats F
  zero_usage = record {
    cpu_millicores = zero_percentiles;
    memory_bytes = zero_percentiles;
    window = pos 0;
    samples = pos 0;
    tier = static;
  }

module _ {F : Type 0} ⦃fl : Float64 F⦄ {S : Type 0} (codec : Codec F) (k : Cluster F S) where
  -- The end of `observeAndCheckpoint`, for samples that there are.
  unfoldable pub checkpoint :
      Collector F → S → Workload → List (Text × Sample F) → Collector F × S × Option Text
  unfolding observe_samples build_profile profile_name
  checkpoint c store w samples =
      let seen = observe_samples codec c w (k.clock w) samples in
      let (saved, err) = k.save store (build_profile codec seen w (k.clock w)) in
      (
        seen,
        saved,
        wrap
            (codes "operator: saving profile "
              ++ (w.namespace ++ (codes "/" ++ profile_name codec w)))
            err,
      )

  -- Without samples there is nothing to record.
  unfoldable pub checkpoint_any :
      Collector F → S → Workload → List (Text × Sample F) → Collector F × S × Option Text
  unfolding checkpoint
  checkpoint_any c store w [] = (c, store, none)
  checkpoint_any c store w (s ∷ ss) = checkpoint c store w (s ∷ ss)

  unfoldable pub observe_and_checkpoint : Collector F → S → Workload → Collector F × S × Option Text
  unfolding checkpoint_any
  observe_and_checkpoint c store w = elim (k.sample w) [
    | failed err ↦
        (c, store, some (codes "operator: sampling " ++ (workload_ref w ++ (codes ": " ++ err))))
    | found samples ↦ checkpoint_any c store w samples
  ]

  -- The loop of `Tick` over the workloads.
  unfoldable pub tick_loop : Cycle F S → List Workload → Cycle F S
  unfolding observe_and_checkpoint
  tick_loop cy [] = cy
  tick_loop cy (w ∷ ws) =
      let (c, store, err) = observe_and_checkpoint cy.collector cy.store w in
      tick_loop (record { collector = c; store = store; first_err = keep_first cy.first_err err })
        ws

  abbrev pub price_or_zero : Answer (ResourcePrice F) → ResourcePrice F
  price_or_zero (found price) = price
  price_or_zero (failed err) = no_price

  unfoldable pub live_recommendation : Workload → Container → ContainerState F → Recommendation F
  unfolding usage_of recommend monthly_savings confidence_score build_reason
  live_recommendation w c st =
      let proposed = recommend (spec_of c) (usage_of st) k.policy in
      record {
        workload = w;
        container_name = c.name;
        current = spec_of c;
        proposed = proposed;
        monthly_savings =
            monthly_savings (spec_of c) proposed (price_or_zero (k.price w)) w.replicas;
        confidence = record {
          score = confidence_score (usage_of st);
          reason = build_reason k.printer (usage_of st);
        };
        tier = operator;
        usage = zero_usage;
        evidence = [];
        explanation = [];
      }

  -- One round of the inner loop of `recommendations`: without a state the container is skipped.
  unfoldable pub recommendation_of :
      Workload → Container → Option (ContainerState F) → Option (Recommendation F)
  unfolding live_recommendation
  recommendation_of w c none = none
  recommendation_of w c (some st) = some (live_recommendation w c st)

  -- `recommendations`
  unfoldable pub live_recommendations : Collector F → List Workload → List (Recommendation F)
  unfolding recommendation_of lookup_state key_in
  live_recommendations c [] = []
  live_recommendations c (w ∷ ws) =
      filter_map
        (λ (box : Container).
          recommendation_of w box (lookup_state (key_in codec w box.name) c.state))
        w.containers
      ++ live_recommendations c ws

  -- `currentCostFn`
  unfoldable pub current_cost : Recommendation F → F
  unfolding monthly_savings
  current_cost r = elim (k.price r.workload) [
    | failed err ↦ nought
    | found price ↦
        monthly_savings r.current
          (record {
            requests = record { cpu_millicores = pos 0; memory_bytes = pos 0 };
            limits = record { cpu_millicores = pos 0; memory_bytes = pos 0 };
          })
          price r.workload.replicas
  ]

  -- The loop of `writeRecommendations`: every object is tried.
  unfoldable pub save_objects : S → Option Text → List (BuiltObject F) → S × Option Text
  save_objects store err [] = (store, err)
  save_objects store err (b ∷ bs) =
      let (saved, e) = k.save_recommendation store b.recommendation in
      save_objects saved
        (keep_first err (
          wrap (codes "operator: saving recommendation " ++ (b.namespace ++ (codes "/" ++ b.name)))
            e))
        bs

  unfoldable pub write_recommendations : S → List (Recommendation F) → S × Option Text
  unfolding save_objects build
  write_recommendations store recs =
      save_objects store none (build codec.to_lower (codes "rules") k.stamp recs)

  unfoldable pub write_summary : S → List (Recommendation F) → S × Option Text
  unfolding build_summary compute current_cost
  write_summary store recs =
      let (saved, err) =
        k.save_summary store
          (build_summary recs (compute recs).0 (some current_cost) (pos 0) k.stamp) in
      (saved, wrap (codes "operator: saving cluster summary") err)

  -- What a tick writes after the loop.
  unfoldable pub tick_writes : Cycle F S → List (Recommendation F) → Cycle F S
  unfolding write_recommendations write_summary
  tick_writes cy recs =
      let (store, err) =
        if k.has_recommendations then write_recommendations cy.store recs else (cy.store, none) in
      let (last, err') = if k.has_summary then write_summary store recs else (store, none) in
      record cy { store = last; first_err = keep_first (keep_first cy.first_err err) err' }

  unfoldable pub tick_over : Cycle F S → List Workload → Cycle F S
  unfolding tick_loop tick_writes live_recommendations
  tick_over cy ws =
      let seen = tick_loop cy ws in
      if k.has_pricer && (k.has_summary || k.has_recommendations)
      then tick_writes seen (live_recommendations seen.collector ws)
      else seen

  -- `Tick`, from a collector and a store.
  unfoldable pub tick : Collector F → S → Cycle F S
  unfolding tick_over
  tick c store = elim k.list [
    | failed err ↦ record {
      collector = c;
      store = store;
      first_err = some (codes "operator: listing workloads: " ++ err);
    }
    | found ws ↦ tick_over (record { collector = c; store = store; first_err = none }) ws
  ]

  -- One round of `Rehydrate`, for what the store has.
  unfoldable pub rehydrate_from :
      Collector F → Workload → Answer (Option (UsageProfile F)) → Collector F
  unfolding rehydrate_containers
  rehydrate_from c w (failed err) = c
  rehydrate_from c w (found none) = c
  rehydrate_from c w (found (some profile)) =
      rehydrate_containers codec c w (k.clock w) profile profile.status.containers

  unfoldable pub rehydrate : Collector F → S → List Workload → Collector F
  unfolding rehydrate_from profile_name
  rehydrate c store [] = c
  rehydrate c store (w ∷ ws) =
      rehydrate (rehydrate_from c w (k.get store w.namespace (profile_name codec w))) store ws
