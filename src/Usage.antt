-- ===== src/Usage.antt =====
-- internal/usage and internal/operator/sampler.go: the usage of a workload from the metrics server,
-- from the operator's profiles, and from one source with a fallback. The calls of the Kubernetes
-- clients are functions of the workload. The association list of a result is a Go map.
pub mod Handover
pub mod Prometheus
mod Tests
use kubetidy.Base.{if◌then◌else◌, Bool, true, false, ◌&&◌, Option, none, some, List, [], ◌∷◌}
use kubetidy.Base.Float.{Float64, ◌⊕◌, ◌⊗◌, ◌⊘◌, less_eq, decimal, nought, of_int}
use kubetidy.Base.Int.{ℤ, pos, eqb_ℤ, add64}
use kubetidy.Base.Maps.{lookup_text, put_text}
use kubetidy.Base.Text.{Text, codes}
use kubetidy.Model.{EvidenceTier, snapshot, operator, Workload, Percentiles, UsageStats}
use kubetidy.Operator.{Sample}
use kubetidy.Operator.Store.{present, not_found, refused, Client}
use kubetidy.Profile.{MetricHistory, ContainerHistory, UsageProfile, object_name, from_unstructured}
use kubetidy.Scan.{Answer, found, failed}

-- One container of one pod: its name, its millicores and its bytes, where they are reported.
pub record ContainerReading : Type 0 where
  pub name : Text
  pub cpu : Option ℤ
  pub memory : Option ℤ

-- `containerAccumulator`
pub record Accumulator (F : Type 0) : Type 0 where
  pub cpu_millis : F
  pub mem_bytes : F
  pub pods : ℤ

-- The accumulator of the sampler, which counts in floats.
pub record SampleTotal (F : Type 0) : Type 0 where
  pub cpu : F
  pub mem : F
  pub pods : F

-- `usage.Provider`
pub record Provider (F : Type 0) : Type 0 where
  pub name : Text
  pub tier : EvidenceTier
  pub usage : Workload → Answer (List (Text × UsageStats F))

abbrev pub has_stats : {F : Type 0} → Answer (List (Text × UsageStats F)) → Bool
has_stats (failed err) = false
has_stats (found []) = false
has_stats (found (s ∷ ss)) = true

-- `NewFallbackProvider`
abbrev pub fallback_provider : {F : Type 0} → Provider F → Provider F → Provider F
fallback_provider primary secondary = record {
  name = primary.name;
  tier = primary.tier;
  usage = λ w. if has_stats (primary.usage w) then primary.usage w else secondary.usage w;
}

module _ {F : Type 0} ⦃fl : Float64 F⦄ where
  -- `a.cpuMillis += float64(cpu.MilliValue())`, where there is a value.
  abbrev pub add_amount : F → Option ℤ → F
  add_amount sum none = sum
  add_amount sum (some n) = sum ⊕ of_int n

  abbrev pub accumulator_or : Option (Accumulator F) → Accumulator F
  accumulator_or none = record { cpu_millis = nought; mem_bytes = nought; pods = pos 0 }
  accumulator_or (some a) = a

  unfoldable pub accumulate : Accumulator F → ContainerReading → Accumulator F
  unfolding add64
  accumulate a c = record {
    cpu_millis = add_amount a.cpu_millis c.cpu;
    mem_bytes = add_amount a.mem_bytes c.memory;
    pods = add64 a.pods (pos 1);
  }

  -- The loops of the metrics server's `Usage` over the pods and their containers.
  unfoldable pub accumulate_pod :
      List (Text × Accumulator F) → List ContainerReading → List (Text × Accumulator F)
  unfolding accumulate lookup_text put_text
  accumulate_pod acc [] = acc
  accumulate_pod acc (c ∷ cs) =
      accumulate_pod (put_text c.name (accumulate (accumulator_or (lookup_text c.name acc)) c) acc)
        cs

  unfoldable pub accumulate_pods :
      List (Text × Accumulator F) → List (List ContainerReading) → List (Text × Accumulator F)
  unfolding accumulate_pod
  accumulate_pods acc [] = acc
  accumulate_pods acc (p ∷ ps) = accumulate_pods (accumulate_pod acc p) ps

  -- A single reading: every statistic is the same.
  abbrev pub one_reading : F → Percentiles F
  one_reading v = record { avg = v; p50 = v; p95 = v; p99 = v; peak = v; cv = nought }

  abbrev pub snapshot_stats : Accumulator F → UsageStats F
  snapshot_stats a = record {
    cpu_millicores = one_reading (a.cpu_millis ⊘ of_int a.pods);
    memory_bytes = one_reading (a.mem_bytes ⊘ of_int a.pods);
    window = pos 0;
    samples = a.pods;
    tier = snapshot;
  }

  unfoldable pub averages : List (Text × Accumulator F) → List (Text × UsageStats F)
  averages [] = []
  averages ((name, a) ∷ acc) =
      let rest = averages acc in
      if eqb_ℤ a.pods (pos 0) then rest else (name, snapshot_stats a) ∷ rest

  abbrev pub metrics_stats :
      Answer (List (List ContainerReading)) → Answer (List (Text × UsageStats F))
  unfolding averages accumulate_pods
  metrics_stats (failed err) = failed err
  metrics_stats (found pods) = found (averages (accumulate_pods [] pods))

  -- `NewMetricsServerProvider`, for the metrics of the pods that match a workload's selector.
  unfoldable pub metrics_provider : (Workload → Answer (List (List ContainerReading))) → Provider F
  unfolding metrics_stats
  metrics_provider pod_metrics = record {
    name = codes "metrics-server";
    tier = snapshot;
    usage = λ w. metrics_stats (pod_metrics w);
  }

  -- The sampler of the operator.
  abbrev pub total_or : Option (SampleTotal F) → SampleTotal F
  total_or none = record { cpu = nought; mem = nought; pods = nought }
  total_or (some a) = a

  abbrev pub add_total : SampleTotal F → ContainerReading → SampleTotal F
  add_total a c = record {
    cpu = add_amount a.cpu c.cpu;
    mem = add_amount a.mem c.memory;
    pods = a.pods ⊕ decimal 1 0;
  }

  unfoldable pub total_pod :
      List (Text × SampleTotal F) → List ContainerReading → List (Text × SampleTotal F)
  unfolding lookup_text put_text
  total_pod acc [] = acc
  total_pod acc (c ∷ cs) =
      total_pod (put_text c.name (add_total (total_or (lookup_text c.name acc)) c) acc) cs

  unfoldable pub total_pods :
      List (Text × SampleTotal F) → List (List ContainerReading) → List (Text × SampleTotal F)
  unfolding total_pod
  total_pods acc [] = acc
  total_pods acc (p ∷ ps) = total_pods (total_pod acc p) ps

  unfoldable pub sample_averages : List (Text × SampleTotal F) → List (Text × Sample F)
  sample_averages [] = []
  sample_averages ((name, a) ∷ acc) =
      let rest = sample_averages acc in
      if less_eq a.pods nought && less_eq nought a.pods
      then rest
      else (name, record { cpu_millicores = a.cpu ⊘ a.pods; memory_bytes = a.mem ⊘ a.pods }) ∷ rest

  -- `metricsSampler.Sample`
  unfoldable pub sample_workload :
      (Workload → Answer (List (List ContainerReading)))
      → Workload
      → Answer (List (Text × Sample F))
  unfolding sample_averages total_pods
  sample_workload pod_metrics w = elim w.selector [
    | [] ↦ found []
    | ◌∷◌ l ls ↦ elim (pod_metrics w) [
      | failed err ↦ failed err
      | found pods ↦ found (sample_averages (total_pods [] pods))
    ]
  ]

  -- One container of a profile, as the operator's provider reads it.
  unfoldable pub recorded_percentiles : MetricHistory F → Percentiles F
  recorded_percentiles m = record {
    avg = m.avg;
    p50 = m.p50;
    p95 = m.p95;
    p99 = m.p99;
    peak = m.max_seen;
    cv = nought;
  }

  unfoldable pub recorded_stats : UsageProfile F → ContainerHistory F → UsageStats F
  unfolding recorded_percentiles
  recorded_stats profile c = record {
    cpu_millicores = recorded_percentiles c.cpu;
    memory_bytes = recorded_percentiles c.memory;
    window = fl.truncate (profile.status.window_seconds ⊗ decimal 1_000_000_000 0);
    samples = profile.status.sample_count;
    tier = operator;
  }

  -- The loop of the operator's `Usage`.
  unfoldable pub collect_stats :
      UsageProfile F
      → List (Text × UsageStats F)
      → List (ContainerHistory F)
      → List (Text × UsageStats F)
  unfolding put_text recorded_stats
  collect_stats profile out [] = out
  collect_stats profile out (c ∷ cs) =
      collect_stats profile (put_text c.name (recorded_stats profile c) out) cs

  module _ {S : Type 0} (client : Client F S) (to_lower : Text → Text) where
    -- Any error of the read, a missing profile too, is no data.
    unfoldable pub operator_usage : S → Workload → List (Text × UsageStats F)
    unfolding collect_stats object_name from_unstructured
    operator_usage s w = elim (client.get s w.namespace (object_name to_lower w.kind w.name)) [
      | not_found ↦ []
      | refused err ↦ []
      | present o ↦
          let profile = from_unstructured o.content in
          collect_stats profile [] profile.status.containers
    ]

    -- `NewOperatorProvider`
    unfoldable pub operator_provider : S → Provider F
    unfolding operator_usage
    operator_provider s = record {
      name = codes "kubetidy operator";
      tier = operator;
      usage = λ w. found (operator_usage s w);
    }
