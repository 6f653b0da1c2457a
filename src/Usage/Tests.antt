-- ===== src/Usage/Tests.antt =====
-- Sources of usage over `Fixed`, and the theorem from the collector to the scan.
use Prim.Native.String.{String}
use mathlib.Core.List.{Memᴰ}
use kubetidy.Base.{if◌then◌else◌, ◌*◌, ◌≡◌, refl, Option, none, some, List, [], ◌∷◌}
use kubetidy.Base.Fixed.{Fixed, fixed_float}
use kubetidy.Base.Float.{decimal}
use kubetidy.Base.Int.{ℤ, pos}
use kubetidy.Base.Maps.{lookup_text, put_text}
use kubetidy.Base.Text.{codes, text_eq}
use kubetidy.Histogram.{Config, hour, new}
use kubetidy.Model.{operator, Container, Workload, UsageStats}
use kubetidy.Operator.{
  ContainerState, Collector, Codec, key_eq, lookup_state, key_in, build_profile,
}
use kubetidy.Operator.Cycle.{zero_percentiles}
use kubetidy.Operator.Store.{
  set_entry, copy_status, write_status, after_write, upsert, save_profile,
}
use kubetidy.Operator.Store.Slot.{slot, slot-IsServer}
use kubetidy.Profile.{lookup_key, to_unstructured}
use kubetidy.Scan.{found, failed}
use kubetidy.Usage.{
  ContainerReading, accumulate, accumulate_pod, accumulate_pods, snapshot_stats, averages,
  metrics_provider, total_pod, total_pods, sample_averages, sample_workload, operator_usage,
}
use kubetidy.Usage.Handover.{SamePercentiles, live_percentiles, operator_usage-save_profile}
use kubetidy.Usage.Prometheus.{
  Parsers, VectorSample, ends_in_d, without_last, parse_days, parse_window, historical_usage,
  apply_vector, with_cpu,
}
use kubetidy.Usage.Prometheus.Queries.{
  resolution, promql_escape, selection, cpu_range, cpu_max_query,
}
use kubetidy.Wording.{concat_texts}

abbrev box : String → Container
box name = record {
  name = codes name;
  requests = record { cpu_millicores = pos 2000; memory_bytes = pos 536_870_912 };
  limits = record { cpu_millicores = pos 0; memory_bytes = pos 536_870_912 };
}

abbrev workload : Workload
workload = record {
  kind = codes "d";
  name = codes "w";
  namespace = codes "s";
  replicas = pos 3;
  containers = box "a" ∷ box "b" ∷ [];
  selector = (codes "app", codes "w") ∷ [];
  node_labels = [];
}

abbrev codec : Codec Fixed
codec = record {
  marshal = λ _. some (codes "j");
  unmarshal = λ _. none;
  encode_base64 = λ t. t;
  decode_base64 = λ t. some t;
  format_time = λ _. codes "t";
  parse_time = λ _. none;
  to_lower = λ t. t;
}

abbrev layout : Config Fixed
layout = record {
  first_bucket_upper = decimal 10 0;
  ratio = decimal 2 0;
  num_buckets = pos 3;
  half_life = pos (24 * hour);
}

abbrev live : ContainerState Fixed
live = record { cpu = new layout; mem = new layout; observed = pos 4; observed_slot = some (pos 7) }

-- The second container has a live state.
abbrev collector : Collector Fixed
collector = record {
  cpu_cfg = layout;
  mem_cfg = layout;
  state = (key_in codec workload (codes "b"), live) ∷ [];
}

operator_usage-save_profile_example :
    (u : UsageStats Fixed) × (lookup_text (codes "b") (
        operator_usage slot
          (λ t. t)
          (save_profile slot none (build_profile codec collector workload (pos hour))).0
          workload)
      ≡ some u)
    × SamePercentiles (live_percentiles live.cpu) u.cpu_millicores
    × SamePercentiles (live_percentiles live.mem) u.memory_bytes
    × (u.samples ≡ (build_profile codec collector workload (pos hour)).status.sample_count)
    × (u.tier ≡ operator)
unfolding lookup_state key_in key_eq text_eq save_profile upsert after_write write_status
    copy_status set_entry to_unstructured lookup_key
operator_usage-save_profile_example =
    operator_usage-save_profile slot codec slot-IsServer collector workload (pos hour) none
      (save_profile slot none (build_profile codec collector workload (pos hour))).0 (box "b") live
      refl (Memᴰ.tail (Memᴰ.head refl)) refl

-- Two pods: the container of one of them reports no memory.
abbrev reading : Option ℤ → Option ℤ → ContainerReading
reading cpu mem = record { name = codes "a"; cpu = cpu; memory = mem }

abbrev pods : List (List ContainerReading)
pods = (reading (some (pos 10)) (some (pos 64)) ∷ []) ∷ (reading (some (pos 30)) none ∷ []) ∷ []

averaged :
    (metrics_provider {F = Fixed} (λ w. found pods)).usage workload
    ≡ found (
        (
          codes "a",
          snapshot_stats
              (record { cpu_millis = decimal 40 0; mem_bytes = decimal 64 0; pods = pos 2 }),
        )
        ∷ [])
unfolding metrics_provider averages accumulate_pods accumulate_pod accumulate lookup_text put_text
    text_eq
averaged = refl

sampled :
    sample_workload {F = Fixed} (λ w. found pods) workload
    ≡ found
        ((codes "a", record { cpu_millicores = decimal 20 0; memory_bytes = decimal 32 0 }) ∷ [])
unfolding sample_workload sample_averages total_pods total_pod lookup_text put_text text_eq
sampled = refl

abbrev parsers : Parsers Fixed
parsers = record {
  trim_space = λ s. s;
  parse_float = λ s. if text_eq s (codes "2.5") then found (decimal 25 1) else failed [];
  parse_duration = λ s. failed [];
  quoted = λ s. s;
  format_float = λ x. codes "0.5";
  quote_meta = λ s. s;
}

-- A query for the processor, with the backslash of the pattern doubled.
query :
    cpu_max_query (codes "n") (promql_escape (codes "^a\\.b-.*")) (codes "7d")
    ≡ codes
        "max_over_time(rate(container_cpu_usage_seconds_total{namespace=\"n\",pod=~\"^a\\\\.b-.*\",container!=\"\",container!=\"POD\"}[5m])[7d:5m]) * 1000"
unfolding cpu_max_query cpu_range selection resolution concat_texts promql_escape
query = refl

-- Two pods of one container: the last sample is what is left.
abbrev vector : List (VectorSample Fixed)
vector =
    record { container = codes "a"; value = decimal 9 0 }
    ∷ record { container = []; value = decimal 8 0 }
    ∷ record { container = codes "a"; value = decimal 3 0 }
    ∷ []

last_pod :
    apply_vector parsers (pos 7) (with_cpu parsers (λ q v. record q { p95 = v })) [] vector
    ≡ (
      codes "a",
      record (historical_usage parsers (pos 7)) {
        cpu_millicores = record (zero_percentiles {F = Fixed}) { p95 = decimal 3 0 };
      },
    )
      ∷ []
unfolding apply_vector lookup_text put_text text_eq
last_pod = refl

-- Two days and a half.
window : parse_window parsers (codes "2.5d") ≡ found (pos 216_000_000_000_000)
unfolding parse_window parse_days ends_in_d without_last text_eq
window = refl
