-- ===== src/Operator/Tests.antt =====
-- An operator over `Fixed`, and the theorems at it.
use Prim.Native.String.{String}
use kubetidy.Base.{
  if◌then◌else◌, All, ℕ, ◌+◌, ◌*◌, ◌≡◌, refl, sym, ◌∙◌, false, none, some, List, [], ◌∷◌, arith,
}
use kubetidy.Base.Fixed.{Fixed, fixed_float}
use kubetidy.Base.FixedLaws.{Fixed-IsIeee}
use kubetidy.Base.Float.{decimal, nought}
use kubetidy.Base.Int.{ℤ, pos}
use kubetidy.Base.Text.{Text, codes, text_eq}
use kubetidy.Histogram.{
  Config, Histogram, Snapshot, hour, default_cpu_config, bounds_from, new, bucket_in, seconds,
  half_lives, add_at, observe_weighted, observe, to_snapshot, sum_from,
}
use kubetidy.Histogram.Checkpoint.{IsExact}
use kubetidy.Histogram.Layout.{IsValid, Built, Built-IsValid}
use kubetidy.Model.{Container, Workload, default_policy}
use kubetidy.Operator.{
  Sample, ContainerKey, ContainerState, Collector, Codec, new_collector, with_histogram_config,
  metric_history, histogram_from_metric,
}
use kubetidy.Operator.Cycle.{
  Cluster, Cycle, checkpoint, checkpoint_any, observe_and_checkpoint, tick_loop, tick_over, tick,
}
use kubetidy.Operator.Isolation.{IsError, tick_loop-isolates}
use kubetidy.Operator.Restart.{IsFaithful, histogram_from_metric-metric_history}
use kubetidy.Operator.Validity.{Life, Life-IsValid}
use kubetidy.Scan.{Answer, found, failed}

-- The instant of the samples.
abbrev day_end : ℤ
day_end = pos (24 * hour)

abbrev sample : ℕ → ℕ → Sample Fixed
sample c m = record { cpu_millicores = decimal c 0; memory_bytes = decimal m 0 }

abbrev layout : Config Fixed
layout = record {
  first_bucket_upper = decimal 10 0;
  ratio = decimal 2 0;
  num_buckets = pos 3;
  half_life = pos (24 * hour);
}

-- A codec that knows one snapshot.
abbrev one_snapshot : Snapshot Fixed → Codec Fixed
one_snapshot s = record {
  marshal = λ _. some (codes "j");
  unmarshal = λ _. some s;
  encode_base64 = λ t. t;
  decode_base64 = λ t. some t;
  format_time = λ _. codes "t";
  parse_time = λ _. none;
  to_lower = λ t. t;
}

abbrev box : Container
box = record {
  name = codes "app";
  requests = record { cpu_millicores = pos 2000; memory_bytes = pos 536_870_912 };
  limits = record { cpu_millicores = pos 0; memory_bytes = pos 536_870_912 };
}

abbrev workload : String → Workload
workload name = record {
  kind = codes "Deployment";
  name = codes name;
  namespace = codes "shop";
  replicas = pos 3;
  containers = box ∷ [];
  selector = [];
  node_labels = [];
}

-- The workload "web" alone can be sampled; the store counts the profiles that are saved.
abbrev sample_of : Workload → Answer (List (Text × Sample Fixed))
sample_of w =
    if text_eq w.name (codes "web")
    then found ((codes "app", sample 15 70) ∷ [])
    else failed (codes "no metrics")

abbrev cluster : Cluster Fixed ℕ
cluster = record {
  list = found (workload "db" ∷ workload "web" ∷ []);
  sample = sample_of;
  price = λ w. failed (codes "no price");
  get = λ s ns name. found none;
  save = λ s p. (s + 1, none);
  save_recommendation = λ s r. (s, none);
  save_summary = λ s r. (s, none);
  has_pricer = false;
  has_recommendations = false;
  has_summary = false;
  policy = default_policy;
  printer = record { whole_number = λ n. codes "n"; fixed_digits = λ k x. codes "x" };
  clock = λ w. day_end;
  stamp = codes "t";
}

abbrev begun : Collector Fixed
begun = with_histogram_config new_collector layout layout

abbrev codec : Codec Fixed
codec = one_snapshot (to_snapshot (new layout))

-- One state is kept, the failed workload is reported, and one profile is saved.
tick_counts : (tick codec cluster begun 0).store ≡ 1
unfolding tick tick_over tick_loop observe_and_checkpoint checkpoint_any checkpoint text_eq
tick_counts = refl

Life-IsValid_example :
    All
      (λ (e : ContainerKey × ContainerState Fixed). IsValid e.1.cpu × IsValid e.1.mem)
      (tick codec cluster begun 0).collector.state
Life-IsValid_example =
    Life-IsValid codec Fixed-IsIeee (Life.ticked cluster 0 (Life.started layout layout))

abbrev cycle : Cycle Fixed ℕ
cycle = record { collector = begun; store = 0; first_err = none }

tick_loop-isolates_example :
    let whole = tick_loop codec cluster cycle (workload "db" ∷ workload "web" ∷ []) in
    let rest = tick_loop codec cluster cycle (workload "web" ∷ []) in
    (whole.collector ≡ rest.collector)
    × (whole.store ≡ rest.store)
    × IsError codec cluster whole.first_err
unfolding text_eq
tick_loop-isolates_example =
    tick_loop-isolates codec cluster [] (workload "db") (workload "web" ∷ []) cycle
      (codes "no metrics") refl

abbrev observed : Histogram Fixed
observed = observe (new layout) (decimal 35 0) day_end

observed-IsFaithful : IsFaithful (one_snapshot (to_snapshot observed)) (to_snapshot observed)
observed-IsFaithful = record {
  bytes = codes "j";
  marshalled = refl;
  unmarshalled = refl;
  not_empty = λ e. absurd (ground (arith, e));
  decoded = refl;
}

observed_time : observed.ref_time ≡ some day_end
unfolding observe observe_weighted new bounds_from half_lives seconds add_at bucket_in
observed_time = refl

observed-IsExact : IsExact observed
unfolding observe observe_weighted new bounds_from half_lives seconds add_at bucket_in
observed-IsExact = refl

histogram_from_metric-metric_history_example :
    histogram_from_metric
      (one_snapshot (to_snapshot observed))
      (metric_history (one_snapshot (to_snapshot observed)) observed)
      default_cpu_config
    ≡ record observed { total = sum_from nought observed.weights }
unfolding observe observe_weighted
histogram_from_metric-metric_history_example =
    histogram_from_metric-metric_history (one_snapshot (to_snapshot observed)) observed
      default_cpu_config observed-IsFaithful
      (Built-IsValid Fixed-IsIeee
        (Built.observed (decimal 35 0) (decimal 1 0) day_end (Built.fresh layout)))
      observed-IsExact (λ e. absurd (ground (arith, sym observed_time ∙ e)))
