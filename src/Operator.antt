-- ===== src/Operator.antt =====
-- internal/operator/collector.go and snapshot.go: the state of the operator's collector, and how it
-- becomes a profile and is restored from one. A `time.Time` is a number of nanoseconds, `none` where
-- it is the zero time. JSON, base64 and the formats of time are the fields of Codec.
pub mod Cycle
pub mod Validity
pub mod Isolation
pub mod Restart
pub mod Store
mod Tests
use kubetidy.Base.{if◌then◌else◌, Bool, ◌&&◌, Option, none, some, List, [], ◌∷◌, ◌++◌}
use kubetidy.Base.Float.{Float64, less, decimal, nought}
use kubetidy.Base.Int.{ℤ, pos, ltb_ℤ, add64, time_sub}
use kubetidy.Base.Text.{Text, text_eq}
use kubetidy.Histogram.{
  Config, Histogram, Snapshot, default_cpu_config, default_memory_config, new, seconds, observe,
  percentile, mean, to_snapshot, from_snapshot,
}
use kubetidy.Model.{Container, Workload}
use kubetidy.Profile.{MetricHistory, ContainerHistory, UsageProfile, object_name}

pub record Sample (F : Type 0) : Type 0 where
  pub cpu_millicores : F
  pub memory_bytes : F

pub record ContainerKey : Type 0 where
  pub profile : Text
  pub namespace : Text
  pub container : Text

pub record ContainerState (F : Type 0) : Type 0 where
  pub cpu : Histogram F
  pub mem : Histogram F
  pub observed : ℤ
  pub observed_slot : Option ℤ

-- The histogram layouts and the live states, an association list for the map.
pub record Collector (F : Type 0) : Type 0 where
  pub cpu_cfg : Config F
  pub mem_cfg : Config F
  pub state : List (ContainerKey × ContainerState F)

-- `json.Marshal` and `Unmarshal` of a snapshot, base64, RFC 3339 and `strings.ToLower`.
pub record Codec (F : Type 0) : Type 0 where
  pub marshal : Snapshot F → Option Text
  pub unmarshal : Text → Option (Snapshot F)
  pub encode_base64 : Text → Text
  pub decode_base64 : Text → Option Text
  pub format_time : ℤ → Text
  pub parse_time : Text → Option (Option ℤ)
  pub to_lower : Text → Text

unfoldable pub key_eq : ContainerKey → ContainerKey → Bool
unfolding text_eq
key_eq j k =
    text_eq j.profile k.profile
    && (text_eq j.namespace k.namespace && text_eq j.container k.container)

-- `c.state[key]`
unfoldable pub lookup_state {ℓ} : {A : Type ℓ} → ContainerKey → List (ContainerKey × A) → Option A
unfolding key_eq
lookup_state k [] = none
lookup_state k ((j, v) ∷ m) = if key_eq j k then some v else lookup_state k m

-- `c.state[key] = v`
unfoldable pub put_state {ℓ} :
    {A : Type ℓ} → ContainerKey → A → List (ContainerKey × A) → List (ContainerKey × A)
unfolding key_eq
put_state k v [] = (k, v) ∷ []
put_state k v ((j, u) ∷ m) =
    let rest = put_state k v m in if key_eq j k then (j, v) ∷ m else (j, u) ∷ rest

abbrev pub or_else {ℓ} : {A : Type ℓ} → A → Option A → A
or_else d none = d
or_else d (some a) = a

module _ {F : Type 0} (codec : Codec F) where
  -- `profileName`
  unfoldable pub profile_name : Workload → Text
  unfolding object_name
  profile_name w = object_name codec.to_lower w.kind w.name

  unfoldable pub key_in : Workload → Text → ContainerKey
  unfolding profile_name
  key_in w name = record { profile = profile_name w; namespace = w.namespace; container = name }

  unfoldable pub encode_snapshot : Snapshot F → Text
  encode_snapshot s = elim (codec.marshal s) [ none ↦ [] | some b ↦ codec.encode_base64 b ]

  unfoldable pub decode_snapshot : Text → Option (Snapshot F)
  decode_snapshot [] = none
  decode_snapshot (c ∷ s) = elim (codec.decode_base64 (c ∷ s)) [
    | none ↦ none
    | some raw ↦ codec.unmarshal raw
  ]

  -- `parseObservedSince`
  unfoldable pub parse_observed_since : Text → ℤ → Option ℤ
  parse_observed_since [] fallback = some fallback
  parse_observed_since (c ∷ s) fallback = or_else (some fallback) (codec.parse_time (c ∷ s))

module _ {F : Type 0} ⦃fl : Float64 F⦄ where
  -- `NewCollector`
  abbrev pub new_collector : Collector F
  new_collector = record {
    cpu_cfg = default_cpu_config;
    mem_cfg = default_memory_config;
    state = [];
  }

  abbrev pub with_histogram_config : Collector F → Config F → Config F → Collector F
  with_histogram_config c cpu mem = record c { cpu_cfg = cpu; mem_cfg = mem }

  unfoldable pub fresh_state : Collector F → ℤ → ContainerState F
  unfolding new
  fresh_state c now = record {
    cpu = new c.cpu_cfg;
    mem = new c.mem_cfg;
    observed = pos 0;
    observed_slot = some now;
  }

  -- `stateFor`: what the map has, or a fresh state.
  unfoldable pub state_for : Collector F → ContainerKey → ℤ → ContainerState F
  unfolding lookup_state fresh_state
  state_for c key now = or_else (fresh_state c now) (lookup_state key c.state)

  unfoldable pub observe_positive : Histogram F → F → ℤ → Histogram F
  unfolding observe
  observe_positive h value now = if less nought value then observe h value now else h

  -- The loop's body: one sample goes into both histograms and is counted.
  unfoldable pub add_sample : ContainerState F → Sample F → ℤ → ContainerState F
  unfolding observe_positive add64
  add_sample st s now = record st {
    cpu = observe_positive st.cpu s.cpu_millicores now;
    mem = observe_positive st.mem s.memory_bytes now;
    observed = add64 st.observed (pos 1);
  }

module _ {F : Type 0} ⦃fl : Float64 F⦄ (codec : Codec F) where
  -- The loop over the samples of one workload, in the order in which the map gives them.
  unfoldable pub observe_samples : Collector F → Workload → ℤ → List (Text × Sample F) → Collector F
  unfolding state_for add_sample put_state key_in
  observe_samples c w now [] = c
  observe_samples c w now ((name, s) ∷ rest) =
      let key = key_in codec w name in
      observe_samples
        (record c { state = put_state key (add_sample (state_for c key now) s now) c.state }) w now
        rest

  unfoldable pub metric_history : Histogram F → MetricHistory F
  unfolding encode_snapshot to_snapshot mean percentile
  metric_history h = record {
    avg = mean h;
    p50 = percentile h (decimal 50 2);
    p95 = percentile h (decimal 95 2);
    p99 = percentile h (decimal 99 2);
    max_seen = h.max_seen;
    histogram = encode_snapshot codec (to_snapshot h);
  }

  unfoldable pub histogram_from_metric : MetricHistory F → Config F → Histogram F
  unfolding decode_snapshot from_snapshot new
  histogram_from_metric m fallback = elim (decode_snapshot codec m.histogram) [
    | some snap ↦ from_snapshot snap fallback
    | none ↦ new fallback
  ]

  -- What `buildProfile` sums up over the containers: the samples, the earliest slot and the
  -- histories.
  pub record ProfileSum : Type 0 where
    pub samples : ℤ
    pub earliest : Option ℤ
    pub histories : List (ContainerHistory F)

  -- `earliest.IsZero() || slot.Before(earliest)`
  unfoldable pub earlier_of : Option ℤ → Option ℤ → Option ℤ
  earlier_of none slot = slot
  earlier_of (some t) none = none
  earlier_of (some t) (some u) = if ltb_ℤ u t then some u else some t

  unfoldable pub sum_container : ProfileSum → Text → Option (ContainerState F) → ProfileSum
  unfolding earlier_of metric_history add64
  sum_container sum name none = sum
  sum_container sum name (some st) = record {
    samples = add64 sum.samples st.observed;
    earliest = earlier_of sum.earliest st.observed_slot;
    histories =
        sum.histories
        ++ (record { name = name; cpu = metric_history st.cpu; memory = metric_history st.mem }
            ∷ []);
  }

  unfoldable pub sum_containers :
      List (ContainerKey × ContainerState F) → Workload → List Container → ProfileSum → ProfileSum
  unfolding sum_container lookup_state key_in
  sum_containers state w [] sum = sum
  sum_containers state w (c ∷ cs) sum =
      sum_containers state w cs
        (sum_container sum c.name (lookup_state (key_in codec w c.name) state))

  abbrev pub no_sum : ProfileSum
  no_sum = record { samples = pos 0; earliest = none; histories = [] }

  -- `ObservedSince`, where there is a first observation.
  abbrev pub since_text : Option ℤ → Text
  since_text none = []
  since_text (some t) = codec.format_time t

  abbrev pub window_since : ℤ → Option ℤ → F
  unfolding seconds time_sub
  window_since now none = nought
  window_since now (some t) = seconds (time_sub now t)

  unfoldable pub build_profile : Collector F → Workload → ℤ → UsageProfile F
  unfolding sum_containers profile_name
  build_profile c w now =
      let sum = sum_containers c.state w w.containers no_sum in
      record {
        name = profile_name codec w;
        namespace = w.namespace;
        spec = record { target_ref = record { kind = w.kind; name = w.name } };
        status = record {
          observed_since = since_text sum.earliest;
          last_updated = codec.format_time now;
          sample_count = sum.samples;
          window_seconds = window_since now sum.earliest;
          containers = sum.histories;
        };
      }

  -- The state that `Rehydrate` makes of one container's history.
  unfoldable pub restored_state :
      Collector F → ℤ → UsageProfile F → ContainerHistory F → ContainerState F
  unfolding histogram_from_metric parse_observed_since
  restored_state c now profile ch = record {
    cpu = histogram_from_metric ch.cpu c.cpu_cfg;
    mem = histogram_from_metric ch.memory c.mem_cfg;
    observed = profile.status.sample_count;
    observed_slot = parse_observed_since codec profile.status.observed_since now;
  }

  unfoldable pub rehydrate_containers :
      Collector F → Workload → ℤ → UsageProfile F → List (ContainerHistory F) → Collector F
  unfolding restored_state put_state key_in
  rehydrate_containers c w now profile [] = c
  rehydrate_containers c w now profile (ch ∷ rest) =
      rehydrate_containers
        (record c {
          state = put_state (key_in codec w ch.name) (restored_state c now profile ch) c.state;
        })
        w now profile rest
