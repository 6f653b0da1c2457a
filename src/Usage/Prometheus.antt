-- ===== src/Usage/Prometheus.antt =====
-- internal/usage/prometheus.go and detect.go: the queries to Prometheus, and how their answers become
-- usage. The parsers of numbers and durations, the quoting of regular expressions, and the answers
-- of Prometheus and of the cluster are parameters.
pub mod Queries
use kubetidy.Base.{
  ◌==◌, if◌then◌else◌, set, zero, suc, Bool, false, ◌||◌, Option, none, some, List, [], ◌∷◌, ◌++◌,
  map,
}
use kubetidy.Base.Float.{Float64, ◌⊗◌, less_eq, decimal, nought}
use kubetidy.Base.Int.{ℤ, pos, negsuc, quot, leb_ℤ}
use kubetidy.Base.Maps.{lookup_text, put_text}
use kubetidy.Base.Text.{Text, codes, is_empty}
use kubetidy.Model.{historical, Workload, Percentiles, UsageStats}
use kubetidy.Operator.Cycle.{zero_percentiles}
use kubetidy.Pricing.{Endpoint, endpoint, probe_candidates, in_cluster_url}
use kubetidy.Scan.{Answer, found, failed}
use kubetidy.Usage.Prometheus.Queries.{
  resolution, promql_escape, cpu_range, memory_range, cpu_max_query, cpu_avg_query,
  memory_max_query, memory_avg_query,
}
use kubetidy.Wording.{concat_texts}

-- The functions of the standard library: `TrimSpace`, `ParseFloat`, `ParseDuration`, "%q",
-- `FormatFloat` and `QuoteMeta`.
pub record Parsers (F : Type 0) : Type 0 where
  pub trim_space : Text → Text
  pub parse_float : Text → Answer F
  pub parse_duration : Text → Answer ℤ
  pub quoted : Text → Text
  pub format_float : F → Text
  pub quote_meta : Text → Text

-- One sample of a vector: its "container" label, empty where there is none, and its value.
pub record VectorSample (F : Type 0) : Type 0 where
  pub container : Text
  pub value : F

pub record Results (F : Type 0) : Type 0 where
  pub cpu_avg : List (VectorSample F)
  pub cpu_p50 : List (VectorSample F)
  pub cpu_p95 : List (VectorSample F)
  pub cpu_p99 : List (VectorSample F)
  pub cpu_max : List (VectorSample F)
  pub mem_avg : List (VectorSample F)
  pub mem_p50 : List (VectorSample F)
  pub mem_p95 : List (VectorSample F)
  pub mem_p99 : List (VectorSample F)
  pub mem_max : List (VectorSample F)

-- `HasSuffix(s, "d")`, and `TrimSuffix`
unfoldable pub ends_in_d : Text → Bool
ends_in_d [] = false
ends_in_d (c ∷ []) = c == 100
ends_in_d (c ∷ d ∷ s) = ends_in_d (d ∷ s)

unfoldable pub without_last : Text → Text
without_last [] = []
without_last (c ∷ []) = []
without_last (c ∷ d ∷ s) = c ∷ without_last (d ∷ s)

module _ {F : Type 0} ⦃fl : Float64 F⦄ (p : Parsers F) where
  -- `parseWindow`, once the text is trimmed and not empty.
  unfoldable pub parse_days : Text → Answer ℤ
  unfolding concat_texts without_last
  parse_days s = elim (p.parse_float (without_last s)) [
    | failed err ↦
        failed (concat_texts (codes "invalid day window " ∷ p.quoted s ∷ codes ": " ∷ err ∷ []))
    | found days ↦
        if less_eq days nought
        then failed (codes "window must be positive: " ++ p.quoted s)
        else found (fl.truncate (days ⊗ decimal 86_400_000_000_000 0))
  ]

  unfoldable pub parse_positive : Text → Answer ℤ
  parse_positive s = elim (p.parse_duration s) [
    | failed err ↦ failed err
    | found d ↦
        if leb_ℤ d (pos 0)
        then failed (codes "window must be positive: " ++ p.quoted s)
        else found d
  ]

  -- `parseWindow`
  unfoldable pub parse_window : Text → Answer ℤ
  unfolding parse_days parse_positive ends_in_d
  parse_window s =
      let t = p.trim_space s in
      if is_empty t
      then failed (codes "empty window")
      else if ends_in_d t
      then parse_days t
      else parse_positive t

  -- `podRegex`
  unfoldable pub pod_regex : Text → Text
  unfolding concat_texts
  pod_regex name = concat_texts (codes "^" ∷ p.quote_meta name ∷ codes "-.*" ∷ [])

  unfoldable pub quantile_call : F → Text
  unfolding concat_texts
  quantile_call q = concat_texts (codes "quantile_over_time(" ∷ p.format_float q ∷ codes ", " ∷ [])

  unfoldable pub cpu_query : F → Text → Text → Text → Text
  unfolding cpu_range quantile_call
  cpu_query q namespace pods window = cpu_range (quantile_call q) namespace pods window

  unfoldable pub memory_query : F → Text → Text → Text → Text
  unfolding memory_range quantile_call
  memory_query q namespace pods window = memory_range (quantile_call q) namespace pods window

  -- The zero value with a window and a tier.
  abbrev pub historical_usage : ℤ → UsageStats F
  historical_usage window = record {
    cpu_millicores = zero_percentiles;
    memory_bytes = zero_percentiles;
    window = window;
    samples = pos 0;
    tier = historical;
  }

  abbrev pub usage_or : ℤ → Option (UsageStats F) → UsageStats F
  usage_or window none = historical_usage window
  usage_or window (some st) = st

  abbrev pub finite : F → F
  finite v = if fl.is_nan v || fl.is_inf v then nought else v

  -- `apply`
  unfoldable pub apply_vector :
      ℤ
      → (UsageStats F → F → UsageStats F)
      → List (Text × UsageStats F)
      → List (VectorSample F)
      → List (Text × UsageStats F)
  unfolding lookup_text put_text
  apply_vector window set stats [] = stats
  apply_vector window set stats (s ∷ ss) =
      let name = s.container in
      apply_vector window set
        (if is_empty name
          then stats
          else put_text name (set (usage_or window (lookup_text name stats)) (finite s.value))
              stats)
        ss

  abbrev pub with_cpu : (Percentiles F → F → Percentiles F) → UsageStats F → F → UsageStats F
  with_cpu set st v = record st { cpu_millicores = set st.cpu_millicores v }

  abbrev pub with_memory : (Percentiles F → F → Percentiles F) → UsageStats F → F → UsageStats F
  with_memory set st v = record st { memory_bytes = set st.memory_bytes v }

  abbrev pub apply_five :
      ℤ
      → ((Percentiles F → F → Percentiles F) → UsageStats F → F → UsageStats F)
      → List (Text × UsageStats F)
      → List (VectorSample F)
      → List (VectorSample F)
      → List (VectorSample F)
      → List (VectorSample F)
      → List (VectorSample F)
      → List (Text × UsageStats F)
  unfolding apply_vector
  apply_five window part stats avg p50 p95 p99 peak =
      let a = apply_vector window (part (λ q v. record q { avg = v })) stats avg in
      let b = apply_vector window (part (λ q v. record q { p50 = v })) a p50 in
      let c = apply_vector window (part (λ q v. record q { p95 = v })) b p95 in
      let d = apply_vector window (part (λ q v. record q { p99 = v })) c p99 in
      apply_vector window (part (λ q v. record q { peak = v })) d peak

  -- The estimate of the scrapes in the window.
  unfoldable pub window_samples : ℤ → Answer ℤ → ℤ
  unfolding quot
  window_samples window (failed err) = pos 0
  window_samples window (found (pos (suc r))) = quot window (suc r)
  window_samples window (found (pos zero)) = pos 0
  window_samples window (found (negsuc r)) = pos 0

  -- `mergeResults`
  unfoldable pub merge_results : ℤ → Results F → List (Text × UsageStats F)
  unfolding apply_five window_samples parse_window resolution
  merge_results window r =
      let cpu = apply_five window with_cpu [] r.cpu_avg r.cpu_p50 r.cpu_p95 r.cpu_p99 r.cpu_max in
      let both =
        apply_five window with_memory cpu r.mem_avg r.mem_p50 r.mem_p95 r.mem_p99 r.mem_max in
      map
        (λ (e : Text × UsageStats F).
          (e.0, record e.1 { samples = window_samples window (parse_window resolution) }))
        both

  -- What the ten queries of a workload are, in the order in which they are run.
  unfoldable pub workload_queries : Text → Text → Text → List Text
  unfolding cpu_query cpu_max_query cpu_avg_query memory_query memory_max_query memory_avg_query
  workload_queries namespace pods window =
      cpu_query (decimal 5 1) namespace pods window
      ∷ cpu_query (decimal 95 2) namespace pods window
      ∷ cpu_query (decimal 99 2) namespace pods window
      ∷ cpu_max_query namespace pods window
      ∷ cpu_avg_query namespace pods window
      ∷ memory_query (decimal 5 1) namespace pods window
      ∷ memory_query (decimal 95 2) namespace pods window
      ∷ memory_query (decimal 99 2) namespace pods window
      ∷ memory_max_query namespace pods window
      ∷ memory_avg_query namespace pods window
      ∷ []

  -- `queryVector`: what is no vector has no samples.
  abbrev pub query_vector : Answer (Option (List (VectorSample F))) → Answer (List (VectorSample F))
  query_vector (failed err) = failed (codes "prometheus query failed: " ++ err)
  query_vector (found none) = found []
  query_vector (found (some vec)) = found vec

  -- The queries are run one after the other, up to the first error.
  unfoldable pub run_queries :
      (Text → Answer (Option (List (VectorSample F))))
      → List (List (VectorSample F))
      → List Text
      → Answer (List (List (VectorSample F)))
  run_queries ask vecs [] = found vecs
  run_queries ask vecs (q ∷ qs) = elim (query_vector (ask q)) [
    | failed err ↦ failed err
    | found vec ↦ run_queries ask (vecs ++ (vec ∷ [])) qs
  ]

  abbrev pub merge_vectors : ℤ → List (List (VectorSample F)) → List (Text × UsageStats F)
  unfolding merge_results
  merge_vectors window (c50 ∷ c95 ∷ c99 ∷ cmax ∷ cavg ∷ m50 ∷ m95 ∷ m99 ∷ mmax ∷ mavg ∷ rest) =
      merge_results window (record {
        cpu_avg = cavg;
        cpu_p50 = c50;
        cpu_p95 = c95;
        cpu_p99 = c99;
        cpu_max = cmax;
        mem_avg = mavg;
        mem_p50 = m50;
        mem_p95 = m95;
        mem_p99 = m99;
        mem_max = mmax;
      })
  merge_vectors window vecs = []

  -- `prometheusProvider.Usage`
  unfoldable pub prometheus_usage :
      (Text → Answer (Option (List (VectorSample F))))
      → Text
      → Workload
      → Answer (List (Text × UsageStats F))
  unfolding parse_window workload_queries run_queries merge_vectors promql_escape pod_regex
  prometheus_usage ask window w = elim (parse_window window) [
    | failed err ↦
        failed (concat_texts (codes "invalid window " ∷ p.quoted window ∷ codes ": " ∷ err ∷ []))
    | found d ↦
        elim (run_queries ask []
          (workload_queries w.namespace (promql_escape (pod_regex w.name)) window)) [
            | failed err ↦ failed err
            | found vecs ↦ found (merge_vectors d vecs)
          ]
  ]

unfoldable pub prometheus_candidates : List Endpoint
prometheus_candidates =
    endpoint "monitoring" "prometheus-kube-prometheus-prometheus" (pos 9090)
    ∷ endpoint "monitoring" "prometheus-operated" (pos 9090)
    ∷ endpoint "monitoring" "prometheus-server" (pos 80)
    ∷ endpoint "monitoring" "prometheus" (pos 9090)
    ∷ endpoint "prometheus" "prometheus-server" (pos 80)
    ∷ endpoint "prometheus" "prometheus-operated" (pos 9090)
    ∷ endpoint "kube-system" "prometheus" (pos 9090)
    ∷ endpoint "default" "prometheus-server" (pos 80)
    ∷ []

-- `DetectPrometheusEndpoint` and `DetectPrometheus`
unfoldable pub detect_prometheus_endpoint : (Text → Text → Option (List ℤ)) → Option Endpoint
unfolding probe_candidates prometheus_candidates
detect_prometheus_endpoint services = probe_candidates services prometheus_candidates

unfoldable pub detect_prometheus : (ℤ → Text) → (Text → Text → Option (List ℤ)) → Text
unfolding detect_prometheus_endpoint in_cluster_url
detect_prometheus digits services = elim (detect_prometheus_endpoint services) [
  | none ↦ []
  | some e ↦ in_cluster_url digits e
]
