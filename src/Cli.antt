-- ===== src/Cli.antt =====
-- internal/cli/scan.go: which sources a scan takes, and the scan with them. The flags are ScanFlags,
-- and what the clients of the cluster and of Prometheus and OpenCost answer is Sources.
mod Tests
use kubetidy.Base.{if◌then◌else◌, Bool, true, false, Option, none, some, List, [], ◌∷◌, ◌++◌}
use kubetidy.Base.Float.{Float64}
use kubetidy.Base.Int.{ℤ}
use kubetidy.Base.Text.{Text, codes, is_empty}
use kubetidy.Kube.{AppsApi, discover}
use kubetidy.Manifest.{price_or}
use kubetidy.Model.{EvidenceTier, historical, Workload, ResourcePrice, ScanResult, default_policy}
use kubetidy.Operator.Store.{Client}
use kubetidy.Pricing.{PriceConfig, default_config, config_price, Endpoint, detect_opencost_endpoint}
use kubetidy.Pricing.Opencost.{OpencostApi, OpencostProvider, opencost_price, new_opencost_provider}
use kubetidy.Scan.{Answer, found, failed, Engine, ScanInputs, run}
use kubetidy.Usage.{
  ContainerReading, Provider, fallback_provider, metrics_provider, operator_provider,
}
use kubetidy.Usage.Prometheus.{
  Parsers, VectorSample, parse_window, prometheus_usage, detect_prometheus_endpoint,
}
use kubetidy.Wording.{Printer, concat_texts}

pub record ScanFlags (F : Type 0) : Type 0 where
  pub namespace : Text
  pub prometheus_url : Text
  pub opencost_url : Text
  pub window : Text
  pub cpu_core_month : F
  pub mem_gib_month : F

-- A client of Prometheus: the answer to each query.
abbrev pub Asker : Type 0 → Type 0
Asker F = Text → Answer (Option (List (VectorSample F)))

pub record Sources (F : Type 0) (S : Type 0) : Type 0 where
  pub parsers : Parsers F
  pub opencost : OpencostApi F
  -- the API client behind a proxy path of the API server
  pub opencost_proxy : Endpoint → OpencostApi F
  pub opencost_proxy_url : Endpoint → Text
  -- a client for a URL, and one behind the proxy
  pub prometheus_client : Text → Answer (Asker F)
  pub prometheus_proxy : Endpoint → Answer (Asker F)
  pub services : Text → Text → Option (List ℤ)
  pub pod_metrics : Workload → Answer (List (List ContainerReading))
  pub profiles : Client F S
  pub state : S
  -- whether a first profile is listed
  pub has_profiles : Bool
  pub apps : AppsApi
  pub context : Text
  pub digits : ℤ → Text
  pub to_lower : Text → Text

module _ {F : Type 0} ⦃fl : Float64 F⦄ {S : Type 0} (src : Sources F S) where
  abbrev pub prometheus_provider : Asker F → Text → Provider F
  unfolding prometheus_usage
  prometheus_provider ask window = record {
    name = codes "prometheus";
    tier = historical;
    usage = λ w. prometheus_usage src.parsers ask window w;
  }

  -- `NewPrometheusProvider`, and the one through the proxy, for the client that either builds.
  unfoldable pub new_prometheus_provider : Answer (Asker F) → Text → Answer (Provider F)
  unfolding parse_window prometheus_provider concat_texts
  new_prometheus_provider client window = elim (parse_window src.parsers window) [
    | failed err ↦
        failed (
          concat_texts
            (codes "invalid window " ∷ src.parsers.quoted window ∷ codes ": " ∷ err ∷ []))
    | found d ↦ elim client [
      | failed err ↦ failed err
      | found ask ↦ found (prometheus_provider ask window)
    ]
  ]

  abbrev pub snapshot_provider : Provider F
  unfolding metrics_provider
  snapshot_provider = metrics_provider src.pod_metrics

  -- `Reachable`, for the query "up".
  abbrev pub is_reachable : Answer (Asker F) → Bool
  is_reachable (failed err) = false
  is_reachable (found ask) = elim (ask (codes "up")) [ failed err ↦ false | found v ↦ true ]

  abbrev pub service_path : Endpoint → Text
  service_path ep = ep.namespace ++ (codes "/" ++ ep.service)

  abbrev pub via_proxy : Endpoint → Text
  unfolding concat_texts
  via_proxy ep =
      concat_texts
        (service_path ep ∷ codes ":" ∷ src.digits ep.port ∷ codes " via the API server proxy" ∷ [])

  -- `prometheusAutoProvider`: a provider with its source, or a note that may be empty.
  unfoldable pub prometheus_auto : Text → Text × Option (Provider F)
  unfolding detect_prometheus_endpoint new_prometheus_provider concat_texts
  prometheus_auto window = elim (detect_prometheus_endpoint src.services) [
    | none ↦ ([], none)
    | some ep ↦ elim (new_prometheus_provider (src.prometheus_proxy ep) window) [
      | failed err ↦ (
        concat_texts (
            codes "found Prometheus service "
            ∷ service_path ep
            ∷ codes " but could not build a client ("
            ∷ err
            ∷ codes "); falling back"
            ∷ []),
        none,
      )
      | found p ↦ if is_reachable (src.prometheus_proxy ep) then (via_proxy ep, some p) else (
        concat_texts (
            codes "found Prometheus service "
            ∷ service_path ep
            ∷ codes " but it did not answer queries; falling back to operator/metrics-server"
            ∷ []),
        none,
      )
    ]
  ]

  abbrev pub note_of : Text → List Text
  note_of note = if is_empty note then [] else note ∷ []

  -- Without Prometheus: the operator's profiles, or the snapshot.
  abbrev pub local_provider : Provider F
  unfolding snapshot_provider operator_provider
  local_provider =
      if src.has_profiles
      then fallback_provider (operator_provider src.profiles src.to_lower src.state)
          snapshot_provider
      else snapshot_provider

  -- What is detected, or the local sources.
  abbrev pub auto_or_local : Text × Option (Provider F) → Provider F × List Text
  unfolding local_provider concat_texts
  auto_or_local (note, some p) =
      (p, concat_texts (codes "auto-detected Prometheus (" ∷ note ∷ codes ") — Tier 1" ∷ []) ∷ [])
  auto_or_local (note, none) = (local_provider, note_of note)

  abbrev pub given_or_snapshot : Answer (Provider F) → Provider F × List Text
  unfolding snapshot_provider concat_texts
  given_or_snapshot (found p) = (p, [])
  given_or_snapshot (failed err) = (
    snapshot_provider,
    concat_texts (codes "Prometheus unavailable (" ∷ err ∷ codes "); using metrics-server" ∷ [])
        ∷ [],
  )

  -- `selectUsageProvider`, with the warnings that it adds.
  unfoldable pub select_usage_provider : ScanFlags F → Provider F × List Text
  unfolding new_prometheus_provider prometheus_auto auto_or_local given_or_snapshot
  select_usage_provider f =
      if is_empty f.prometheus_url
      then auto_or_local (prometheus_auto f.window)
      else given_or_snapshot
          (new_prometheus_provider (src.prometheus_client f.prometheus_url) f.window)

  -- `openCostAutoProvider`
  unfoldable pub opencost_auto : Text → Text × Option (OpencostProvider F)
  unfolding detect_opencost_endpoint new_opencost_provider concat_texts
  opencost_auto window = elim (detect_opencost_endpoint src.services) [
    | none ↦ ([], none)
    | some ep ↦
        elim (new_opencost_provider (src.opencost_proxy ep) (src.opencost_proxy_url ep) window) [
          | failed err ↦ (
            concat_texts (
                codes "found OpenCost service "
                ∷ service_path ep
                ∷ codes " but it did not answer ("
                ∷ err
                ∷ codes "); using derived node pricing"
                ∷ []),
            none,
          )
          | found p ↦ (via_proxy ep, some p)
        ]
  ]

  -- The configured prices with the flags that are set.
  abbrev pub flag_config : ScanFlags F → PriceConfig F
  flag_config f = record {
    cpu_core_month = price_or f.cpu_core_month (default_config {F = F}).cpu_core_month;
    mem_gib_month = price_or f.mem_gib_month (default_config {F = F}).mem_gib_month;
  }

  abbrev pub auto_or_config :
      ScanFlags F → Text × Option (OpencostProvider F) → (Workload → ResourcePrice F) × List Text
  unfolding opencost_price config_price concat_texts
  auto_or_config f (note, some p) = (
    opencost_price p,
    concat_texts (codes "auto-detected OpenCost (" ∷ note ∷ codes ") — Tier 2 cost" ∷ []) ∷ [],
  )
  auto_or_config f (note, none) = (config_price (flag_config f), note_of note)

  abbrev pub given_or_config :
      ScanFlags F → Answer (OpencostProvider F) → (Workload → ResourcePrice F) × List Text
  unfolding opencost_price config_price concat_texts
  given_or_config f (found p) = (
    opencost_price p,
    concat_texts (codes "using OpenCost at " ∷ f.opencost_url ∷ codes " for cost (Tier 2)" ∷ [])
        ∷ [],
  )
  given_or_config f (failed err) = (
    config_price (flag_config f),
    concat_texts (codes "OpenCost unavailable (" ∷ err ∷ codes "); using derived node pricing" ∷ [])
        ∷ [],
  )

  -- `selectPriceProvider`, with the warnings that it adds.
  unfoldable pub select_price_provider : ScanFlags F → (Workload → ResourcePrice F) × List Text
  unfolding new_opencost_provider opencost_auto auto_or_config given_or_config
  select_price_provider f =
      if is_empty f.opencost_url
      then auto_or_config f (opencost_auto f.window)
      else given_or_config f (new_opencost_provider src.opencost f.opencost_url f.window)

  -- The scan of the workloads that are found, at an instant, for the order in which the tiers are
  -- ranged over.
  abbrev pub scan_with :
      Printer F → ℤ → List EvidenceTier → ScanFlags F → List Workload → ScanResult F
  unfolding select_usage_provider select_price_provider run
  scan_with printer now order f ws =
      let (provider, notes) = select_usage_provider f in
      let (price, price_notes) = select_price_provider f in
      let engine : Engine F = record {
        usage = provider.usage;
        price = λ w. found (price w);
        policy = default_policy;
        declared_tier = provider.tier;
        printer = printer;
      } in
      let inputs : ScanInputs = record {
        context = src.context;
        namespace = f.namespace;
        workloads = ws;
        now = now;
        tier_order = order;
      } in
      let result = run engine inputs in
      record result { warnings = (notes ++ price_notes) ++ result.warnings }

  -- `runEngineWithClients`
  unfoldable pub run_engine_with_clients :
      Printer F → ℤ → List EvidenceTier → ScanFlags F → Answer (ScanResult F)
  unfolding discover scan_with
  run_engine_with_clients printer now order f = elim (discover src.apps f.namespace) [
    | failed err ↦ failed (codes "discovering workloads: " ++ err)
    | found ws ↦ found (scan_with printer now order f ws)
  ]
