-- ===== src/Cli/Tests.antt =====
-- The sources of a scan over `Fixed`.
use kubetidy.Base.{if◌then◌else◌, ◌≡◌, refl, false, none, some, [], ◌∷◌}
use kubetidy.Base.Fixed.{Fixed, fixed_float}
use kubetidy.Base.Float.{decimal, nought}
use kubetidy.Base.Text.{codes, text_eq}
use kubetidy.Cli.{
  ScanFlags, Sources, new_prometheus_provider, prometheus_auto, auto_or_local,
  select_usage_provider, given_or_config, select_price_provider,
}
use kubetidy.Operator.Store.Slot.{Slot, slot}
use kubetidy.Pricing.{first_service_port, probe_candidates}
use kubetidy.Pricing.Opencost.{OpencostApi, query_allocations, new_opencost_provider}
use kubetidy.Scan.{found, failed}
use kubetidy.Usage.Prometheus.{
  Parsers, ends_in_d, without_last, parse_days, parse_window, prometheus_candidates,
  detect_prometheus_endpoint,
}
use kubetidy.Wording.{concat_texts}

abbrev parsers : Parsers Fixed
parsers = record {
  trim_space = λ s. s;
  parse_float = λ s. found (decimal 7 0);
  parse_duration = λ s. failed [];
  quoted = λ s. s;
  format_float = λ x. codes "0.5";
  quote_meta = λ s. s;
}

abbrev silent : OpencostApi Fixed
silent = record {
  trim_space = λ s. s;
  allocation_url = λ url window. found url;
  request_error = λ url. none;
  send = λ url. failed (codes "refused");
  error_body = λ s. s;
  decode = λ s. found [];
}

-- A cluster with a Prometheus that answers nothing, and with no profiles.
abbrev sources : Sources Fixed Slot
sources = record {
  parsers = parsers;
  opencost = silent;
  opencost_proxy = λ ep. silent;
  opencost_proxy_url = λ ep. [];
  prometheus_client = λ url. failed (codes "bad URL");
  prometheus_proxy = λ ep. found (λ q. failed (codes "timeout"));
  services = λ ns name. if text_eq name (codes "prometheus") then some [] else none;
  pod_metrics = λ w. found [];
  profiles = slot;
  state = none;
  has_profiles = false;
  apps = record {
    deployments = λ ns. found [];
    stateful_sets = λ ns. found [];
    daemon_sets = λ ns. failed (codes "forbidden");
  };
  context = codes "prod";
  digits = λ n. codes "9090";
  to_lower = λ s. s;
}

abbrev flags : ScanFlags Fixed
flags = record {
  namespace = [];
  prometheus_url = [];
  opencost_url = codes "u";
  window = codes "7d";
  cpu_core_month = decimal 30 0;
  mem_gib_month = nought;
}

-- The unanswering Prometheus is named, and the snapshot is taken.
fallback_note :
    (select_usage_provider sources flags).1
    ≡ codes
        "found Prometheus service monitoring/prometheus but it did not answer queries; falling back to operator/metrics-server"
      ∷ []
unfolding select_usage_provider auto_or_local prometheus_auto detect_prometheus_endpoint
    probe_candidates prometheus_candidates first_service_port new_prometheus_provider parse_window
    parse_days ends_in_d without_last concat_texts text_eq
fallback_note = refl

-- The flag replaces one of the default prices.
configured :
    (select_price_provider sources flags).1
    ≡ codes
        "OpenCost unavailable (opencost: querying allocation API: refused); using derived node pricing"
      ∷ []
unfolding select_price_provider given_or_config new_opencost_provider query_allocations concat_texts
configured = refl
