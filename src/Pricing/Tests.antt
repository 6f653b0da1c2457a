-- ===== src/Pricing/Tests.antt =====
-- Prices over `Fixed`.
use kubetidy.Base.{if◌then◌else◌, ℕ, ◌≡◌, refl, none, some, [], ◌∷◌}
use kubetidy.Base.Fixed.{Fixed, fixed_float}
use kubetidy.Base.Float.{decimal, nought}
use kubetidy.Base.Int.{pos}
use kubetidy.Base.Maps.{lookup_text, put_text}
use kubetidy.Base.Text.{Text, codes, text_eq}
use kubetidy.Model.{Workload}
use kubetidy.Pricing.{
  instance_type_label, instance_type_label_beta, label_value, instance_type, default_config,
  config_price, opencost_candidates, first_service_port, probe_candidates, detect_opencost_endpoint,
  in_cluster_url, detect_opencost,
}
use kubetidy.Pricing.Opencost.{
  Allocation, has_two_underscores, is_synthetic, workload_key, unit_rate, opencost_rates, put_rates,
  add_allocation, add_bucket, add_buckets, build_from_sum, build_provider,
}
use kubetidy.Scan.{found}
use kubetidy.Wording.{concat_texts}

abbrev labelled : Text → Text → Workload
labelled label value = record {
  kind = codes "Deployment";
  name = codes "web";
  namespace = codes "shop";
  replicas = pos 1;
  containers = [];
  selector = [];
  node_labels = (label, value) ∷ [];
}

-- The deprecated label is read where the stable one is missing.
beta_label :
    config_price
      (default_config {F = Fixed})
      (labelled instance_type_label_beta (codes "e2-standard-2"))
    ≡ record {
      cpu_core_month = decimal 20 0;
      mem_gib_month = decimal 27 1;
      source = codes "node pricing";
    }
unfolding config_price instance_type label_value lookup_text text_eq instance_type_label
    instance_type_label_beta
beta_label = refl

-- The first port of the service replaces the candidate's.
probed :
    detect_opencost
      (λ n. codes "80")
      (λ ns name. if text_eq ns (codes "kubecost") then some (pos 80 ∷ []) else none)
    ≡ codes "http://kubecost-cost-analyzer.kubecost.svc:80"
unfolding detect_opencost detect_opencost_endpoint probe_candidates opencost_candidates
    first_service_port in_cluster_url concat_texts text_eq
probed = refl

abbrev allocation : Text → Text → ℕ → Allocation Fixed
allocation name controller cost = record {
  name = name;
  namespace = codes "shop";
  controller = controller;
  cpu_core_hours = decimal 2 0;
  cpu_cost = decimal cost 0;
  ram_byte_hours = nought;
  ram_cost = decimal cost 0;
}

-- The idle bucket is left out of the rates.
rates :
    build_provider (
      ((codes "web", allocation (codes "web") (codes "web") 1)
        ∷ (codes "__idle__", allocation (codes "__idle__") [] 50)
        ∷ [])
      ∷ [])
    ≡ found (record {
      by_workload =
          (
            codes "shop/web",
            record {
              cpu_core_month = decimal 365 0;
              mem_gib_month = nought;
              source = codes "OpenCost";
            },
          )
          ∷ [];
      blended = record {
        cpu_core_month = decimal 365 0;
        mem_gib_month = nought;
        source = codes "OpenCost";
      };
    })
unfolding build_provider build_from_sum add_buckets add_bucket add_allocation is_synthetic
    has_two_underscores opencost_rates unit_rate put_rates put_text workload_key text_eq
rates = refl
