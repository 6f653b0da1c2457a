-- ===== src/Pricing.antt =====
-- internal/pricing/config.go and detect.go: the prices that a configuration gives, and the search for
-- a price service. The services of the cluster and the printing of numbers are parameters.
pub mod Opencost
mod Tests
use Prim.Native.String.{String}
use kubetidy.Base.{if◌then◌else◌, Option, none, some, List, [], ◌∷◌}
use kubetidy.Base.Float.{Float64, decimal}
use kubetidy.Base.Int.{ℤ, pos, eqb_ℤ}
use kubetidy.Base.Maps.{lookup_text}
use kubetidy.Base.Text.{Text, codes, is_empty}
use kubetidy.Model.{Workload, ResourcePrice}
use kubetidy.Wording.{concat_texts}

pub record PriceConfig (F : Type 0) : Type 0 where
  pub cpu_core_month : F
  pub mem_gib_month : F

unfoldable pub instance_type_label : Text
instance_type_label = codes "node.kubernetes.io/instance-type"

unfoldable pub instance_type_label_beta : Text
instance_type_label_beta = codes "beta.kubernetes.io/instance-type"

-- `labels[key]`, the empty text where there is none.
unfoldable pub label_value : Text → List (Text × Text) → Text
unfolding lookup_text
label_value key labels = elim (lookup_text key labels) [ none ↦ [] | some v ↦ v ]

-- `instanceType`
unfoldable pub instance_type : List (Text × Text) → Text
unfolding label_value instance_type_label instance_type_label_beta
instance_type labels =
    let stable = label_value instance_type_label labels in
    if is_empty stable then label_value instance_type_label_beta labels else stable

module _ {F : Type 0} ⦃fl : Float64 F⦄ where
  -- `DefaultConfig`
  abbrev pub default_config : PriceConfig F
  default_config = record { cpu_core_month = decimal 24 0; mem_gib_month = decimal 32 1 }

  abbrev pub listed_price : F → F → ResourcePrice F
  listed_price cpu mem = record { cpu_core_month = cpu; mem_gib_month = mem; source = [] }

  abbrev pub instance_type_prices : List (Text × ResourcePrice F)
  instance_type_prices =
      (codes "m5.large", listed_price (decimal 25 0) (decimal 35 1))
      ∷ (codes "m6i.large", listed_price (decimal 25 0) (decimal 35 1))
      ∷ (codes "e2-standard-2", listed_price (decimal 20 0) (decimal 27 1))
      ∷ (codes "Standard_D2s_v3", listed_price (decimal 26 0) (decimal 36 1))
      ∷ []

  -- `configProvider.ResourcePrice`, which never fails.
  unfoldable pub config_price : PriceConfig F → Workload → ResourcePrice F
  unfolding instance_type lookup_text
  config_price cfg w =
      let it = instance_type w.node_labels in
      let blended : ResourcePrice F = record {
        cpu_core_month = cfg.cpu_core_month;
        mem_gib_month = cfg.mem_gib_month;
        source = codes "node pricing";
      } in
      elim (if is_empty it then none else lookup_text it instance_type_prices) [
        | none ↦ blended
        | some priced ↦ record priced { source = codes "node pricing" }
      ]

-- `ocCandidate`, and `OpenCostEndpoint`, which has the same fields.
pub record Endpoint : Type 0 where
  pub namespace : Text
  pub service : Text
  pub port : ℤ

abbrev pub endpoint : String → String → ℤ → Endpoint
endpoint ns service port = record { namespace = codes ns; service = codes service; port = port }

unfoldable pub opencost_candidates : List Endpoint
opencost_candidates =
    endpoint "opencost" "opencost" (pos 9003)
    ∷ endpoint "opencost" "opencost-opencost" (pos 9003)
    ∷ endpoint "monitoring" "opencost" (pos 9003)
    ∷ endpoint "kubecost" "kubecost-cost-analyzer" (pos 9090)
    ∷ endpoint "kubecost" "kubecost-cost-analyzer-abc" (pos 9090)
    ∷ []

-- `firstServicePort`, for the ports of a service.
unfoldable pub first_service_port : List ℤ → ℤ
first_service_port [] = pos 0
first_service_port (p ∷ ps) = p

-- The loop of `DetectOpenCostEndpoint`, for what the cluster answers to a namespace and a name: the
-- ports of the service, where there is one.
unfoldable pub probe_candidates : (Text → Text → Option (List ℤ)) → List Endpoint → Option Endpoint
unfolding first_service_port
probe_candidates services [] = none
probe_candidates services (c ∷ cs) = elim (services c.namespace c.service) [
  | none ↦ probe_candidates services cs
  | some ports ↦
      let p = first_service_port ports in
      some (if eqb_ℤ p (pos 0) then c else record c { port = p })
]

unfoldable pub detect_opencost_endpoint : (Text → Text → Option (List ℤ)) → Option Endpoint
unfolding probe_candidates opencost_candidates
detect_opencost_endpoint services = probe_candidates services opencost_candidates

-- `InClusterURL`, for the printing of a port.
unfoldable pub in_cluster_url : (ℤ → Text) → Endpoint → Text
unfolding concat_texts
in_cluster_url digits e =
    concat_texts
      (codes "http://" ∷ e.service ∷ codes "." ∷ e.namespace ∷ codes ".svc:" ∷ digits e.port ∷ [])

-- `DetectOpenCost`
unfoldable pub detect_opencost : (ℤ → Text) → (Text → Text → Option (List ℤ)) → Text
unfolding detect_opencost_endpoint in_cluster_url
detect_opencost digits services = elim (detect_opencost_endpoint services) [
  | none ↦ []
  | some e ↦ in_cluster_url digits e
]
