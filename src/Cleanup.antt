-- ===== src/Cleanup.antt =====
-- internal/cleanup/cleanup.go: what the sweep would remove. The objects of the cluster are records
-- of the fields that the detectors read; the library's label selectors and Go's printing of numbers
-- are the fields of `Kubernetes`.
pub mod Storage
pub mod Routing
pub mod Idle
mod Tests
use kubetidy.Base.{
  if◌then◌else◌, filter_map, ◌*◌, Bool, true, false, ◌&&◌, ◌||◌, Option, none, some, List, [], ◌∷◌,
  ◌++◌, map,
}
use kubetidy.Base.Float.{Float64, ◌⊕◌, ◌⊗◌, ◌⊘◌, less_eq, decimal, nought, of_int}
use kubetidy.Base.Int.{ℤ, pos, ltb_ℤ, eqb_ℤ}
use kubetidy.Base.Text.{Text, codes, text_eq, has_key}

pub data Category : Type 0 where
  orphaned_service unused_pvc idle_namespace zombie_workload : Category

pub record Finding (F : Type 0) : Type 0 where
  pub category : Category
  pub kind : Text
  pub namespace : Text
  pub name : Text
  pub reason : Text
  pub detail : Text
  pub monthly_cost : F

pub record Service : Type 0 where
  pub namespace : Text
  pub name : Text
  pub is_external : Bool
  pub selector : List (Text × Text)

-- A volume of a pod: `none` where it is no claim.
pub record Pod : Type 0 where
  pub namespace : Text
  pub labels : List (Text × Text)
  pub volumes : List (Option Text)

-- A claim, with the requested storage in bytes where there is one.
pub record Claim : Type 0 where
  pub namespace : Text
  pub name : Text
  pub storage : Option ℤ

pub record Namespace : Type 0 where
  pub name : Text
  pub is_terminating : Bool

-- A Deployment, StatefulSet or DaemonSet, whose replicas may be unset.
pub record Controller : Type 0 where
  pub namespace : Text
  pub name : Text
  pub replicas : Option ℤ

pub record Inputs (F : Type 0) : Type 0 where
  pub services : List Service
  pub pods : List Pod
  pub pvcs : List Claim
  pub namespaces : List Namespace
  pub deployments : List Controller
  pub stateful_sets : List Controller
  pub daemon_sets : List Controller
  pub storage_per_gib_month : F

-- `labels.SelectorFromSet(s).Matches`, its `String`, `math.Trunc` and the verbs of `fmt.Sprintf`.
pub record Kubernetes (F : Type 0) : Type 0 where
  pub matches : List (Text × Text) → List (Text × Text) → Bool
  pub selector_string : List (Text × Text) → Text
  pub trunc : F → F
  pub print_whole : ℤ → Text
  pub print_tenth : F → Text

-- `replicas`: unset is one.
unfoldable pub desired_replicas : Option ℤ → ℤ
desired_replicas none = pos 1
desired_replicas (some n) = n

unfoldable pub system_namespaces : List Text
system_namespaces =
    codes "kube-system"
    ∷ codes "kube-public"
    ∷ codes "kube-node-lease"
    ∷ codes "kubetidy-system"
    ∷ codes "default"
    ∷ []

-- "namespace/name", the key of a claim
abbrev pub claim_key : Text → Text → Text
claim_key namespace name = namespace ++ (codes "/" ++ name)

-- The keys that one pod's volumes set.
unfoldable pub volume_keys : Text → List (Option Text) → List Text
volume_keys namespace [] = []
volume_keys namespace (none ∷ vs) = volume_keys namespace vs
volume_keys namespace (some claim ∷ vs) = claim_key namespace claim ∷ volume_keys namespace vs

unfoldable pub used_claims : List Pod → List Text
unfolding volume_keys
used_claims [] = []
used_claims (p ∷ ps) = volume_keys p.namespace p.volumes ++ used_claims ps

-- One round of the loop over controllers: the namespace that it marks.
unfoldable pub wanted : Controller → Option Text
unfolding desired_replicas
wanted c = if ltb_ℤ (pos 0) (desired_replicas c.replicas) then some c.namespace else none

unfoldable pub running_in : List Controller → List Text
unfolding wanted
running_in cs = filter_map wanted cs

unfoldable pub live_namespaces : {F : Type 0} → Inputs F → List Text
unfolding running_in
live_namespaces i =
    running_in i.deployments
    ++ (running_in i.stateful_sets
        ++ (map (λ (c : Controller). c.namespace) i.daemon_sets
            ++ map (λ (p : Pod). p.namespace) i.pods))

module _ {F : Type 0} ⦃fl : Float64 F⦄ (k8s : Kubernetes F) where
  -- The inner loop over the pods, which stops at the first match.
  unfoldable pub any_pod_matches : Service → List Pod → Bool
  any_pod_matches svc [] = false
  any_pod_matches svc (p ∷ ps) =
      if text_eq p.namespace svc.namespace && k8s.matches svc.selector p.labels
      then true
      else any_pod_matches svc ps

  abbrev pub service_finding : Service → Finding F
  service_finding svc = record {
    category = orphaned_service;
    kind = codes "Service";
    namespace = svc.namespace;
    name = svc.name;
    reason = codes "no pods match its selector";
    detail = k8s.selector_string svc.selector;
    monthly_cost = nought;
  }

  abbrev pub no_selector : List (Text × Text) → Bool
  no_selector [] = true
  no_selector (l ∷ ls) = false

  unfoldable pub orphan : List Pod → Service → Option (Finding F)
  unfolding any_pod_matches
  orphan pods svc =
      if svc.is_external || no_selector svc.selector
      then none
      else if any_pod_matches svc pods
      then none
      else some (service_finding svc)

  unfoldable pub orphaned_services : Inputs F → List (Finding F)
  unfolding orphan
  orphaned_services i = filter_map (orphan i.pods) i.services

  -- `pvcGiB`
  unfoldable pub pvc_gib : Claim → F
  pvc_gib pvc = elim pvc.storage [
    | none ↦ nought
    | some bytes ↦ of_int bytes ⊘ decimal (1024 * 1024 * 1024) 0
  ]

  unfoldable pub format_gib : F → Text
  format_gib gib =
      if less_eq gib nought
      then codes "size unknown"
      else if less_eq gib (k8s.trunc gib) && less_eq (k8s.trunc gib) gib
      then k8s.print_whole (fl.truncate gib) ++ codes "Gi"
      else k8s.print_tenth gib ++ codes "Gi"

  unfoldable pub claim_finding : F → Claim → Finding F
  unfolding pvc_gib format_gib
  claim_finding rate pvc = record {
    category = unused_pvc;
    kind = codes "PersistentVolumeClaim";
    namespace = pvc.namespace;
    name = pvc.name;
    reason = codes "not mounted by any pod";
    detail = format_gib (pvc_gib pvc);
    monthly_cost = pvc_gib pvc ⊗ rate;
  }

  unfoldable pub unused : List Text → F → Claim → Option (Finding F)
  unfolding has_key claim_finding
  unused used rate pvc =
      if has_key (claim_key pvc.namespace pvc.name) used
      then none
      else some (claim_finding rate pvc)

  unfoldable pub unused_pvcs : Inputs F → List (Finding F)
  unfolding unused used_claims
  unused_pvcs i = filter_map (unused (used_claims i.pods) i.storage_per_gib_month) i.pvcs

module _ {F : Type 0} ⦃fl : Float64 F⦄ where
  abbrev pub namespace_finding : Namespace → Finding F
  namespace_finding ns = record {
    category = idle_namespace;
    kind = codes "Namespace";
    namespace = [];
    name = ns.name;
    reason = codes "no running workloads";
    detail = [];
    monthly_cost = nought;
  }

  unfoldable pub idle : List Text → Namespace → Option (Finding F)
  unfolding has_key system_namespaces
  idle live ns =
      if has_key ns.name system_namespaces || ns.is_terminating
      then none
      else if has_key ns.name live
      then none
      else some (namespace_finding ns)

  unfoldable pub idle_namespaces : Inputs F → List (Finding F)
  unfolding idle live_namespaces
  idle_namespaces i = filter_map (idle (live_namespaces i)) i.namespaces

  abbrev pub zombie_finding : Text → Controller → Finding F
  zombie_finding kind c = record {
    category = zombie_workload;
    kind = kind;
    namespace = c.namespace;
    name = c.name;
    reason = codes "scaled to 0 replicas";
    detail = [];
    monthly_cost = nought;
  }

  unfoldable pub zombie : Text → Controller → Option (Finding F)
  unfolding desired_replicas
  zombie kind c =
      if eqb_ℤ (desired_replicas c.replicas) (pos 0) then some (zombie_finding kind c) else none

  unfoldable pub zombie_workloads : Inputs F → List (Finding F)
  unfolding zombie
  zombie_workloads i =
      filter_map (zombie (codes "Deployment")) i.deployments
      ++ filter_map (zombie (codes "StatefulSet")) i.stateful_sets

  unfoldable pub detect : Kubernetes F → Inputs F → List (Finding F)
  unfolding orphaned_services unused_pvcs idle_namespaces zombie_workloads
  detect k8s i =
      orphaned_services k8s i ++ (unused_pvcs k8s i ++ (idle_namespaces i ++ zombie_workloads i))

  -- `TotalMonthlyCost`
  unfoldable pub total_monthly_cost : F → List (Finding F) → F
  total_monthly_cost sum [] = sum
  total_monthly_cost sum (f ∷ fs) = total_monthly_cost (sum ⊕ f.monthly_cost) fs
