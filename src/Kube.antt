-- ===== src/Kube.antt =====
-- internal/kube/kube.go: the workloads of a cluster. The three lists of the API server are the fields
-- of AppsApi; a quantity is its whole value, in millicores or in bytes.
use kubetidy.Base.{if◌then◌else◌, Option, none, some, List, [], ◌∷◌, ◌++◌, map}
use kubetidy.Base.Int.{ℤ, pos, eqb_ℤ}
use kubetidy.Base.Text.{Text, codes}
use kubetidy.Model.{
  kind_deployment, kind_stateful_set, kind_daemon_set, ResourceAmounts, Container, Workload,
}
use kubetidy.Scan.{Answer, found, failed}

-- The quantities of a resource list that are there.
pub record ResourceList : Type 0 where
  pub cpu : Option ℤ
  pub memory : Option ℤ

pub record PodContainer : Type 0 where
  pub name : Text
  pub requests : ResourceList
  pub limits : ResourceList

-- A deployment or a stateful set, with what `Discover` reads of it.
pub record ReplicatedSet : Type 0 where
  pub name : Text
  pub namespace : Text
  pub replicas : Option ℤ
  pub selector : Option (List (Text × Text))
  pub containers : List PodContainer

pub record DaemonSet : Type 0 where
  pub name : Text
  pub namespace : Text
  pub desired_number_scheduled : ℤ
  pub selector : Option (List (Text × Text))
  pub containers : List PodContainer

-- The lists of one namespace, or of all for the empty name.
pub record AppsApi : Type 0 where
  pub deployments : Text → Answer (List ReplicatedSet)
  pub stateful_sets : Text → Answer (List ReplicatedSet)
  pub daemon_sets : Text → Answer (List DaemonSet)

abbrev pub amount_or_zero : Option ℤ → ℤ
amount_or_zero none = pos 0
amount_or_zero (some n) = n

-- `amountsFrom`
unfoldable pub amounts_of : ResourceList → ResourceAmounts
amounts_of list = record {
  cpu_millicores = amount_or_zero list.cpu;
  memory_bytes = amount_or_zero list.memory;
}

-- `containersFrom`
unfoldable pub containers_from : List PodContainer → List Container
unfolding amounts_of
containers_from [] = []
containers_from (c ∷ cs) =
    record { name = c.name; requests = amounts_of c.requests; limits = amounts_of c.limits }
    ∷ containers_from cs

-- `selectorFrom`
unfoldable pub selector_from : Option (List (Text × Text)) → List (Text × Text)
selector_from none = []
selector_from (some labels) = labels

abbrev pub replicas_or_one : Option ℤ → ℤ
replicas_or_one none = pos 1
replicas_or_one (some n) = n

unfoldable pub replicated_workload : Text → ReplicatedSet → Workload
unfolding selector_from containers_from
replicated_workload kind d = record {
  kind = kind;
  name = d.name;
  namespace = d.namespace;
  replicas = replicas_or_one d.replicas;
  containers = containers_from d.containers;
  selector = selector_from d.selector;
  node_labels = [];
}

unfoldable pub daemon_workload : DaemonSet → Workload
unfolding selector_from containers_from
daemon_workload ds = record {
  kind = kind_daemon_set;
  name = ds.name;
  namespace = ds.namespace;
  replicas =
      if eqb_ℤ ds.desired_number_scheduled (pos 0) then pos 1 else ds.desired_number_scheduled;
  containers = containers_from ds.containers;
  selector = selector_from ds.selector;
  node_labels = [];
}

-- `Discover`, up to the first list that fails.
unfoldable pub discover : AppsApi → Text → Answer (List Workload)
unfolding replicated_workload daemon_workload
discover api ns = elim (api.deployments ns) [
  | failed err ↦ failed (codes "kube: listing deployments: " ++ err)
  | found ds ↦ elim (api.stateful_sets ns) [
    | failed err ↦ failed (codes "kube: listing statefulsets: " ++ err)
    | found ss ↦ elim (api.daemon_sets ns) [
      | failed err ↦ failed (codes "kube: listing daemonsets: " ++ err)
      | found dms ↦ found (
          map (replicated_workload kind_deployment) ds
          ++ (map (replicated_workload kind_stateful_set) ss ++ map daemon_workload dms))
    ]
  ]
]
