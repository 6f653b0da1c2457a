-- ===== src/Cleanup/Tests.antt =====
-- Sweeps of a small cluster over `Fixed`, and the theorems at it.
use Prim.Native.String.{String}
use mathlib.Core.List.{Memᴰ}
use mathlib.Core.Path.{subst}
use kubetidy.Base.{
  ◌≡◌, refl, ◌≢◌, ◌↔◌, Bool, true, false, ◌&&◌, none, some, List, [], ◌∷◌, map, arith,
}
use kubetidy.Base.Fixed.{Fixed, fixed_float}
use kubetidy.Base.Float.{nought}
use kubetidy.Base.Int.{pos}
use kubetidy.Base.Text.{Text, codes, text_eq, has_key, NoSlash}
use kubetidy.Cleanup.{
  Finding, Service, Pod, Claim, Namespace, Controller, Inputs, Kubernetes, system_namespaces,
  used_claims, running_in, live_namespaces, any_pod_matches, service_finding, orphan,
  orphaned_services, claim_finding, unused, unused_pvcs, namespace_finding, idle, idle_namespaces,
  detect,
}
use kubetidy.Cleanup.Idle.{IsLive, idle_namespaces_lem}
use kubetidy.Cleanup.Routing.{IsUnrouted, orphaned_services_lem}
use kubetidy.Cleanup.Storage.{IsMounted, PlainPods, unused_pvcs_lem}

abbrev labelled : List (Text × Text) → List (Text × Text) → Bool
labelled [] ls = true
labelled (l ∷ ls) [] = false
labelled ((k, v) ∷ ls) ((j, w) ∷ ms) = text_eq k j && (text_eq v w && labelled ls ms)

abbrev cluster_library : Kubernetes Fixed
cluster_library = record {
  matches = labelled;
  selector_string = λ s. codes "selector";
  trunc = λ x. x;
  print_whole = λ n. codes "n";
  print_tenth = λ x. codes "x";
}

abbrev app : String → List (Text × Text)
app name = (codes "app", codes name) ∷ []

abbrev service : String → List (Text × Text) → Service
service name labels = record {
  namespace = codes "shop";
  name = codes name;
  is_external = false;
  selector = labels;
}

abbrev claim : String → Claim
claim name = record { namespace = codes "shop"; name = codes name; storage = none }

abbrev web_pod : Pod
web_pod = record {
  namespace = codes "shop";
  labels = app "web";
  volumes = none ∷ some (codes "disk") ∷ [];
}

abbrev stopped : Controller
stopped = record { namespace = codes "old"; name = codes "api"; replicas = some (pos 0) }

abbrev cluster : Inputs Fixed
cluster = record {
  services = service "web" (app "web") ∷ service "gone" (app "gone") ∷ [];
  pods = web_pod ∷ [];
  pvcs = claim "disk" ∷ claim "spare" ∷ [];
  namespaces =
      record { name = codes "shop"; is_terminating = false }
      ∷ record { name = codes "old"; is_terminating = false }
      ∷ record { name = codes "default"; is_terminating = false }
      ∷ [];
  deployments = stopped ∷ [];
  stateful_sets = [];
  daemon_sets = [];
  storage_per_gib_month = nought;
}

-- The spare claim alone is unused, and the stopped namespace alone is idle.
names_found :
    map (λ (f : Finding Fixed). f.name) (detect cluster_library cluster)
    ≡ codes "gone" ∷ codes "spare" ∷ codes "old" ∷ codes "api" ∷ []
unfolding detect unused has_key idle system_namespaces orphan any_pod_matches live_namespaces
    running_in used_claims text_eq
names_found = refl

shop_plain : NoSlash (codes "shop")
shop_plain (Memᴰ.head e) = omega arith
shop_plain (Memᴰ.tail (Memᴰ.head e)) = omega arith
shop_plain (Memᴰ.tail (Memᴰ.tail (Memᴰ.head e))) = omega arith
shop_plain (Memᴰ.tail (Memᴰ.tail (Memᴰ.tail (Memᴰ.head e)))) = omega arith
shop_plain (Memᴰ.tail (Memᴰ.tail (Memᴰ.tail (Memᴰ.tail m)))) = elim m [ ]

plain_pods : PlainPods (cluster.pods)
plain_pods p (Memᴰ.head e) s = shop_plain (subst (λ (q : Pod). Memᴰ 47 q.namespace) e s)
plain_pods p (Memᴰ.tail m) s = elim m [ ]

plain_claims : (c : Claim) → Memᴰ c cluster.pvcs → NoSlash c.namespace
plain_claims c (Memᴰ.head e) s = shop_plain (subst (λ (d : Claim). Memᴰ 47 d.namespace) e s)
plain_claims c (Memᴰ.tail (Memᴰ.head e)) s =
    shop_plain (subst (λ (d : Claim). Memᴰ 47 d.namespace) e s)
plain_claims c (Memᴰ.tail (Memᴰ.tail m)) s = elim m [ ]

abbrev spare_finding : Finding Fixed
spare_finding = claim_finding cluster_library nought (claim "spare")

unused_pvcs_lem_example : Memᴰ spare_finding (unused_pvcs cluster_library cluster) ↔ (
    (c : Claim) × Memᴰ c cluster.pvcs
    × (¬ IsMounted cluster.pods c.namespace c.name)
    × (claim_finding cluster_library nought c ≡ spare_finding))
unused_pvcs_lem_example =
    unused_pvcs_lem cluster_library cluster plain_pods plain_claims spare_finding

abbrev gone_finding : Finding Fixed
gone_finding = service_finding cluster_library (service "gone" (app "gone"))

orphaned_services_lem_example : Memᴰ gone_finding (orphaned_services cluster_library cluster) ↔ (
    (svc : Service) × Memᴰ svc cluster.services
    × (svc.is_external ≡ false)
    × (svc.selector ≢ [])
    × IsUnrouted cluster_library cluster.pods svc
    × (service_finding cluster_library svc ≡ gone_finding))
orphaned_services_lem_example = orphaned_services_lem cluster_library cluster gone_finding

abbrev old_finding : Finding Fixed
old_finding = namespace_finding (record { name = codes "old"; is_terminating = false })

idle_namespaces_lem_example : Memᴰ old_finding (idle_namespaces cluster) ↔ (
    (ns : Namespace) × Memᴰ ns cluster.namespaces
    × (¬ Memᴰ ns.name system_namespaces)
    × (ns.is_terminating ≡ false)
    × (¬ IsLive cluster ns.name)
    × (namespace_finding ns ≡ old_finding))
idle_namespaces_lem_example = idle_namespaces_lem cluster old_finding
