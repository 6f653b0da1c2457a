-- ===== src/Cleanup/Idle.antt =====
-- `idleNamespaces`: which namespaces the sweep reports.
-- A controller of the namespace wants a pod.
use mathlib.Core.List.{Memᴰ}
use mathlib.Core.Path.{subst}
use kubetidy.Base.{mem_filter_map, ◌≡◌, ◌↔◌, ◌⊎◌, inl, inr, false, some, List, map, arith}
use kubetidy.Base.Float.{Float64}
use kubetidy.Base.Int.{pos, ◌<ℤ◌}
use kubetidy.Base.Text.{Text, has_key, has_key_not_iff}
use kubetidy.Cleanup.{
  Finding, Pod, Namespace, Controller, Inputs, desired_replicas, system_namespaces, wanted,
  running_in, live_namespaces, namespace_finding, idle, idle_namespaces,
}
use mathlib.Core.List.Memᴰ

abbrev pub HasRunning : List Controller → Text → Type 0
HasRunning cs namespace =
    (c : Controller) × Memᴰ c cs
    × (c.namespace ≡ namespace)
    × (pos 0 <ℤ desired_replicas c.replicas)

abbrev pub IsLive : {F : Type 0} → Inputs F → Text → Type 0
IsLive i namespace =
    HasRunning i.deployments namespace
    ⊎ HasRunning i.stateful_sets namespace
    ⊎ ((c : Controller) × Memᴰ c i.daemon_sets × (c.namespace ≡ namespace))
    ⊎ ((p : Pod) × Memᴰ p i.pods × (p.namespace ≡ namespace))

wanted_iff :
    (c : Controller) (namespace : Text)
    → (wanted c ≡ some namespace)
      ↔ ((c.namespace ≡ namespace) × (pos 0 <ℤ desired_replicas c.replicas))
unfolding wanted
wanted_iff c namespace = ground arith

running_iff :
    (cs : List Controller) (namespace : Text)
    → Memᴰ namespace (running_in cs) ↔ HasRunning cs namespace
unfolding running_in
running_iff cs namespace =
    let kept = mem_filter_map wanted cs namespace in
    (
      λ m. let (c, k, e) = kept.0 m in let (s, r) = (wanted_iff c namespace).0 e in (c, k, s, r),
      λ (c, k, s, r). kept.1 (c, k, (wanted_iff c namespace).1 (s, r)),
    )

mem-field :
    {A : Type 0} (field : A → Text) (xs : List A) (a : A) (t : Text)
    → Memᴰ a xs
    → field a ≡ t
    → Memᴰ t (map field xs)
mem-field field xs a t m e = subst (λ n. Memᴰ n (map field xs)) e (Memᴰ.map field m)

IsLive-iff :
    {F : Type 0} (i : Inputs F) (namespace : Text)
    → Memᴰ namespace (live_namespaces i) ↔ IsLive i namespace
unfolding live_namespaces
IsLive-iff i namespace = (
  λ m. elim (Memᴰ.append_cases (running_in i.deployments) m) [
    | inl d ↦ inl ((running_iff i.deployments namespace).0 d)
    | inr m ↦ elim (Memᴰ.append_cases (running_in i.stateful_sets) m) [
      | inl s ↦ inr (inl ((running_iff i.stateful_sets namespace).0 s))
      | inr m ↦ elim (Memᴰ.append_cases (map (λ (c : Controller). c.namespace) i.daemon_sets) m) [
        | inl d ↦ inr (inr (inl (Memᴰ.of_map (λ (c : Controller). c.namespace) _ d)))
        | inr p ↦ inr (inr (inr (Memᴰ.of_map (λ (p : Pod). p.namespace) _ p)))
      ]
    ]
  ],
  λ l. elim l [
    | inl d ↦ Memᴰ.append_left _ ((running_iff i.deployments namespace).1 d)
    | inr (inl s) ↦
        Memᴰ.append_right (running_in i.deployments)
          (Memᴰ.append_left _ ((running_iff i.stateful_sets namespace).1 s))
    | inr (inr (inl (c, k, e))) ↦ Memᴰ.append_right (running_in i.deployments) (
        Memᴰ.append_right (running_in i.stateful_sets) (
          Memᴰ.append_left _
            (mem-field (λ (c : Controller). c.namespace) i.daemon_sets c namespace k e)))
    | inr (inr (inr (p, k, e))) ↦ Memᴰ.append_right (running_in i.deployments) (
        Memᴰ.append_right (running_in i.stateful_sets) (
          Memᴰ.append_right (map (λ (c : Controller). c.namespace) i.daemon_sets)
            (mem-field (λ (p : Pod). p.namespace) i.pods p namespace k e)))
  ],
)

module _ {F : Type 0} ⦃fl : Float64 F⦄ where
  idle_iff :
      (live : List Text) (ns : Namespace) (f : Finding F)
      → (idle live ns ≡ some f) ↔ (
          (has_key ns.name system_namespaces ≡ false)
          × (ns.is_terminating ≡ false)
          × (has_key ns.name live ≡ false)
          × (namespace_finding ns ≡ f))
  unfolding idle
  idle_iff live ns f = ground arith

  -- The sweep reports exactly the namespaces that are neither the system's nor terminating and in
  -- which no Deployment or StatefulSet wants a pod and there is no DaemonSet and no pod.
  pub idle_namespaces_lem :
      (i : Inputs F) (f : Finding F)
      → Memᴰ f (idle_namespaces i) ↔ (
          (ns : Namespace) × Memᴰ ns i.namespaces
          × (¬ Memᴰ ns.name system_namespaces)
          × (ns.is_terminating ≡ false)
          × (¬ IsLive i ns.name)
          × (namespace_finding ns ≡ f))
  unfolding idle_namespaces
  idle_namespaces_lem i f =
      let kept = mem_filter_map (idle (live_namespaces i)) i.namespaces f in
      (
        λ m.
            let (ns, k, e) = kept.0 m in
            let (s, t, l, same) = (idle_iff (live_namespaces i) ns f).0 e in
            (
              ns,
              k,
              (has_key_not_iff _ _).0 s,
              t,
              λ live. (has_key_not_iff _ _).0 l ((IsLive-iff i ns.name).1 live),
              same,
            ),
        λ (ns, k, s, t, n, e). kept.1 (
          ns,
          k,
          (idle_iff (live_namespaces i) ns f).1 (
            (has_key_not_iff _ _).1 s,
            t,
            (has_key_not_iff _ _).1 (λ m. n ((IsLive-iff i ns.name).0 m)),
            e,
          ),
        ),
      )
