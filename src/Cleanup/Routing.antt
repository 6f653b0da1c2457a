-- ===== src/Cleanup/Routing.antt =====
-- `orphanedServices`: which services the sweep reports.
use mathlib.Core.List.{Memᴰ}
use kubetidy.Base.{
  Bool-cases, mem_filter_map, ◌≡◌, refl, sym, ap, ◌∙◌, ◌≢◌, ◌↔◌, inl, inr, false, some, List, [],
  ◌∷◌, arith,
}
use kubetidy.Base.Float.{Float64}
use kubetidy.Base.Text.{Text, text_eq, text_eq_iff}
use kubetidy.Cleanup.{
  Finding, Service, Pod, Inputs, Kubernetes, any_pod_matches, service_finding, no_selector, orphan,
  orphaned_services,
}

module _ {F : Type 0} ⦃fl : Float64 F⦄ (k8s : Kubernetes F) where
  -- No pod of the service's namespace has the labels of its selector.
  abbrev pub IsUnrouted : List Pod → Service → Type 0
  IsUnrouted pods svc =
      (p : Pod)
      → Memᴰ p pods
      → p.namespace ≡ svc.namespace
      → k8s.matches svc.selector p.labels ≡ false

  unmatched-IsUnrouted :
      (svc : Service) (pods : List Pod) → any_pod_matches k8s svc pods ≡ false → IsUnrouted pods svc
  unfolding any_pod_matches
  unmatched-IsUnrouted svc [] h p m = elim m [ ]
  unmatched-IsUnrouted svc (q ∷ qs) h p (Memᴰ.head e) = λ s.
      ground (
        arith,
        (text_eq_iff q.namespace svc.namespace).1 (ap (λ (r : Pod). r.namespace) (sym e) ∙ s),
      )
  unmatched-IsUnrouted svc (q ∷ qs) h p (Memᴰ.tail m) =
      unmatched-IsUnrouted svc qs (ground arith) p m

  unrouted-unmatched :
      (svc : Service) (pods : List Pod) → IsUnrouted pods svc → any_pod_matches k8s svc pods ≡ false
  unfolding any_pod_matches
  unrouted-unmatched svc [] u = refl
  unrouted-unmatched svc (q ∷ qs) u = elim (Bool-cases (text_eq q.namespace svc.namespace)) [
    | inl same ↦
        rw (same, u q (Memᴰ.head refl) ((text_eq_iff q.namespace svc.namespace).0 same))
          (unrouted-unmatched svc qs (λ p m. u p (Memᴰ.tail m)))
    | inr other ↦ rw (other) (unrouted-unmatched svc qs (λ p m. u p (Memᴰ.tail m)))
  ]

  no_selector_iff : (ls : List (Text × Text)) → (no_selector k8s ls ≡ false) ↔ (ls ≢ [])
  no_selector_iff [] = (λ h. absurd (ground arith), λ n. absurd (n refl))
  no_selector_iff (l ∷ ls) = (λ h e. absurd (ground arith), λ n. refl)

  orphan_iff :
      (pods : List Pod) (svc : Service) (f : Finding F)
      → (orphan k8s pods svc ≡ some f) ↔ (
          (svc.is_external ≡ false)
          × (no_selector k8s svc.selector ≡ false)
          × (any_pod_matches k8s svc pods ≡ false)
          × (service_finding k8s svc ≡ f))
  unfolding orphan
  orphan_iff pods svc f = ground arith

  -- The sweep reports exactly the services with a selector, and not of the external kind, that no
  -- pod of their namespace matches.
  pub orphaned_services_lem :
      (i : Inputs F) (f : Finding F)
      → Memᴰ f (orphaned_services k8s i) ↔ (
          (svc : Service) × Memᴰ svc i.services
          × (svc.is_external ≡ false)
          × (svc.selector ≢ [])
          × IsUnrouted i.pods svc
          × (service_finding k8s svc ≡ f))
  unfolding orphaned_services
  orphaned_services_lem i f =
      let kept = mem_filter_map (orphan k8s i.pods) i.services f in
      (
        λ m.
            let (svc, k, e) = kept.0 m in
            let (x, s, a, same) = (orphan_iff i.pods svc f).0 e in
            (
              svc,
              k,
              x,
              (no_selector_iff svc.selector).0 s,
              unmatched-IsUnrouted svc i.pods a,
              same,
            ),
        λ (svc, k, x, s, u, e). kept.1 (
          svc,
          k,
          (orphan_iff i.pods svc f).1
              (x, (no_selector_iff svc.selector).1 s, unrouted-unmatched svc i.pods u, e),
        ),
      )
