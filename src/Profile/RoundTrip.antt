-- ===== src/Profile/RoundTrip.antt =====
-- `ToUnstructured` and `FromUnstructured`: what is written is read back.
use mathlib.Core.Path.{ap₂}
use kubetidy.Base.{◌≡◌, refl, ap, List, [], ◌∷◌}
use kubetidy.Base.Float.{Float64}
use kubetidy.Base.Text.{codes, text_eq}
use kubetidy.Profile.{
  MetricHistory, ContainerHistory, UsageProfile, text, object, no_entry, entry, lookup_key,
  nested_map, nested_string, nested_float, nested_int64, metric_to_map, containers_to_items,
  status_to_map, to_unstructured, metric_from_map, metric_in, container_from, containers_from_items,
  as_containers, status_from_map, target_in, spec_in, status_in, metadata_text, from_unstructured,
}

module _ {F : Type 0} ⦃fl : Float64 F⦄ where
  metric_back : (m : MetricHistory F) → metric_from_map (metric_to_map m) ≡ m
  unfolding metric_from_map metric_to_map nested_float nested_string lookup_key text_eq
  metric_back m = refl

  container_back :
      (c : ContainerHistory F)
      → container_from (
          entry (codes "name") (text c.name) (
            entry
              (codes "cpu")
              (object (metric_to_map c.cpu))
              (entry (codes "memory") (object (metric_to_map c.memory)) no_entry)))
        ≡ c
  unfolding container_from metric_in nested_map nested_string lookup_key text_eq
  container_back c =
      ap₂ (λ a b. record { name = c.name; cpu = a; memory = b }) (metric_back c.cpu)
        (metric_back c.memory)

  containers_back :
      (cs : List (ContainerHistory F)) → containers_from_items (containers_to_items cs) ≡ cs
  unfolding containers_from_items containers_to_items
  containers_back [] = refl
  containers_back (c ∷ cs) = ap₂ (λ d ds. d ∷ ds) (container_back c) (containers_back cs)

  -- Any profile that is written as an unstructured object is read back unchanged, with its name,
  -- its target and the history of every container in order.
  pub from_unstructured-to_unstructured :
      (u : UsageProfile F) → from_unstructured (to_unstructured u) ≡ u
  unfolding from_unstructured to_unstructured status_in status_from_map status_to_map nested_map
      nested_string nested_int64 nested_float lookup_key text_eq as_containers metadata_text spec_in
      target_in
  from_unstructured-to_unstructured u =
      ap (λ cs. record u { status = record u.status { containers = cs } })
        (containers_back u.status.containers)
