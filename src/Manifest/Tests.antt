-- ===== src/Manifest/Tests.antt =====
-- Manifests over `Fixed`, and the theorem on their comparison.
use Prim.Native.String.{String}
use mathlib.Core.List.{Permᴰ}
use kubetidy.Base.{ℕ, ◌≡◌, refl, none, some, List, [], ◌∷◌, map}
use kubetidy.Base.Fixed.{Fixed, fixed_float}
use kubetidy.Base.FixedLaws.{Fixed-IsIeee}
use kubetidy.Base.Float.{decimal}
use kubetidy.Base.Int.{pos}
use kubetidy.Base.Maps.{lookup_text, put_text}
use kubetidy.Base.Sort.{same_items, insert_by, sort_by}
use kubetidy.Base.Text.{Text, codes, text_eq, text_less, is_empty, has_key}
use kubetidy.Manifest.{
  WorkloadCost, cost_ref, CostChange, index_by_ref, abs, approx_equal, head_change, change_for,
  removal_of, removals, change_before, sum_before, sum_after, compare_costs,
}
use kubetidy.Manifest.Order.{IsRange, compare_costs-order}
use kubetidy.Manifest.Parse.{
  Decoder, workload_kinds, namespace_or_default, wrap32, amounts_from, amounts_in,
  container_from_map, replicas_of, with_containers, workload_from_object, read_document,
  parse_workloads,
}
use kubetidy.Scan.{found}

abbrev cost : String → ℕ → WorkloadCost Fixed
cost name v = record {
  kind = codes "D";
  namespace = codes "n";
  name = codes name;
  replicas = pos 1;
  monthly = decimal v 0;
}

abbrev base_costs : List (WorkloadCost Fixed)
base_costs = cost "a" 5 ∷ cost "b" 3 ∷ []

abbrev head_costs : List (WorkloadCost Fixed)
head_costs = cost "b" 4 ∷ cost "c" 5 ∷ []

abbrev Entries : Type 0
Entries = List (Text × WorkloadCost Fixed)

abbrev as_is : Entries → Entries
as_is m = m

-- An order with the first two entries exchanged.
abbrev exchanged : Entries → Entries
exchanged [] = []
exchanged (x ∷ []) = x ∷ []
exchanged (x ∷ y ∷ m) = y ∷ x ∷ m

as_is-IsRange : IsRange as_is
as_is-IsRange m = same_items m

exchanged-IsRange : IsRange exchanged
exchanged-IsRange [] = Permᴰ.nil
exchanged-IsRange (x ∷ []) = same_items (x ∷ [])
exchanged-IsRange (x ∷ y ∷ m) = Permᴰ.swap refl refl

-- The two changes of five dollars are in the order of their references.
ranked_refs :
    map (λ (c : CostChange Fixed). c.name) (compare_costs exchanged base_costs head_costs).changes
    ≡ codes "a" ∷ codes "c" ∷ codes "b" ∷ []
unfolding compare_costs index_by_ref put_text cost_ref lookup_text change_for head_change removals
    removal_of approx_equal abs change_before sort_by insert_by text_eq text_less sum_before
    sum_after
ranked_refs = refl

compare_costs-order_example :
    (compare_costs as_is base_costs head_costs).changes
    ≡ (compare_costs exchanged base_costs head_costs).changes
unfolding compare_costs index_by_ref put_text cost_ref lookup_text change_for head_change removals
    removal_of approx_equal abs change_before sort_by insert_by text_eq text_less sum_before
    sum_after
compare_costs-order_example =
    compare_costs-order Fixed-IsIeee as_is exchanged as_is-IsRange exchanged-IsRange base_costs
      head_costs (refl, (refl, (refl, tt)))

-- A manifest of a deployment with an empty namespace, and of a kind that costs nothing.
abbrev plain : Decoder (Text × Text) Text
plain = record {
  is_blank = λ o. is_empty o.0;
  kind = λ o. o.0;
  name = λ o. o.1;
  namespace = λ o. [];
  replicas = λ o. some (pos 3);
  containers = λ o. some (some (codes "app") ∷ none ∷ []);
  item_name = λ i. i;
  requests = λ i. some ((codes "cpu", codes "2") ∷ []);
  limits = λ i. none;
  milli_value = λ v. some (pos 2000);
  value = λ v. none;
}

parsed_names :
    parse_workloads plain []
      (found (codes "Deployment", codes "web") ∷ found (codes "Service", codes "web") ∷ [])
    ≡ found (
        record {
          kind = codes "Deployment";
          name = codes "web";
          namespace = codes "default";
          replicas = pos 3;
          containers =
              record {
                name = codes "app";
                requests = record { cpu_millicores = pos 2000; memory_bytes = pos 0 };
                limits = record { cpu_millicores = pos 0; memory_bytes = pos 0 };
              }
              ∷ [];
          selector = [];
          node_labels = [];
        }
        ∷ [])
unfolding parse_workloads read_document workload_from_object with_containers container_from_map
    amounts_in amounts_from replicas_of wrap32 namespace_or_default has_key workload_kinds text_eq
parsed_names = refl
