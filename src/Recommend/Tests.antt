-- ===== src/Recommend/Tests.antt =====
-- Groups of recommendations over `Fixed`, and the theorems at them.
use Prim.Native.String.{String}
use kubetidy.Base.{◌≡◌, refl, List, [], ◌∷◌, map}
use kubetidy.Base.Fixed.{Fixed, fixed_float}
use kubetidy.Base.Float.{decimal, nought}
use kubetidy.Base.Int.{pos}
use kubetidy.Base.Text.{Text, codes, text_eq}
use kubetidy.Model.{
  snapshot, ResourceAmounts, ResourceSpec, workload_ref, Percentiles, Recommendation,
}
use kubetidy.Recommend.{ResourceChange, BuiltObject, add_to_group, group_loop, build_one, build}
use kubetidy.Recommend.Groups.{grouped_under, of_workload, AreDistinct, group_loop_lem}

abbrev no_amounts : ResourceAmounts
no_amounts = record { cpu_millicores = pos 0; memory_bytes = pos 0 }

abbrev no_spec : ResourceSpec
no_spec = record { requests = no_amounts; limits = no_amounts }

abbrev nothing : Percentiles Fixed
nothing = record {
  avg = nought;
  p50 = nought;
  p95 = nought;
  p99 = nought;
  peak = nought;
  cv = nought;
}

abbrev rec_of : String → String → Recommendation Fixed
rec_of name container = record {
  workload = record {
    kind = codes "Deployment";
    name = codes name;
    namespace = codes "shop";
    replicas = pos 1;
    containers = [];
    selector = [];
    node_labels = [];
  };
  container_name = codes container;
  current = no_spec;
  proposed = no_spec;
  monthly_savings = decimal 5 0;
  confidence = record { score = decimal 8 1; reason = [] };
  tier = snapshot;
  usage = record {
    cpu_millicores = nothing;
    memory_bytes = nothing;
    window = pos 0;
    samples = pos 1;
    tier = snapshot;
  };
  evidence = [];
  explanation = [];
}

abbrev recs : List (Recommendation Fixed)
recs = rec_of "web" "app" ∷ rec_of "db" "sql" ∷ rec_of "web" "proxy" ∷ []

-- Both containers of the first workload stand in the first object.
built_changes :
    map
      (λ (b : BuiltObject Fixed).
        map (λ (c : ResourceChange). c.container) b.recommendation.status.changes)
      (build (λ s. s) [] [] recs)
    ≡ (codes "app" ∷ codes "proxy" ∷ []) ∷ (codes "sql" ∷ []) ∷ []
unfolding build build_one group_loop add_to_group text_eq workload_ref
built_changes = refl

group_loop_lem_example :
    AreDistinct (group_loop [] recs)
    × ((key : Text) → grouped_under key (group_loop [] recs) ≡ of_workload key recs)
group_loop_lem_example = group_loop_lem recs
