-- ===== src/Summary/Tests.antt =====
-- A summary over `Fixed`, and the theorem at it.
use Prim.Native.String.{String}
use kubetidy.Base.{length, ℕ, ◌≡◌, refl, List, [], ◌∷◌, map}
use kubetidy.Base.Fixed.{Fixed, fixed_float}
use kubetidy.Base.Float.{decimal, nought}
use kubetidy.Base.Int.{pos}
use kubetidy.Base.Sort.{insert_by, sort_by}
use kubetidy.Base.Text.{codes, text_eq, text_less, has_key}
use kubetidy.Model.{
  snapshot, ResourceAmounts, ResourceSpec, workload_ref, Percentiles, Recommendation, percent,
}
use kubetidy.Recommend.{build}
use kubetidy.Summary.{
  WorkloadTarget, add_seen, seen_loop, count_workloads, add_aggregate, aggregate_loop,
  target_before, top_n_targets,
}
use kubetidy.Summary.Counts.{count_workloads-build}

abbrev no_amounts : ResourceAmounts
no_amounts = record { cpu_millicores = pos 0; memory_bytes = pos 0 }

abbrev no_spec : ResourceSpec
no_spec = record { requests = no_amounts; limits = no_amounts }

abbrev nothing : Percentiles Fixed
nothing = record {
  avg = nought;
  p50 = nought;
  p95 = nought;
  p99 = nought;
  peak = nought;
  cv = nought;
}

abbrev rec_of : String → ℕ → Recommendation Fixed
rec_of name saved = record {
  workload = record {
    kind = codes "Deployment";
    name = codes name;
    namespace = codes "shop";
    replicas = pos 1;
    containers = [];
    selector = [];
    node_labels = [];
  };
  container_name = codes "app";
  current = no_spec;
  proposed = no_spec;
  monthly_savings = decimal saved 0;
  confidence = record { score = decimal 8 1; reason = [] };
  tier = snapshot;
  usage = record {
    cpu_millicores = nothing;
    memory_bytes = nothing;
    window = pos 0;
    samples = pos 1;
    tier = snapshot;
  };
  evidence = [];
  explanation = [];
}

abbrev recs : List (Recommendation Fixed)
recs = rec_of "web" 5 ∷ rec_of "db" 9 ∷ rec_of "web" 7 ∷ rec_of "job" 0 ∷ []

-- The savings of both containers of "web" are summed, and what saves nothing is no target.
targets_ranked :
    map (λ (t : WorkloadTarget Fixed). t.target_ref.name) (top_n_targets recs (pos 20))
    ≡ codes "web" ∷ codes "db" ∷ []
unfolding top_n_targets sort_by insert_by target_before text_less aggregate_loop add_aggregate
    text_eq workload_ref percent
targets_ranked = refl

counted : count_workloads recs ≡ 3
unfolding count_workloads seen_loop add_seen has_key text_eq workload_ref
counted = refl

count_workloads-build_example : count_workloads recs ≡ length (build (λ s. s) [] [] recs)
count_workloads-build_example = count_workloads-build (λ s. s) [] [] recs
