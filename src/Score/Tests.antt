-- ===== src/Score/Tests.antt =====
-- Scores over `Fixed`.
use Prim.Native.String.{String}
use kubetidy.Base.{All, ℕ, ◌≡◌, ◌≢◌, ◌⊎◌, List, [], ◌∷◌}
use kubetidy.Base.Fixed.{Fixed, fixed_float}
use kubetidy.Base.FixedLaws.{Fixed-IsIeee}
use kubetidy.Base.Float.{decimal, nought}
use kubetidy.Base.Int.{pos}
use kubetidy.Base.Text.{codes}
use kubetidy.Model.{snapshot, ResourceAmounts, ResourceSpec, Percentiles, Recommendation}
use kubetidy.Score.{compute}
use kubetidy.Score.Range.{IsPercentage, IsFactor, compute_range}

abbrev no_amounts : ResourceAmounts
no_amounts = record { cpu_millicores = pos 0; memory_bytes = pos 0 }

abbrev no_spec : ResourceSpec
no_spec = record { requests = no_amounts; limits = no_amounts }

abbrev unmeasured : Percentiles Fixed
unmeasured = record {
  avg = nought;
  p50 = nought;
  p95 = nought;
  p99 = nought;
  peak = nought;
  cv = nought;
}

abbrev rec_of : String → ℕ → Recommendation Fixed
rec_of name saved = record {
  workload = record {
    kind = codes "Deployment";
    name = codes name;
    namespace = codes "shop";
    replicas = pos 1;
    containers = [];
    selector = [];
    node_labels = [];
  };
  container_name = codes "app";
  current = no_spec;
  proposed = no_spec;
  monthly_savings = decimal saved 0;
  confidence = record { score = decimal 8 1; reason = [] };
  tier = snapshot;
  usage = record {
    cpu_millicores = unmeasured;
    memory_bytes = unmeasured;
    window = pos 0;
    samples = pos 1;
    tier = snapshot;
  };
  evidence = [];
  explanation = [];
}

abbrev recs : List (Recommendation Fixed)
recs = rec_of "web" 5 ∷ rec_of "db" 9 ∷ []

compute_range_example :
    IsPercentage (compute recs).0
    × All IsFactor (compute recs).1
    × ((recs ≢ []) ⊎ ((compute recs).0 ≡ pos 100))
compute_range_example = compute_range Fixed-IsIeee recs
