-- ===== src/Gitops/Tests.antt =====
-- A change set over `Fixed`, and the theorem on its selection.
use Prim.Native.String.{String}
use mathlib.Core.List.{Permᴰ}
use kubetidy.Base.{length, take, ◌≡◌, refl, false, List, [], ◌∷◌, map}
use kubetidy.Base.Fixed.{Fixed, val, fixed_float}
use kubetidy.Base.FixedLaws.{Fixed-IsIeee}
use kubetidy.Base.Float.{decimal, nought}
use kubetidy.Base.Int.{pos, negsuc}
use kubetidy.Base.Sort.{filter_by, insert_by, sort_by}
use kubetidy.Base.Text.{codes, text_eq}
use kubetidy.Gitops.{Options, select_recommendations, patch_file_name}
use kubetidy.Gitops.Selection.{limit, saves, Descends, is_wanted, select_recommendations_lem}
use kubetidy.Gitops.Texts.{
  filter_empty, join_texts, file_rune, sanitize, digit_groups, dollar_amount, dollars,
}
use kubetidy.Model.{snapshot, kind_deployment, ResourceAmounts, Percentiles, Recommendation}
use kubetidy.Wording.{Printer}

abbrev nothing_set : ResourceAmounts
nothing_set = record { cpu_millicores = pos 0; memory_bytes = pos 0 }

abbrev no_percentiles : Percentiles Fixed
no_percentiles = record {
  avg = nought;
  p50 = nought;
  p95 = nought;
  p99 = nought;
  peak = nought;
  cv = nought;
}

abbrev saving : String → Fixed → Recommendation Fixed
saving name v = record {
  workload = record {
    kind = kind_deployment;
    name = codes name;
    namespace = codes "shop";
    replicas = pos 1;
    containers = [];
    selector = [];
    node_labels = [];
  };
  container_name = codes "app";
  current = record { requests = nothing_set; limits = nothing_set };
  proposed = record { requests = nothing_set; limits = nothing_set };
  monthly_savings = v;
  confidence = record { score = nought; reason = [] };
  tier = snapshot;
  usage = record {
    cpu_millicores = no_percentiles;
    memory_bytes = no_percentiles;
    window = pos 0;
    samples = pos 0;
    tier = snapshot;
  };
  evidence = [];
  explanation = [];
}

abbrev offers : List (Recommendation Fixed)
offers =
    saving "web" (decimal 5 0)
    ∷ saving "db" (decimal 7 0)
    ∷ saving "grows" (val (negsuc 3))
    ∷ saving "api" (decimal 5 0)
    ∷ []

abbrev options : Options
options = record { patch_dir = []; top_n = pos 2; include_grow = false }

abbrev printer : Printer Fixed
printer = record { whole_number = λ n. codes "1234567"; fixed_digits = λ k x. codes "x" }

-- Two of three are left, the earlier one of the equals second.
names_of :
    map (λ (r : Recommendation Fixed). r.workload.name) (select_recommendations offers options)
    ≡ codes "db" ∷ codes "web" ∷ []
unfolding select_recommendations sort_by insert_by
names_of = refl

grouped : dollars printer (decimal 1 0) ≡ codes "$1,234,567"
unfolding dollars dollar_amount digit_groups join_texts
grouped = refl

file_name : patch_file_name (λ s. s) (saving "we b" nought) ≡ codes "-eployment-shop-we-b-app.json"
unfolding patch_file_name filter_empty join_texts sanitize file_rune text_eq
file_name = refl

select_recommendations_lem_example :
    let wanted = filter_by (is_wanted options) offers in
    (ranked : List (Recommendation Fixed)) × (select_recommendations offers options
      ≡ take (limit (pos 2) (length wanted)) ranked)
    × Permᴰ ranked wanted
    × Descends ranked
    × ((v : Fixed) → filter_by (saves v) ranked ≡ filter_by (saves v) wanted)
select_recommendations_lem_example =
    select_recommendations_lem Fixed-IsIeee offers options (refl, (refl, (refl, (refl, tt))))
