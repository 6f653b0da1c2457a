-- ===== src/Recommend.antt =====
-- internal/recommend/recommend.go and the types of api/v1alpha1/recommendation_types.go: one
-- Recommendation object for each workload. The lowering of letters and the formatted time are
-- arguments; the fields that the code leaves at zero are left out.
pub mod Groups
mod Tests
use kubetidy.Base.{if◌then◌else◌, filter_map, Option, none, some, List, [], ◌∷◌, ◌++◌, map}
use kubetidy.Base.Float.{Float64, ◌⊕◌, ◌⊗◌, ◌⊘◌, less_eq, decimal, nought, of_int}
use kubetidy.Base.Int.{ℤ, pos, ltb_ℤ}
use kubetidy.Base.Text.{Text, codes, text_eq, is_empty}
use kubetidy.Model.{Workload, workload_ref, Recommendation, percent}
use kubetidy.Profile.{TargetRef, object_name}
use kubetidy.Score.{cut_score}

pub record ObjectSpec : Type 0 where
  pub target_ref : TargetRef
  pub namespace : Text
  pub source : Text
  pub generated_at : Text
  pub inputs_ref : Text

pub record ResourceChange : Type 0 where
  pub container : Text
  pub cpu_request_millicores : ℤ
  pub memory_request_bytes : ℤ

pub record ObjectStatus (F : Type 0) : Type 0 where
  pub score : ℤ
  pub confidence : ℤ
  pub monthly_savings : F
  pub changes : List ResourceChange
  pub evidence : List Text

pub record RecommendationObject (F : Type 0) : Type 0 where
  pub name : Text
  pub namespace : Text
  pub spec : ObjectSpec
  pub status : ObjectStatus F

pub record BuiltObject (F : Type 0) : Type 0 where
  pub name : Text
  pub namespace : Text
  pub recommendation : RecommendationObject F

-- The recommendations of one workload.
pub record Group (F : Type 0) : Type 0 where
  pub workload : Workload
  pub recs : List (Recommendation F)

abbrev pub ref_of : {F : Type 0} → Recommendation F → Text
ref_of r = workload_ref r.workload

abbrev pub key_of : {F : Type 0} → Group F → Text
key_of g = workload_ref g.workload

-- One round of the grouping loop; the map and the order of its keys are one list.
unfoldable pub add_to_group : {F : Type 0} → List (Group F) → Recommendation F → List (Group F)
add_to_group [] r = record { workload = r.workload; recs = r ∷ [] } ∷ []
add_to_group (g ∷ gs) r =
    let rest = add_to_group gs r in
    if text_eq (key_of g) (ref_of r) then record g { recs = g.recs ++ (r ∷ []) } ∷ gs else g ∷ rest

unfoldable pub group_loop : {F : Type 0} → List (Group F) → List (Recommendation F) → List (Group F)
unfolding add_to_group
group_loop gs [] = gs
group_loop gs (r ∷ rs) = group_loop (add_to_group gs r) rs

abbrev pub change_of : {F : Type 0} → Recommendation F → ResourceChange
change_of r = record {
  container = r.container_name;
  cpu_request_millicores = r.proposed.requests.cpu_millicores;
  memory_request_bytes = r.proposed.requests.memory_bytes;
}

-- The evidence line of a container, where there is one.
abbrev pub evidence_line : {F : Type 0} → Recommendation F → Option Text
evidence_line r =
    if is_empty r.evidence then none else some (r.container_name ++ (codes ": " ++ r.evidence))

abbrev pub or_rules : Text → Text
or_rules source = if is_empty source then codes "rules" else source

module _ {F : Type 0} ⦃fl : Float64 F⦄ where
  unfoldable pub score_for : F → ℤ → ℤ
  unfolding cut_score
  score_for monthly_savings confidence =
      let savings_score = decimal 100 0 ⊗ monthly_savings ⊘ (monthly_savings ⊕ decimal 100 0) in
      let conf = of_int confidence ⊘ decimal 100 0 in
      if less_eq monthly_savings nought
      then pos 0
      else cut_score (fl.truncate (savings_score ⊗ conf ⊕ decimal 5 1))

  unfoldable pub savings_sum : F → List (Recommendation F) → F
  savings_sum sum [] = sum
  savings_sum sum (r ∷ rs) = savings_sum (sum ⊕ r.monthly_savings) rs

  unfoldable pub highest_percent : ℤ → List (Recommendation F) → ℤ
  unfolding percent
  highest_percent best [] = best
  highest_percent best (r ∷ rs) =
      highest_percent (if ltb_ℤ best (percent r.confidence) then percent r.confidence else best) rs

  unfoldable pub build_one :
      (Text → Text) → Text → Text → Workload → List (Recommendation F) → BuiltObject F
  unfolding score_for savings_sum highest_percent object_name
  build_one to_lower source generated_at w recs =
      let name = object_name to_lower w.kind w.name in
      let total = savings_sum nought recs in
      let confidence = highest_percent (pos 0) recs in
      record {
        name = name;
        namespace = w.namespace;
        recommendation = record {
          name = name;
          namespace = w.namespace;
          spec = record {
            target_ref = record { kind = w.kind; name = w.name };
            namespace = w.namespace;
            source = source;
            generated_at = generated_at;
            inputs_ref = object_name to_lower w.kind w.name;
          };
          status = record {
            score = score_for total confidence;
            confidence = confidence;
            monthly_savings = total;
            changes = map change_of recs;
            evidence = filter_map evidence_line recs;
          };
        };
      }

  unfoldable pub build :
      (Text → Text) → Text → Text → List (Recommendation F) → List (BuiltObject F)
  unfolding build_one group_loop
  build to_lower source generated_at recs =
      map (λ (g : Group F). build_one to_lower (or_rules source) generated_at g.workload g.recs)
        (group_loop [] recs)
