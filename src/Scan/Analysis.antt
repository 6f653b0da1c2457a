-- ===== src/Scan/Analysis.antt =====
-- `analyzeWorkload`: what it recommends and what it counts as waste.
use mathlib.Core.Path.{subst}
use kubetidy.Base.{◌≡◌, sym, ap, ◌∙◌, true, false, none, some, List, [], ◌∷◌, ◌++◌}
use kubetidy.Base.Float.{Float64, nought}
use kubetidy.Base.Maps.{lookup_text}
use kubetidy.Base.Text.{Text}
use kubetidy.Cost.{monthly_savings}
use kubetidy.Model.{ResourceSpec, Container, Workload, UsageStats, ResourcePrice, Recommendation}
use kubetidy.Rightsizer.{recommend}
use kubetidy.Scan.{is_noise, WorkloadResult, Engine, add_waste, no_result}

module _ {F : Type 0} ⦃fl : Float64 F⦄ (e : Engine F) (w : Workload) (price : ResourcePrice F)
    (stats : List (Text × UsageStats F)) where
  -- What the analysis owes a container whose usage is `st`.
  abbrev pub current_of : Container → ResourceSpec
  current_of c = record { requests = c.requests; limits = c.limits }

  abbrev pub proposal_for : Container → UsageStats F → ResourceSpec
  proposal_for c st = recommend (current_of c) st e.policy

  abbrev pub saving_on : Container → UsageStats F → F
  saving_on c st = monthly_savings (current_of c) (proposal_for c st) price w.replicas

  -- The recommendation for a container: from its name, its requests and limits as they stand, and
  -- the usage that the provider gave for it.
  pub record IsFor (c : Container) (st : UsageStats F) (r : Recommendation F) : Type 0 where
    same_workload : r.workload ≡ w
    named : r.container_name ≡ c.name
    current : r.current ≡ current_of c
    proposal : r.proposed ≡ proposal_for c st
    savings : r.monthly_savings ≡ saving_on c st
    same_tier : r.tier ≡ st.tier
    same_usage : r.usage ≡ st

  -- The recommendations that a list of containers gives: one for each container with usage whose
  -- proposal is no noise, in the order of the containers, and no other.
  pub data Yields : List Container → List (Recommendation F) → Type 0 where
    nobody : Yields [] []
    unmeasured :
        {c : Container} {cs : List Container} {rs : List (Recommendation F)}
        → lookup_text c.name stats ≡ none
        → Yields cs rs
        → Yields (c ∷ cs) rs
    noise :
        {c : Container} {cs : List Container} {rs : List (Recommendation F)} (st : UsageStats F)
        → lookup_text c.name stats ≡ some st
        → is_noise (current_of c) (proposal_for c st) (saving_on c st) ≡ true
        → Yields cs rs
        → Yields (c ∷ cs) rs
    kept :
        {c : Container} {cs : List Container} {rs : List (Recommendation F)} {r : Recommendation F}
        (st : UsageStats F)
        → lookup_text c.name stats ≡ some st
        → is_noise (current_of c) (proposal_for c st) (saving_on c st) ≡ false
        → IsFor c st r
        → Yields cs rs
        → Yields (c ∷ cs) (r ∷ rs)

  abbrev pub waste_of : F → List (Recommendation F) → F
  waste_of waste [] = waste
  waste_of waste (r ∷ rs) = waste_of (add_waste waste r) rs

  -- The workload's results are what its containers give, with the sum of the positive savings.
  pub record IsTally (out : WorkloadResult F) : Type 0 where
    yielded : Yields w.containers out.recs
    counted : out.waste ≡ waste_of nought out.recs

  -- What a part of the loop adds to the results so far.
  record Adds (cs : List Container) (before after : WorkloadResult F) : Type 0 where
    new : List (Recommendation F)
    yielded : Yields cs new
    recs : after.recs ≡ before.recs ++ new
    waste : after.waste ≡ waste_of before.waste new

  tally : {out : WorkloadResult F} → Adds w.containers no_result out → IsTally out
  tally {out} a = record {
    yielded = subst (Yields w.containers) (sym a.recs) a.yielded;
    counted = a.waste ∙ ap (waste_of nought) (sym a.recs);
  }
