-- ===== src/Scan/Isolation.antt =====
-- `Run`: a workload that fails leaves the rest of the scan alone.
use mathlib.Core.List.{append-nil, append_assoc}
use kubetidy.Base.{
  if◌then◌else◌, length, suc, ◌≡◌, refl, sym, ap, ◌∙◌, Bool, true, false, List, [], ◌∷◌, ◌++◌, map,
}
use kubetidy.Base.Float.{Float64, ◌⊕◌, nought, IsIeee}
use kubetidy.Base.Text.{Text, codes}
use kubetidy.Model.{EvidenceTier, is_snapshot, Workload, Recommendation}
use kubetidy.Scan.{
  failed, dominant_tier, WorkloadResult, Engine, warning, no_result, analyze_workload, flatten,
  or_declared, snapshot_caveat, ScanInputs, run_tier, run,
}
use kubetidy.Score.{compute}

-- One list is the other with `x` put in.
pub record IsInserted (x : Text) (longer shorter : List Text) : Type 0 where
  pub front : List Text
  pub back : List Text
  pub with_it : longer ≡ front ++ (x ∷ back)
  pub without_it : shorter ≡ front ++ back

length-insert :
    {A : Type 0} (xs : List A) (x : A) (ys : List A)
    → length (xs ++ (x ∷ ys)) ≡ suc (length (xs ++ ys))
length-insert [] x ys = refl
length-insert (z ∷ xs) x ys = ap suc (length-insert xs x ys)

module _ {F : Type 0} ⦃fl : Float64 F⦄ (e : Engine F) where
  abbrev tier_from : List EvidenceTier → List (Recommendation F) → EvidenceTier
  tier_from order recs =
      or_declared e.declared_tier
        (dominant_tier order (map (λ (r : Recommendation F). r.tier) recs))

  -- The recommendations of the later slots do not depend on what was wasted or warned before.
  flatten-recs :
      (ws : List Workload) (out out' : WorkloadResult F)
      → out.recs ≡ out'.recs
      → (flatten e out ws).recs ≡ (flatten e out' ws).recs
  unfolding flatten
  flatten-recs [] out out' h = h
  flatten-recs (w ∷ ws) out out' h =
      flatten-recs ws _ _ (ap (λ rs. rs ++ (analyze_workload e w).recs) h)

  failed-recs :
      (w : Workload) (err : Text) → e.usage w ≡ failed err → (analyze_workload e w).recs ≡ []
  unfolding analyze_workload
  failed-recs w err u = rw (analyze_workload, u) refl

  failed-warns :
      (w : Workload) (err : Text)
      → e.usage w ≡ failed err
      → (analyze_workload e w).warnings ≡ warning (codes "usage unavailable for ") w err ∷ []
  unfolding analyze_workload
  failed-warns w err u = rw (analyze_workload, u) refl

  flatten-isolates :
      (w : Workload) (err : Text) (before after : List Workload) (out : WorkloadResult F)
      → e.usage w ≡ failed err
      → (flatten e out (before ++ (w ∷ after))).recs ≡ (flatten e out (before ++ after)).recs
  unfolding flatten
  flatten-isolates w err [] after out u =
      flatten-recs after _ out
        (ap (λ rs. out.recs ++ rs) (failed-recs w err u) ∙ append-nil out.recs)
  flatten-isolates w err (v ∷ before) after out u = flatten-isolates w err before after _ u

  failed-waste :
      (w : Workload) (err : Text) → e.usage w ≡ failed err → (analyze_workload e w).waste ≡ nought
  unfolding analyze_workload
  failed-waste w err u = rw (analyze_workload, u) refl

  -- The later slots add the same waste to the same sum.
  flatten-waste :
      (ws : List Workload) (out out' : WorkloadResult F)
      → out.waste ≡ out'.waste
      → (flatten e out ws).waste ≡ (flatten e out' ws).waste
  unfolding flatten
  flatten-waste [] out out' h = h
  flatten-waste (w ∷ ws) out out' h =
      flatten-waste ws _ _ (ap (λ x. x ⊕ (analyze_workload e w).waste) h)

  flatten_waste-isolates :
      IsIeee F
      → (w : Workload) (err : Text) (before after : List Workload) (out : WorkloadResult F)
      → e.usage w ≡ failed err
      → out.waste ⊕ nought ≡ out.waste
      → (flatten e out (before ++ (w ∷ after))).waste ≡ (flatten e out (before ++ after)).waste
  unfolding flatten
  flatten_waste-isolates laws w err [] after out u h =
      flatten-waste after _ out (ap (λ x. out.waste ⊕ x) (failed-waste w err u) ∙ h)
  flatten_waste-isolates laws w err (v ∷ before) after out u h =
      flatten_waste-isolates laws w err before after _ u (laws.add_nought_right _ _ h)

  -- The warnings of the slots in order.
  warnings_of : List Workload → List Text
  warnings_of [] = []
  warnings_of (w ∷ ws) = (analyze_workload e w).warnings ++ warnings_of ws

  flatten-warnings :
      (ws : List Workload) (out : WorkloadResult F)
      → (flatten e out ws).warnings ≡ out.warnings ++ warnings_of ws
  unfolding flatten warnings_of
  flatten-warnings [] out = sym (append-nil out.warnings)
  flatten-warnings (w ∷ ws) out =
      flatten-warnings ws _
      ∙ append_assoc out.warnings (analyze_workload e w).warnings (warnings_of ws)

  flatten-warns :
      (w : Workload) (err : Text) (before after : List Workload) (out : WorkloadResult F)
      → e.usage w ≡ failed err
      → IsInserted
          (warning (codes "usage unavailable for ") w err)
          (flatten e out (before ++ (w ∷ after))).warnings
          (flatten e out (before ++ after)).warnings
  unfolding flatten warnings_of
  flatten-warns w err [] after out u = record {
    front = out.warnings;
    back = warnings_of after;
    with_it =
        flatten-warnings (w ∷ after) out
        ∙ ap (λ ws. out.warnings ++ (ws ++ warnings_of after)) (failed-warns w err u);
    without_it = flatten-warnings after out;
  }
  flatten-warns w err (v ∷ before) after out u = flatten-warns w err before after _ u

  caveat-IsInserted :
      {x : Text} {ws us : List Text} (b c : Bool)
      → b ≡ c
      → IsInserted x ws us
      → IsInserted x
          (if b then snapshot_caveat ++ ws else ws)
          (if c then snapshot_caveat ++ us else us)
  caveat-IsInserted {x} true true e h = record {
    front = snapshot_caveat ++ h.front;
    back = h.back;
    with_it =
        ap (λ l. snapshot_caveat ++ l) h.with_it
        ∙ sym (append_assoc snapshot_caveat h.front (x ∷ h.back));
    without_it =
        ap (λ l. snapshot_caveat ++ l) h.without_it
        ∙ sym (append_assoc snapshot_caveat h.front h.back);
  }
  caveat-IsInserted false false e h = h
  caveat-IsInserted true false e h = cc
  caveat-IsInserted false true e h = cc

  -- A workload whose usage fails changes a scan in its count of workloads, which is one more, and
  -- in its warnings, which have one more that names the workload; the recommendations, the total
  -- waste, the efficiency score and its breakdown, and the tier are those of the scan without it,
  -- and the other warnings stand as they did.
  pub run-isolates :
      IsIeee F
      → (i : ScanInputs) (before : List Workload) (w : Workload) (after : List Workload)
        (err : Text)
      → e.usage w ≡ failed err
      → let whole = run e (record i { workloads = before ++ (w ∷ after) }) in
        let rest = run e (record i { workloads = before ++ after }) in
        (whole.recommendations ≡ rest.recommendations)
        × (whole.total_monthly_waste ≡ rest.total_monthly_waste)
        × (whole.efficiency_score ≡ rest.efficiency_score)
        × (whole.score_breakdown ≡ rest.score_breakdown)
        × (whole.tier ≡ rest.tier)
        × (whole.workload_count ≡ suc rest.workload_count)
        × IsInserted (warning (codes "usage unavailable for ") w err) whole.warnings rest.warnings
  unfolding run run_tier
  run-isolates laws i before w after err u =
      let same = flatten-isolates w err before after no_result u in
      let same_tier = ap (tier_from i.tier_order) same in
      (
        same,
        flatten_waste-isolates laws w err before after no_result u laws.add_nought,
        ap (λ rs. (compute rs).0) same,
        ap (λ rs. (compute rs).1) same,
        same_tier,
        length-insert before w after,
        caveat-IsInserted _ _ (ap is_snapshot same_tier)
            (flatten-warns w err before after no_result u),
      )
