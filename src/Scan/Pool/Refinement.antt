-- ===== src/Scan/Pool/Refinement.antt =====
-- What the pool leaves in the slots is what the sequential scan computes.
use mathlib.Core.Path.{subst, subst⁻¹}
use native.Mathlib.Nat.{add-zero}
use kubetidy.Base.{
  length, ℕ, zero, suc, ◌+◌, ◌<◌, ◌≡◌, refl, Bool, Option, none, some, List, [], ◌∷◌, arith,
}
use kubetidy.Base.Float.{Float64}
use kubetidy.Model.{Workload}
use kubetidy.Scan.{WorkloadResult, Engine, no_result, analyze_workload, join, flatten}
use kubetidy.Scan.Pool.{Pool, Reach, IsOver}
use kubetidy.Scan.Pool.Safety.{Reach-IsConsistent}

module _ {F : Type 0} ⦃fl : Float64 F⦄ where
  -- The zero value of a slot.
  abbrev pub or_zero : Option (WorkloadResult F) → WorkloadResult F
  or_zero none = no_result
  or_zero (some r) = r

  -- The loop over the slots after `wg.Wait()`, for the k slots from i on.
  unfoldable pub flatten_slots :
      Engine F → WorkloadResult F → (ℕ → Option (WorkloadResult F)) → ℕ → ℕ → WorkloadResult F
  flatten_slots e out slots zero i = out
  flatten_slots e out slots (suc k) i =
      flatten_slots e (join e out (or_zero (slots i))) slots k (suc i)

  -- The analysis of the workload of an index.
  unfoldable pub result_at : Engine F → List Workload → ℕ → WorkloadResult F
  unfolding analyze_workload
  result_at e [] i = no_result
  result_at e (w ∷ ws) zero = analyze_workload e w
  result_at e (w ∷ ws) (suc i) = result_at e ws i

  slots_flatten :
      (e : Engine F) (slots : ℕ → Option (WorkloadResult F)) (ws : List Workload) (i : ℕ)
      (out : WorkloadResult F)
      → ((j : ℕ) → j < length ws → slots (i + j) ≡ some (result_at e ws j))
      → flatten_slots e out slots (length ws) i ≡ flatten e out ws
  unfolding flatten_slots flatten result_at
  slots_flatten e slots [] i out h = refl
  slots_flatten e slots (w ∷ ws) i out h =
      let head : slots i ≡ some (analyze_workload e w) =
        subst (λ k. slots k ≡ some (analyze_workload e w)) (add-zero i) (h 0 (omega arith)) in
      subst⁻¹
        (λ o.
          flatten_slots e (join e out (or_zero o)) slots (length ws) (suc i)
          ≡ flatten e (join e out (analyze_workload e w)) ws)
        head
        (slots_flatten e slots ws (suc i) (join e out (analyze_workload e w)) (λ j l.
          subst (λ k. slots k ≡ some (result_at e ws j)) (omega arith) (h (suc j) (omega arith))))

  -- However the goroutines interleave, when the wait group lets `Run` go on, the loop over the slots
  -- computes what the workloads give when they are analysed one after the other, in their order.
  pub pool_refines :
      (e : Engine F) (notify : Bool) (ws : List Workload) {s : Pool (WorkloadResult F)}
      → Reach (length ws) notify (result_at e ws) s
      → IsOver (length ws) notify (result_at e ws) s
      → flatten_slots e no_result s.slots (length ws) 0 ≡ flatten e no_result ws
  pool_refines e notify ws {s} r o =
      let c = Reach-IsConsistent (length ws) notify (result_at e ws) r in
      slots_flatten e s.slots ws 0 no_result (λ j l.
        subst (λ k. s.slots k ≡ some (result_at e ws j)) (omega arith)
          (c.filled j (rw (o.all_done j l) refl)))
