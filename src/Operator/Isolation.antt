-- ===== src/Operator/Isolation.antt =====
-- `Tick`: an error of one workload is reported and stops nothing.
use mathlib.Core.Path.{ap₂}
use kubetidy.Base.{◌≡◌, refl, ap, Option, none, some, List, [], ◌∷◌, ◌++◌}
use kubetidy.Base.Float.{Float64}
use kubetidy.Base.Text.{Text, codes}
use kubetidy.Model.{Workload, workload_ref}
use kubetidy.Operator.{Collector, Codec}
use kubetidy.Operator.Cycle.{Cluster, Cycle, keep_first, observe_and_checkpoint, tick_loop}
use kubetidy.Scan.{failed}

module _ {F : Type 0} ⦃fl : Float64 F⦄ {S : Type 0} (codec : Codec F) (k : Cluster F S) where
  abbrev pub IsError : Option Text → Type 0
  IsError none = ⊥
  IsError (some err) = Unit

  keep_first-IsError : (a b : Option Text) → IsError b → IsError (keep_first a b)
  keep_first-IsError none b h = h
  keep_first-IsError (some e) b h = tt

  -- The first error stays.
  loop-keeps :
      (ws : List Workload) (cy : Cycle F S)
      → IsError cy.first_err
      → IsError (tick_loop codec k cy ws).first_err
  unfolding tick_loop
  loop-keeps [] cy h = h
  loop-keeps (w ∷ ws) cy h = loop-keeps ws _ (kept cy.first_err _ h)
    where
      kept : (a b : Option Text) → IsError a → IsError (keep_first a b)
      kept none b h = absurd h
      kept (some e) b h = tt

  -- The collector and the store do not depend on the errors so far.
  loop-apart :
      (ws : List Workload) (cy cy' : Cycle F S)
      → cy.collector ≡ cy'.collector
      → cy.store ≡ cy'.store
      → ((tick_loop codec k cy ws).collector ≡ (tick_loop codec k cy' ws).collector)
        × ((tick_loop codec k cy ws).store ≡ (tick_loop codec k cy' ws).store)
  unfolding tick_loop
  loop-apart [] cy cy' c s = (c, s)
  loop-apart (w ∷ ws) cy cy' c s =
      loop-apart ws _ _ (ap₂ (λ x y. (observe_and_checkpoint codec k x y w).0) c s)
        (ap₂ (λ x y. (observe_and_checkpoint codec k x y w).1) c s)

  -- A workload whose sampling fails changes neither the collector nor the store.
  failed-leaves :
      (c : Collector F) (store : S) (w : Workload) (err : Text)
      → k.sample w ≡ failed err
      → observe_and_checkpoint codec k c store w
        ≡ (c, store, some (codes "operator: sampling " ++ (workload_ref w ++ (codes ": " ++ err))))
  unfolding observe_and_checkpoint
  failed-leaves c store w err e = rw (observe_and_checkpoint, e) refl

  -- In a tick, a workload whose sampling fails leaves every other one alone: the loop ends with the
  -- collector and the store that it has without that workload, and with an error to report.
  pub tick_loop-isolates :
      (before : List Workload) (w : Workload) (after : List Workload) (cy : Cycle F S) (err : Text)
      → k.sample w ≡ failed err
      → let whole = tick_loop codec k cy (before ++ (w ∷ after)) in
        let rest = tick_loop codec k cy (before ++ after) in
        (whole.collector ≡ rest.collector) × (whole.store ≡ rest.store) × IsError whole.first_err
  unfolding tick_loop
  tick_loop-isolates [] w after cy err e =
      let left = failed-leaves cy.collector cy.store w err e in
      let (c, s) = loop-apart after _ cy (ap (λ p. p.0) left) (ap (λ p. p.1) left) in
      (c, s, loop-keeps after _ (keep_first-IsError cy.first_err _ (rw left tt)))
  tick_loop-isolates (v ∷ before) w after cy err e = tick_loop-isolates before w after _ err e
