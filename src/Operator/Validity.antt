-- ===== src/Operator/Validity.antt =====
-- The histograms of the collector stay well formed, whatever is sampled and whatever the store has.
use kubetidy.Base.{
  Bool-cases, Option-cases, All, inl, inr, ◌&&◌, ◌||◌, Option, none, some, List, [], ◌∷◌,
}
use kubetidy.Base.Float.{Float64, less, decimal, nought, IsIeee}
use kubetidy.Base.Int.{ℤ}
use kubetidy.Base.Text.{Text}
use kubetidy.Histogram.{Config, Histogram, observe}
use kubetidy.Histogram.Layout.{IsValid, Built, Built-IsValid}
use kubetidy.Model.{Workload}
use kubetidy.Operator.{
  Sample, ContainerKey, ContainerState, Collector, Codec, key_eq, lookup_state, put_state, or_else,
  profile_name, key_in, decode_snapshot, new_collector, with_histogram_config, fresh_state,
  state_for, observe_positive, add_sample, observe_samples, histogram_from_metric, restored_state,
  rehydrate_containers,
}
use kubetidy.Operator.Cycle.{
  Cluster, Cycle, checkpoint, checkpoint_any, observe_and_checkpoint, tick_loop, tick_writes,
  tick_over, tick, rehydrate_from, rehydrate,
}
use kubetidy.Profile.{MetricHistory, ContainerHistory, UsageProfile}
use kubetidy.Scan.{Answer, found, failed, Answer-cases}

module _ {F : Type 0} ⦃fl : Float64 F⦄ where
  -- Every live histogram is one that the code can build.
  pub record IsBuilt (st : ContainerState F) : Type 0 where
    pub cpu : Built st.cpu
    pub mem : Built st.mem

  abbrev pub AreBuilt : List (ContainerKey × ContainerState F) → Type 0
  AreBuilt = All (λ (e : ContainerKey × ContainerState F). IsBuilt e.1)

  put-AreBuilt :
      (key : ContainerKey) (st : ContainerState F) (m : List (ContainerKey × ContainerState F))
      → IsBuilt st
      → AreBuilt m
      → AreBuilt (put_state key st m)
  unfolding put_state
  put-AreBuilt key st [] b h = (b, tt)
  put-AreBuilt key st ((j, u) ∷ m) b (h, hs) = elim (Bool-cases (key_eq j key)) [
    | inl same ↦ rw same (b, hs)
    | inr other ↦ rw other (h, put-AreBuilt key st m b hs)
  ]

  fresh_state-IsBuilt : (c : Collector F) (now : ℤ) → IsBuilt (fresh_state c now)
  unfolding fresh_state
  fresh_state-IsBuilt c now = record { cpu = Built.fresh c.cpu_cfg; mem = Built.fresh c.mem_cfg }

  found-IsBuilt :
      (key : ContainerKey) (d : ContainerState F) (m : List (ContainerKey × ContainerState F))
      → IsBuilt d
      → AreBuilt m
      → IsBuilt (or_else d (lookup_state key m))
  unfolding lookup_state
  found-IsBuilt key d [] b h = b
  found-IsBuilt key d ((j, u) ∷ m) b (h, hs) = elim (Bool-cases (key_eq j key)) [
    | inl same ↦ rw same h
    | inr other ↦ rw other (found-IsBuilt key d m b hs)
  ]

  observe_positive-Built :
      (h : Histogram F) (v : F) (now : ℤ) → Built h → Built (observe_positive h v now)
  unfolding observe_positive observe
  observe_positive-Built h v now b = elim (Bool-cases (less nought v)) [
    | inl up ↦ rw up (Built.observed v (decimal 1 0) now b)
    | inr down ↦ rw down b
  ]

  add_sample-IsBuilt :
      (st : ContainerState F) (s : Sample F) (now : ℤ) → IsBuilt st → IsBuilt (add_sample st s now)
  unfolding add_sample
  add_sample-IsBuilt st s now b = record {
    cpu = observe_positive-Built st.cpu s.cpu_millicores now b.cpu;
    mem = observe_positive-Built st.mem s.memory_bytes now b.mem;
  }

module _ {F : Type 0} ⦃fl : Float64 F⦄ (codec : Codec F) where
  observe_samples-AreBuilt :
      (samples : List (Text × Sample F)) (c : Collector F) (w : Workload) (now : ℤ)
      → AreBuilt c.state
      → AreBuilt (observe_samples codec c w now samples).state
  unfolding observe_samples state_for
  observe_samples-AreBuilt [] c w now h = h
  observe_samples-AreBuilt ((name, s) ∷ rest) c w now h =
      let key = key_in codec w name in
      let st = found-IsBuilt key (fresh_state c now) c.state (fresh_state-IsBuilt c now) h in
      observe_samples-AreBuilt rest _ w now
        (put-AreBuilt key _ c.state (add_sample-IsBuilt _ s now st) h)

  histogram_from_metric-Built :
      (m : MetricHistory F) (fallback : Config F) → Built (histogram_from_metric codec m fallback)
  unfolding histogram_from_metric
  histogram_from_metric-Built m fallback = elim (Option-cases (decode_snapshot codec m.histogram)) [
    | inl n ↦ rw (histogram_from_metric, n) (Built.fresh fallback)
    | inr (snap, e) ↦ rw (histogram_from_metric, e) (Built.restored snap fallback)
  ]

  rehydrate_containers-AreBuilt :
      (hs : List (ContainerHistory F)) (c : Collector F) (w : Workload) (now : ℤ)
      (profile : UsageProfile F)
      → AreBuilt c.state
      → AreBuilt (rehydrate_containers codec c w now profile hs).state
  unfolding rehydrate_containers restored_state
  rehydrate_containers-AreBuilt [] c w now profile h = h
  rehydrate_containers-AreBuilt (ch ∷ rest) c w now profile h =
      rehydrate_containers-AreBuilt rest _ w now profile (
        put-AreBuilt _ _ c.state
          (record {
            cpu = histogram_from_metric-Built ch.cpu c.cpu_cfg;
            mem = histogram_from_metric-Built ch.memory c.mem_cfg;
          })
          h)

module _ {F : Type 0} ⦃fl : Float64 F⦄ {S : Type 0} (codec : Codec F) (k : Cluster F S) where
  checkpoint-AreBuilt :
      (samples : List (Text × Sample F)) (c : Collector F) (store : S) (w : Workload)
      → AreBuilt c.state
      → AreBuilt (checkpoint_any codec k c store w samples).0.state
  unfolding checkpoint_any checkpoint
  checkpoint-AreBuilt [] c store w h = h
  checkpoint-AreBuilt (s ∷ ss) c store w h =
      observe_samples-AreBuilt codec (s ∷ ss) c w (k.clock w) h

  observe-AreBuilt :
      (c : Collector F) (store : S) (w : Workload)
      → AreBuilt c.state
      → AreBuilt (observe_and_checkpoint codec k c store w).0.state
  unfolding observe_and_checkpoint
  observe-AreBuilt c store w h = elim (Answer-cases (k.sample w)) [
    | inl (samples, e) ↦ rw (observe_and_checkpoint, e) (checkpoint-AreBuilt samples c store w h)
    | inr (err, e) ↦ rw (observe_and_checkpoint, e) h
  ]

  tick_loop-AreBuilt :
      (ws : List Workload) (cy : Cycle F S)
      → AreBuilt cy.collector.state
      → AreBuilt (tick_loop codec k cy ws).collector.state
  unfolding tick_loop
  tick_loop-AreBuilt [] cy h = h
  tick_loop-AreBuilt (w ∷ ws) cy h =
      tick_loop-AreBuilt ws _ (observe-AreBuilt cy.collector cy.store w h)

  tick_over-AreBuilt :
      (cy : Cycle F S) (ws : List Workload)
      → AreBuilt cy.collector.state
      → AreBuilt (tick_over codec k cy ws).collector.state
  unfolding tick_over tick_writes
  tick_over-AreBuilt cy ws h =
      elim (Bool-cases (k.has_pricer && (k.has_summary || k.has_recommendations))) [
        | inl on ↦ rw on (tick_loop-AreBuilt ws cy h)
        | inr off ↦ rw off (tick_loop-AreBuilt ws cy h)
      ]

  tick-AreBuilt :
      (c : Collector F) (store : S)
      → AreBuilt c.state
      → AreBuilt (tick codec k c store).collector.state
  unfolding tick
  tick-AreBuilt c store h = elim (Answer-cases k.list) [
    | inl (ws, e) ↦ rw (tick, e) (tick_over-AreBuilt _ ws h)
    | inr (err, e) ↦ rw (tick, e) h
  ]

  rehydrate_from-AreBuilt :
      (a : Answer (Option (UsageProfile F))) (c : Collector F) (w : Workload)
      → AreBuilt c.state
      → AreBuilt (rehydrate_from codec k c w a).state
  unfolding rehydrate_from
  rehydrate_from-AreBuilt (failed err) c w h = h
  rehydrate_from-AreBuilt (found none) c w h = h
  rehydrate_from-AreBuilt (found (some profile)) c w h =
      rehydrate_containers-AreBuilt codec profile.status.containers c w (k.clock w) profile h

  rehydrate-AreBuilt :
      (ws : List Workload) (c : Collector F) (store : S)
      → AreBuilt c.state
      → AreBuilt (rehydrate codec k c store ws).state
  unfolding rehydrate
  rehydrate-AreBuilt [] c store h = h
  rehydrate-AreBuilt (w ∷ ws) c store h =
      rehydrate-AreBuilt ws _ store
        (rehydrate_from-AreBuilt (k.get store w.namespace (profile_name codec w)) c w h)

-- The collectors that an operator can come to hold: at first with any layouts, then after ticks of
-- any cluster and store, and after restarts from any store.
pub data Life {F : Type 0} ⦃fl : Float64 F⦄ (codec : Codec F) : Collector F → Type 1 where
  started : (cpu mem : Config F) → Life codec (with_histogram_config new_collector cpu mem)
  ticked :
      {c : Collector F} {S : Type 0} (k : Cluster F S) (store : S)
      → Life codec c
      → Life codec (tick codec k c store).collector
  rehydrated :
      {c : Collector F} {S : Type 0} (k : Cluster F S) (store : S) (ws : List Workload)
      → Life codec c
      → Life codec (rehydrate codec k c store ws)

module _ {F : Type 0} ⦃fl : Float64 F⦄ (codec : Codec F) where
  Life-AreBuilt : {c : Collector F} → Life codec c → AreBuilt c.state
  Life-AreBuilt (started cpu mem) = tt
  Life-AreBuilt (ticked {c} k store l) = tick-AreBuilt codec k c store (Life-AreBuilt l)
  Life-AreBuilt (rehydrated {c} k store ws l) =
      rehydrate-AreBuilt codec k ws c store (Life-AreBuilt l)

  IsBuilt-IsValid :
      IsIeee F
      → (m : List (ContainerKey × ContainerState F)) → AreBuilt m
      → All (λ (e : ContainerKey × ContainerState F). IsValid e.1.cpu × IsValid e.1.mem) m
  IsBuilt-IsValid laws [] h = tt
  IsBuilt-IsValid laws (e ∷ m) (b, h) =
      ((Built-IsValid laws b.cpu, Built-IsValid laws b.mem), IsBuilt-IsValid laws m h)

  -- In every collector that an operator can come to hold, from any layouts, by ticks of any cluster
  -- and restarts from any store, both histograms of every container are well formed.
  pub Life-IsValid :
      IsIeee F
      → {c : Collector F} → Life codec c
      → All (λ (e : ContainerKey × ContainerState F). IsValid e.1.cpu × IsValid e.1.mem) c.state
  Life-IsValid laws {c} l = IsBuilt-IsValid laws c.state (Life-AreBuilt l)
