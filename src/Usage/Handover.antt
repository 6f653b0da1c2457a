-- ===== src/Usage/Handover.antt =====
-- From the operator to the scan: what the collector saves is what the scan's provider reads.
use mathlib.Core.List.{Memᴰ}
use mathlib.Core.Path.{subst}
use kubetidy.Base.{
  Bool-cases, All, All-append, All-mem, mem-append_left, mem-append_last, ◌≡◌, refl, sym, ap, ◌∙◌,
  ◌⊎◌, inl, inr, false, Option, none, some, List, [], ◌∷◌, arith,
}
use kubetidy.Base.Float.{Float64, decimal, nought}
use kubetidy.Base.Int.{ℤ}
use kubetidy.Base.Maps.{lookup_text, put_text, lookup_text-put_same, lookup_text-put_other}
use kubetidy.Base.Text.{Text, text_eq, text_eq_iff}
use kubetidy.Histogram.{Histogram, percentile, mean}
use kubetidy.Model.{operator, Container, Workload, Percentiles, UsageStats}
use kubetidy.Operator.{
  ContainerKey, ContainerState, Collector, Codec, lookup_state, profile_name, key_in,
  metric_history, ProfileSum, sum_container, sum_containers, no_sum, build_profile,
}
use kubetidy.Operator.Store.{
  Reply, present, not_found, refused, ApiObject, Client, save_profile, get_profile,
}
use kubetidy.Operator.Store.Json.{
  SameFloat, SameMetric, SameContainer, SameContainers, no_containers, more_containers, SameProfile,
}
use kubetidy.Operator.Store.Laws.{IsServer, get_profile-save_profile}
use kubetidy.Profile.{MetricHistory, ContainerHistory, UsageProfile, object_name, from_unstructured}
use kubetidy.Scan.{Answer, found, failed}
use kubetidy.Usage.{recorded_percentiles, recorded_stats, collect_stats, operator_usage}

module _ {F : Type 0} ⦃fl : Float64 F⦄ where
  -- The map of a profile has, for a name, something that has whatever property all containers of
  -- that name have.
  collect_stats-lookup :
      (profile : UsageProfile F) (name : Text) (P : UsageStats F → Type 0)
      (hs : List (ContainerHistory F)) (out : List (Text × UsageStats F))
      → ((h : ContainerHistory F) → Memᴰ h hs → h.name ≡ name → P (recorded_stats profile h))
      → ((u : UsageStats F) × (lookup_text name out ≡ some u) × P u)
        ⊎ ((h : ContainerHistory F) × Memᴰ h hs × (h.name ≡ name))
      → (u : UsageStats F) × (lookup_text name (collect_stats profile out hs) ≡ some u) × P u
  unfolding collect_stats
  collect_stats-lookup profile name P [] out f (inl e) = e
  collect_stats-lookup profile name P [] out f (inr (h, m, e)) = elim m [ ]
  collect_stats-lookup profile name P (c ∷ cs) out f o =
      collect_stats-lookup profile name P cs (put_text c.name (recorded_stats profile c) out)
        (λ h m e. f h (Memᴰ.tail m) e)
        (elim (Bool-cases (text_eq c.name name)) [
          | inl same ↦
              let e = (text_eq_iff c.name name).0 same in
              inl (
                recorded_stats profile c,
                ap (λ n. lookup_text n (put_text c.name (recorded_stats profile c) out)) (sym e)
                    ∙ lookup_text-put_same c.name (recorded_stats profile c) out,
                f c (Memᴰ.head refl) e,
              )
          | inr other ↦ elim o [
            | inl (u, e, q) ↦
                inl
                  (u, lookup_text-put_other name c.name (recorded_stats profile c) out other ∙ e, q)
            | inr (h, m, e) ↦ inr (later h m e other)
          ]
        ])
    where
      later :
          (h : ContainerHistory F)
          → Memᴰ h (c ∷ cs)
          → h.name ≡ name
          → text_eq c.name name ≡ false
          → (h : ContainerHistory F) × Memᴰ h cs × (h.name ≡ name)
      later h (Memᴰ.head k) e n =
          absurd (ground (arith, n, (text_eq_iff c.name name).1 (ap (λ x. x.name) (sym k) ∙ e)))
      later h (Memᴰ.tail m) e n = (h, m, e)

module _ {F : Type 0} ⦃fl : Float64 F⦄ (codec : Codec F)
    (state : List (ContainerKey × ContainerState F)) (w : Workload) where
  abbrev history : Text → ContainerState F → ContainerHistory F
  unfolding metric_history
  history name st = record {
    name = name;
    cpu = metric_history codec st.cpu;
    memory = metric_history codec st.mem;
  }

  -- A history that is the one of the live state of its name.
  IsLive : ContainerHistory F → Type 0
  IsLive h =
      (st : ContainerState F)
      → lookup_state (key_in codec w h.name) state ≡ some st
      → h ≡ history h.name st

  abbrev step : ProfileSum codec → Text → ProfileSum codec
  unfolding sum_container
  step sum name = sum_container codec sum name (lookup_state (key_in codec w name) state)

  answer : (a b : ContainerState F) → some a ≡ some b → a ≡ b
  answer a b e = ap (λ (o : Option (ContainerState F)). elim o [ some z ↦ z | none ↦ a ]) e

  step-IsLive :
      (sum : ProfileSum codec) (name : Text)
      → All IsLive sum.histories
      → All IsLive (step sum name).histories
  unfolding step sum_container IsLive
  step-IsLive sum name h = by_state (lookup_state (key_in codec w name) state) refl
    where
      by_state :
          (o : Option (ContainerState F))
          → lookup_state (key_in codec w name) state ≡ o
          → All IsLive (sum_container codec sum name o).histories
      by_state none e = h
      by_state (some st) e =
          All-append IsLive sum.histories (history name st ∷ []) h
            ((λ st' e'. ap (history name) (answer st st' (sym e ∙ e'))), tt)

  step-keeps :
      (sum : ProfileSum codec) (name : Text) (h : ContainerHistory F)
      → Memᴰ h sum.histories
      → Memᴰ h (step sum name).histories
  unfolding step sum_container
  step-keeps sum name h m = by_state (lookup_state (key_in codec w name) state)
    where
      by_state : (o : Option (ContainerState F)) → Memᴰ h (sum_container codec sum name o).histories
      by_state none = m
      by_state (some st) = mem-append_left sum.histories _ m

  step-adds :
      (sum : ProfileSum codec) (name : Text) (st : ContainerState F)
      → lookup_state (key_in codec w name) state ≡ some st
      → Memᴰ (history name st) (step sum name).histories
  unfolding step sum_container
  step-adds sum name st e = rw (sum_container, e) (mem-append_last (history name st) sum.histories)

  sum-IsLive :
      (cs : List Container) (sum : ProfileSum codec)
      → All IsLive sum.histories
      → All IsLive (sum_containers codec state w cs sum).histories
  unfolding sum_containers step
  sum-IsLive [] sum h = h
  sum-IsLive (c ∷ cs) sum h = sum-IsLive cs (step sum c.name) (step-IsLive sum c.name h)

  sum-keeps :
      (cs : List Container) (sum : ProfileSum codec) (h : ContainerHistory F)
      → Memᴰ h sum.histories
      → Memᴰ h (sum_containers codec state w cs sum).histories
  unfolding sum_containers step
  sum-keeps [] sum h m = m
  sum-keeps (c ∷ cs) sum h m = sum-keeps cs (step sum c.name) h (step-keeps sum c.name h m)

  sum-adds :
      (cs : List Container) (sum : ProfileSum codec) (box : Container) (st : ContainerState F)
      → Memᴰ box cs
      → lookup_state (key_in codec w box.name) state ≡ some st
      → Memᴰ (history box.name st) (sum_containers codec state w cs sum).histories
  unfolding sum_containers step
  sum-adds [] sum box st m e = elim m [ ]
  sum-adds (c ∷ cs) sum box st (Memᴰ.head k) e =
      sum-keeps cs (step sum c.name) (history box.name st) (
        subst (λ (x : Container). Memᴰ (history box.name st) (step sum x.name).histories) k
          (step-adds sum box.name st e))
  sum-adds (c ∷ cs) sum box st (Memᴰ.tail m) e = sum-adds cs (step sum c.name) box st m e

module _ {F : Type 0} ⦃fl : Float64 F⦄ {S : Type 0} (client : Client F S)
    (to_lower : Text → Text) where
  read_of : {a b : UsageProfile F} → found (some a) ≡ found (some b) → a ≡ b
  read_of {a} {b} e =
      ap
        (λ (r : Answer (Option (UsageProfile F))). elim r [
          | failed err ↦ a
          | found o ↦ elim o [ none ↦ a | some x ↦ x ]
        ])
        e

  -- The provider reads the profile that `Get` gives.
  operator_usage-get_profile :
      (s : S) (w : Workload) (profile : UsageProfile F)
      → get_profile client s w.namespace (object_name to_lower w.kind w.name) ≡ found (some profile)
      → operator_usage client to_lower s w ≡ collect_stats profile [] profile.status.containers
  unfolding get_profile operator_usage
  operator_usage-get_profile s w profile h =
      by_reply (client.get s w.namespace (object_name to_lower w.kind w.name)) refl
    where
      asked : Text
      asked = object_name to_lower w.kind w.name

      by_reply :
          (r : Reply (ApiObject F))
          → client.get s w.namespace asked ≡ r
          → operator_usage client to_lower s w ≡ collect_stats profile [] profile.status.containers
      by_reply not_found e = absurd (ground (arith, rw (get_profile, e) at h))
      by_reply (refused err) e = absurd (ground (arith, rw (get_profile, e) at h))
      by_reply (present o) e =
          let same : from_unstructured o.content ≡ profile = read_of (rw (get_profile, e) at h) in
          rw (operator_usage, e) (ap (λ p. collect_stats p [] p.status.containers) same)

module _ {F : Type 0} ⦃fl : Float64 F⦄ where
  -- What the live histogram of a resource says.
  abbrev pub live_percentiles : Histogram F → Percentiles F
  unfolding mean percentile
  live_percentiles h = record {
    avg = mean h;
    p50 = percentile h (decimal 50 2);
    p95 = percentile h (decimal 95 2);
    p99 = percentile h (decimal 99 2);
    peak = h.max_seen;
    cv = nought;
  }

module _ {F : Type 0} ⦃fl : Float64 F⦄ where
  -- The figures of a distribution, each as it was or as a number equal to it.
  pub record SamePercentiles (sent read : Percentiles F) : Type 0 where
    pub avg : SameFloat sent.avg read.avg
    pub p50 : SameFloat sent.p50 read.p50
    pub p95 : SameFloat sent.p95 read.p95
    pub p99 : SameFloat sent.p99 read.p99
    pub peak : SameFloat sent.peak read.peak
    pub cv : read.cv ≡ sent.cv

  recorded-SamePercentiles :
      {m n : MetricHistory F}
      → SameMetric m n
      → SamePercentiles (recorded_percentiles m) (recorded_percentiles n)
  unfolding recorded_percentiles
  recorded-SamePercentiles s = record {
    avg = s.avg;
    p50 = s.p50;
    p95 = s.p95;
    p99 = s.p99;
    peak = s.max_seen;
    cv = refl;
  }

  -- Every container that is read was sent, and every one that was sent is read.
  sent_of :
      {sent read : List (ContainerHistory F)}
      → SameContainers sent read
      → (h : ContainerHistory F) → Memᴰ h read
      → (g : ContainerHistory F) × Memᴰ g sent × SameContainer g h
  sent_of no_containers h m = elim m [ ]
  sent_of (more_containers {c = c} s rest) h (Memᴰ.head k) =
      (c, Memᴰ.head refl, subst (SameContainer c) (sym k) s)
  sent_of (more_containers s rest) h (Memᴰ.tail m) =
      let (g, n, r) = sent_of rest h m in (g, Memᴰ.tail n, r)

  read_as :
      {sent read : List (ContainerHistory F)}
      → SameContainers sent read
      → (g : ContainerHistory F) → Memᴰ g sent
      → (h : ContainerHistory F) × Memᴰ h read × SameContainer g h
  read_as no_containers g m = elim m [ ]
  read_as (more_containers {d = d} s rest) g (Memᴰ.head k) =
      (d, Memᴰ.head refl, subst (λ x. SameContainer x d) (sym k) s)
  read_as (more_containers s rest) g (Memᴰ.tail m) =
      let (h, n, r) = read_as rest g m in (h, Memᴰ.tail n, r)

module _ {F : Type 0} ⦃fl : Float64 F⦄ {S : Type 0} (client : Client F S) (codec : Codec F) where
  -- What the collector's live state of a container promises of the usage that is read.
  record IsHandedOver (st : ContainerState F) (count : ℤ) (u : UsageStats F) : Type 0 where
    cpu : SamePercentiles (live_percentiles st.cpu) u.cpu_millicores
    memory : SamePercentiles (live_percentiles st.mem) u.memory_bytes
    samples : u.samples ≡ count
    tier : u.tier ≡ operator

  recorded-IsHandedOver :
      (state : List (ContainerKey × ContainerState F)) (w : Workload) (name : Text)
      (st : ContainerState F) (sent read : UsageProfile F) (h : ContainerHistory F)
      → SameProfile sent read
      → SameContainer (history codec state w name st) h
      → IsHandedOver st sent.status.sample_count (recorded_stats read h)
  unfolding recorded_stats recorded_percentiles metric_history history live_percentiles
  recorded-IsHandedOver state w name st sent read h p c = record {
    cpu = recorded-SamePercentiles c.cpu;
    memory = recorded-SamePercentiles c.memory;
    samples = p.status.sample_count;
    tier = refl;
  }

  -- On a server with a status subresource, after the collector saves the profile of a workload
  -- without an error, the scan's operator provider gives, for every container of the workload with
  -- a live state, the percentiles, means and peaks of its two live histograms, each as it was or as
  -- a number equal to it, which the JSON stored as a whole number, and the number of samples of the
  -- profile.
  pub operator_usage-save_profile :
      IsServer client
      → (c : Collector F) (w : Workload) (now : ℤ) (s s' : S) (box : Container)
        (st : ContainerState F)
      → save_profile client s (build_profile codec c w now) ≡ (s', none)
      → Memᴰ box w.containers
      → lookup_state (key_in codec w box.name) c.state ≡ some st
      → (u : UsageStats F) × (lookup_text box.name (operator_usage client codec.to_lower s' w)
          ≡ some u)
        × SamePercentiles (live_percentiles st.cpu) u.cpu_millicores
        × SamePercentiles (live_percentiles st.mem) u.memory_bytes
        × (u.samples ≡ (build_profile codec c w now).status.sample_count)
        × (u.tier ≡ operator)
  unfolding IsLive build_profile recorded_stats recorded_percentiles metric_history profile_name
  operator_usage-save_profile laws c w now s s' box st saved m e =
      let profile = build_profile codec c w now in
      let hs = profile.status.containers in
      let mine = history codec c.state w box.name st in
      let live = sum-IsLive codec c.state w w.containers (no_sum codec) tt in
      let live_at =
        λ (h : ContainerHistory F) (n : Memᴰ h hs). All-mem (IsLive codec c.state w) hs live n in
      let there = sum-adds codec c.state w w.containers (no_sum codec) box st m e in
      let (read, at, same) = get_profile-save_profile client laws profile s s' saved in
      let is_mine = λ (g : ContainerHistory F) (n : Memᴰ g hs) (k : g.name ≡ box.name).
        live_at g n st (ap (λ x. lookup_state (key_in codec w x) c.state) k ∙ e)
        ∙ ap (λ x. history codec c.state w x st) k in
      let (mine_read, listed, kept) = read_as same.status.containers mine there in
      let (u, found_u, q) =
        collect_stats-lookup read box.name (IsHandedOver st profile.status.sample_count)
          read.status.containers []
          (λ h n k.
            let (g, n', r) = sent_of same.status.containers h n in
            recorded-IsHandedOver c.state w box.name st profile read h same
              (subst (λ x. SameContainer x h) (is_mine g n' (sym r.name ∙ k)) r))
          (inr (mine_read, listed, kept.name)) in
      (
        u,
        ap (lookup_text box.name) (operator_usage-get_profile client codec.to_lower s' w read at)
            ∙ found_u,
        q.cpu,
        q.memory,
        q.samples,
        q.tier,
      )
