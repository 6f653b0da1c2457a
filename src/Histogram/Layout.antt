-- ===== src/Histogram/Layout.antt =====
-- The shape of a histogram: what every operation relies on and keeps.
use kubetidy.Base.{
  ◌==◌, Bool-cases, length, length-replicate, ℕ, zero, suc, ◌<◌, ◌≡◌, refl, sym, ap, ◌∙◌, inl, inr,
  false, ◌||◌, some, List, [], ◌∷◌, arith,
}
use kubetidy.Base.Float.{Float64, ◌⊗◌, less_eq, decimal, nought, ◌≺◌, IsIeee}
use kubetidy.Base.Int.{ℤ, pos_part}
use kubetidy.Histogram.{
  Config, Histogram, Snapshot, coerce, bounds_from, new, half_lives, divide_all, maybe_rebase,
  add_at, record_sample, reference, observe_weighted, snapshot_config, restore_weights,
  from_snapshot,
}

module _ {F : Type 0} ⦃fl : Float64 F⦄ where
  -- One weight for each bound, at least one bucket, and the bounds that the configuration gives.
  pub record IsValid (h : Histogram F) : Type 0 where
    pub sized : length h.weights ≡ length h.bounds
    pub nonempty : 0 < length h.bounds
    pub laid_out :
        h.bounds ≡ bounds_from (pos_part h.cfg.num_buckets) h.cfg.ratio h.cfg.first_bucket_upper
    pub settled : coerce h.cfg ≡ h.cfg

  pub length-bounds_from : (n : ℕ) (r b : F) → length (bounds_from n r b) ≡ n
  unfolding bounds_from
  length-bounds_from zero r b = refl
  length-bounds_from (suc n) r b = ap suc (length-bounds_from n r (b ⊗ r))

  length-add_at : (ws : List F) (i : ℕ) (x : F) → length (add_at ws i x) ≡ length ws
  unfolding add_at
  length-add_at [] i x = refl
  length-add_at (w ∷ ws) zero x = refl
  length-add_at (w ∷ ws) (suc i) x = ap suc (length-add_at ws i x)

  length-divide_all : (f : F) (ws : List F) → length (divide_all f ws) ≡ length ws
  length-divide_all f [] = refl
  length-divide_all f (w ∷ ws) = ap suc (length-divide_all f ws)

  rebase_shape :
      (h : Histogram F) (ref t : ℤ)
      → let out = (maybe_rebase h ref t).0 in
        (out.cfg ≡ h.cfg) × (out.bounds ≡ h.bounds) × (length out.weights ≡ length h.weights)
  unfolding maybe_rebase
  rebase_shape h ref t = ground (arith, length-divide_all (fl.exp2 (half_lives h ref t)) h.weights)

  sample_shape :
      (h : Histogram F) (ref : ℤ) (value weight : F) (t : ℤ)
      → let out = record_sample h ref value weight t in
        (out.cfg ≡ h.cfg) × (out.bounds ≡ h.bounds) × (length out.weights ≡ length h.weights)
  unfolding record_sample
  sample_shape h ref value weight t = (refl, refl, length-add_at h.weights _ _)

  -- A sample, accepted or refused, leaves the layout and the number of weights.
  observe_weighted_shape :
      (h : Histogram F) (value weight : F) (t : ℤ)
      → let out = observe_weighted h value weight t in
        (out.cfg ≡ h.cfg) × (out.bounds ≡ h.bounds) × (length out.weights ≡ length h.weights)
  unfolding observe_weighted
  observe_weighted_shape h value weight t =
      let h' : Histogram F = record h { ref_time = some (reference h t) } in
      let (based, ref) = maybe_rebase h' (reference h t) t in
      let (c, b, w) = rebase_shape h' (reference h t) t in
      let (c', b', w') = sample_shape based ref value weight t in
      elim (Bool-cases (less_eq weight nought || (fl.is_nan value || fl.is_inf value))) [
        | inl refused ↦ rw refused (refl, refl, refl)
        | inr taken ↦ rw taken (c' ∙ c, b' ∙ b, w' ∙ w)
      ]

  pub observe_weighted-IsValid :
      (h : Histogram F) (value weight : F) (t : ℤ)
      → IsValid h
      → IsValid (observe_weighted h value weight t)
  observe_weighted-IsValid h value weight t v =
      let (c, b, w) = observe_weighted_shape h value weight t in
      record {
        sized = w ∙ v.sized ∙ ap length (sym b);
        nonempty = rw b v.nonempty;
        laid_out = b ∙ v.laid_out ∙ ap layout (sym c);
        settled = ap coerce c ∙ v.settled ∙ sym c;
      }
    where
      layout : Config F → List F
      layout cfg = bounds_from (pos_part cfg.num_buckets) cfg.ratio cfg.first_bucket_upper

  module _ (laws : IsIeee F) where
    open laws use {decimal_strict, lt_number, lt-eq-not-le}

    lt-not-le : (x y : F) → x ≺ y → less_eq y x ≡ false
    lt-not-le x y h = let (p, q) = lt_number x y h in ground (arith, lt-eq-not-le x y p q)

    pub coerce-coerce : (c : Config F) → coerce (coerce c) ≡ coerce c
    unfolding coerce
    coerce-coerce c = ground (
      arith,
      lt-not-le nought (decimal 1 0)
          (decimal_strict 0 0 1 0 (omega arith) (omega arith) (omega arith) (omega arith)),
      lt-not-le (decimal 1 0) (decimal 12 1)
          (decimal_strict 1 0 12 1 (omega arith) (omega arith) (omega arith) (omega arith)),
    )

    buckets_pos : (c : Config F) → 0 < pos_part (coerce c).num_buckets
    unfolding coerce
    buckets_pos c = ground arith

    pub new-IsValid : (c : Config F) → IsValid (new c)
    unfolding new
    new-IsValid c =
        let n = pos_part (coerce c).num_buckets in
        let len = length-bounds_from n (coerce c).ratio (coerce c).first_bucket_upper in
        record {
          sized = length-replicate n nought ∙ sym len;
          nonempty = rw len (buckets_pos c);
          laid_out = refl;
          settled = coerce-coerce c;
        }

    restore_weights-IsValid :
        (s : Snapshot F) (c : Config F) (h : Histogram F)
        → IsValid h
        → IsValid (restore_weights s c h)
    unfolding restore_weights
    restore_weights-IsValid s c h v = elim (Bool-cases (length s.weights == length h.weights)) [
      | inl fits ↦ rw fits (record {
        sized = ground arith;
        nonempty = v.nonempty;
        laid_out = v.laid_out;
        settled = v.settled;
      })
      | inr other ↦ rw other (elim (Bool-cases (length s.weights == 0)) [
        | inl bare ↦ rw bare v
        | inr changed ↦ rw changed (new-IsValid c)
      ])
    ]

    pub from_snapshot-IsValid : (s : Snapshot F) (c : Config F) → IsValid (from_snapshot s c)
    unfolding from_snapshot
    from_snapshot-IsValid s c =
        let v =
          restore_weights-IsValid s c (new (snapshot_config s)) (new-IsValid (snapshot_config s)) in
        record {
          sized = v.sized;
          nonempty = v.nonempty;
          laid_out = v.laid_out;
          settled = v.settled;
        }

  -- The histograms that the code can come to hold.
  pub data Built : Histogram F → Type 0 where
    fresh : (c : Config F) → Built (new c)
    restored : (s : Snapshot F) (c : Config F) → Built (from_snapshot s c)
    observed :
        {h : Histogram F} (value weight : F) (t : ℤ)
        → Built h
        → Built (observe_weighted h value weight t)

  -- Every histogram that the code can build, from a configuration or a checkpoint of any content
  -- and by any samples, has one weight for each bound, at least one bucket, and the bounds of a
  -- configuration that needs no mending.
  pub Built-IsValid : IsIeee F → {h : Histogram F} → Built h → IsValid h
  Built-IsValid laws (fresh c) = new-IsValid laws c
  Built-IsValid laws (restored s c) = from_snapshot-IsValid laws s c
  Built-IsValid laws (observed {h} value weight t b) =
      observe_weighted-IsValid h value weight t (Built-IsValid laws b)
