-- ===== src/Histogram/Checkpoint.antt =====
-- `ToSnapshot` and `FromSnapshot`: what a checkpoint keeps.
use kubetidy.Base.{
  if◌then◌else◌, ==_iff, Bool-cases, length, replicate, length-replicate, ◌≡◌, refl, sym, ap, ◌∙◌,
  ◌≢◌, inl, inr, Option, none, some,
}
use kubetidy.Base.Float.{Float64, ◌⊗◌, decimal, nought}
use kubetidy.Base.Int.{ℤ, pos, pos_part, eqb_ℤ, eqb_ℤ_iff}
use kubetidy.Histogram.{
  Config, Histogram, Snapshot, bounds_from, new, seconds, to_snapshot, sum_from, snapshot_config,
  restore_weights, from_snapshot,
}
use kubetidy.Histogram.Layout.{IsValid, length-bounds_from}

reference_back :
    (o : Option ℤ)
    → o ≢ some (pos 0)
    → let nano : ℤ = elim o [ none ↦ pos 0 | some t ↦ t ] in
      (if eqb_ℤ nano (pos 0) then none else some nano) ≡ o
reference_back none h = refl
reference_back (some t) h = elim (Bool-cases (eqb_ℤ t (pos 0))) [
  | inl zero_time ↦ absurd (h (ap some ((eqb_ℤ_iff t (pos 0)).0 zero_time)))
  | inr other ↦ rw other
]

module _ {F : Type 0} ⦃fl : Float64 F⦄ where
  -- The half-life comes back from its seconds.
  abbrev pub IsExact : Histogram F → Type 0
  IsExact h = fl.truncate (seconds h.cfg.half_life ⊗ decimal 1_000_000_000 0) ≡ h.cfg.half_life

  snapshot_config-to_snapshot :
      (h : Histogram F) → IsExact h → snapshot_config (to_snapshot h) ≡ h.cfg
  unfolding to_snapshot
  snapshot_config-to_snapshot h e = λ i. record h.cfg { half_life = e i }

  -- `New`, once its configuration is mended.
  laid_out_from : Config F → Histogram F
  laid_out_from c = record {
    cfg = c;
    bounds = bounds_from (pos_part c.num_buckets) c.ratio c.first_bucket_upper;
    weights = replicate (pos_part c.num_buckets) nought;
    ref_time = none;
    max_seen = nought;
    total = nought;
  }

  -- A valid histogram before its first sample.
  blank : Histogram F → Histogram F
  blank h = record h {
    weights = replicate (pos_part h.cfg.num_buckets) nought;
    ref_time = none;
    max_seen = nought;
    total = nought;
  }

  new-blank : (h : Histogram F) → IsValid h → new h.cfg ≡ blank h
  unfolding new laid_out_from blank
  new-blank h v = ap laid_out_from v.settled ∙ λ i. record (blank h) { bounds = sym v.laid_out i }

  restore_fitting :
      (s : Snapshot F) (fallback : Config F) (h : Histogram F)
      → length s.weights ≡ length h.weights
      → restore_weights s fallback h
        ≡ record h { weights = s.weights; total = sum_from h.total s.weights }
  unfolding restore_weights
  restore_fitting s fallback h e = rw ((==_iff _ _).1 e)

  -- A checkpoint of a valid histogram whose half-life survives the conversion to seconds and whose
  -- reference time is not the instant 0 restores it: the configuration, the bounds, every weight,
  -- the reference time and the peak, whatever the fallback. The total is the sum of the weights.
  pub from_snapshot-to_snapshot :
      (h : Histogram F) (fallback : Config F)
      → IsValid h
      → IsExact h
      → h.ref_time ≢ some (pos 0)
      → from_snapshot (to_snapshot h) fallback ≡ record h { total = sum_from nought h.weights }
  unfolding from_snapshot to_snapshot blank
  from_snapshot-to_snapshot h fallback v e r =
      ap finish (ap (restore_weights (to_snapshot h) fallback) start ∙ fitting) ∙ λ i. record h {
        total = sum_from nought h.weights;
        ref_time = reference_back h.ref_time r i;
      }
    where
      finish : Histogram F → Histogram F
      finish k = record k {
        max_seen = h.max_seen;
        ref_time =
            if eqb_ℤ (to_snapshot h).ref_time_unix_nano (pos 0)
            then k.ref_time
            else some (to_snapshot h).ref_time_unix_nano;
      }

      start : new (snapshot_config (to_snapshot h)) ≡ blank h
      start = ap new (snapshot_config-to_snapshot h e) ∙ new-blank h v

      fitting :
          restore_weights (to_snapshot h) fallback (blank h)
          ≡ record (blank h) { weights = h.weights; total = sum_from nought h.weights }
      fitting = restore_fitting (to_snapshot h) fallback (blank h) (
          v.sized
          ∙ ap length v.laid_out
          ∙ length-bounds_from _ _ _
          ∙ sym (length-replicate (pos_part h.cfg.num_buckets) nought))
