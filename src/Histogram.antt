-- ===== src/Histogram.antt =====
-- internal/histogram/histogram.go: the decaying bucketed histogram. A `time.Time` is a number of
-- nanoseconds, `none` where it is the zero time; a `time.Duration` is a number of nanoseconds.
pub mod Layout
pub mod Buckets
pub mod Quantiles
pub mod Peak
pub mod Checkpoint
mod Tests
use kubetidy.Base.{
  ltb, ◌==◌, if◌then◌else◌, length, replicate, ℕ, zero, suc, ◌-◌, ◌*◌, Bool, ◌||◌, Option, none,
  some, List, [], ◌∷◌, map,
}
use kubetidy.Base.Float.{Float64, ◌⊕◌, ◌⊗◌, ◌⊘◌, less, less_eq, decimal, nought, of_int}
use kubetidy.Base.Int.{ℤ, pos, pos_part, ◌-ℤ◌, ◌*ℤ◌, quot, ltb_ℤ, leb_ℤ, eqb_ℤ, time_sub}
use kubetidy.Model.{low}

pub record Config (F : Type 0) : Type 0 where
  pub first_bucket_upper : F
  pub ratio : F
  pub num_buckets : ℤ
  pub half_life : ℤ

pub record Histogram (F : Type 0) : Type 0 where
  pub cfg : Config F
  pub bounds : List F
  pub weights : List F
  pub ref_time : Option ℤ
  pub max_seen : F
  pub total : F

pub record Snapshot (F : Type 0) : Type 0 where
  pub first_bucket_upper : F
  pub ratio : F
  pub num_buckets : ℤ
  pub half_life_seconds : F
  pub weights : List F
  pub ref_time_unix_nano : ℤ
  pub max_seen : F

abbrev pub hour : ℕ
hour = 3_600_000_000_000

abbrev pub default_half_life : ℤ
default_half_life = pos (7 * 24 * hour)

module _ {F : Type 0} ⦃fl : Float64 F⦄ where
  abbrev pub default_cpu_config : Config F
  default_cpu_config = record {
    first_bucket_upper = decimal 1 0;
    ratio = decimal 12 1;
    num_buckets = pos 64;
    half_life = default_half_life;
  }

  abbrev pub default_memory_config : Config F
  default_memory_config = record {
    first_bucket_upper = decimal (1024 * 1024) 0;
    ratio = decimal 125 2;
    num_buckets = pos 64;
    half_life = default_half_life;
  }

  -- A half-life that is not positive leaves the configured one.
  unfoldable pub with_half_life : Config F → ℤ → Config F
  with_half_life c d = if ltb_ℤ (pos 0) d then record c { half_life = d } else c

  -- The start of `New`: a configuration that cannot work is mended.
  unfoldable pub coerce : Config F → Config F
  coerce cfg = record {
    first_bucket_upper =
        if less_eq cfg.first_bucket_upper nought then decimal 1 0 else cfg.first_bucket_upper;
    ratio = if less_eq cfg.ratio (decimal 1 0) then decimal 12 1 else cfg.ratio;
    num_buckets = if ltb_ℤ cfg.num_buckets (pos 1) then pos 1 else cfg.num_buckets;
    half_life = if leb_ℤ cfg.half_life (pos 0) then pos (24 * hour) else cfg.half_life;
  }

  -- The loop of `New`: `n` bounds from `bound` on, each the last one times the ratio.
  unfoldable pub bounds_from : ℕ → F → F → List F
  bounds_from zero ratio bound = []
  bounds_from (suc n) ratio bound = bound ∷ bounds_from n ratio (bound ⊗ ratio)

  -- `New`
  unfoldable pub new : Config F → Histogram F
  unfolding coerce
  new config =
      let cfg = coerce config in
      let n = pos_part cfg.num_buckets in
      record {
        cfg = cfg;
        bounds = bounds_from n cfg.ratio cfg.first_bucket_upper;
        weights = replicate n nought;
        ref_time = none;
        max_seen = nought;
        total = nought;
      }

  -- The loop of `bucketFor`; past the last bound it is the last bucket.
  unfoldable pub bucket_in : List F → F → ℕ
  bucket_in [] value = 0
  bucket_in (b ∷ bs) value = if less_eq value b then 0 else suc (bucket_in bs value)

  unfoldable pub bucket_for : Histogram F → F → ℕ
  bucket_for h value =
      let i = bucket_in h.bounds value in if ltb i (length h.bounds) then i else length h.bounds - 1

  -- `Duration.Seconds`: whole seconds and the rest are converted apart.
  unfoldable pub seconds : ℤ → F
  unfolding quot ◌-ℤ◌ ◌*ℤ◌
  seconds d =
      of_int (quot d 1_000_000_000)
      ⊕ (of_int (d -ℤ quot d 1_000_000_000 *ℤ pos 1_000_000_000) ⊘ decimal 1_000_000_000 0)

  -- The half-lives from the reference time to `t`.
  unfoldable pub half_lives : Histogram F → ℤ → ℤ → F
  unfolding time_sub
  half_lives h ref t = seconds (time_sub t ref) ⊘ seconds h.cfg.half_life

  -- `decayFactor`
  unfoldable pub decay_factor : Histogram F → ℤ → ℤ → F
  unfolding half_lives
  decay_factor h ref t = fl.exp2 (half_lives h ref t)

  abbrev pub rebase_threshold : F
  rebase_threshold = decimal 16 0

  abbrev pub divide_all : F → List F → List F
  divide_all factor = map (λ w. w ⊘ factor)

  -- `maybeRebase`, from the reference time at hand: the histogram and its reference time after it.
  unfoldable pub maybe_rebase : Histogram F → ℤ → ℤ → Histogram F × ℤ
  maybe_rebase h ref t =
      let factor = fl.exp2 (half_lives h ref t) in
      if less (half_lives h ref t) rebase_threshold then (h, ref) else (
        record h {
          weights = divide_all factor h.weights;
          total = h.total ⊘ factor;
          ref_time = some t;
        },
        t,
      )

  -- `h.weights[i] += x`
  unfoldable pub add_at : List F → ℕ → F → List F
  add_at [] i x = []
  add_at (w ∷ ws) zero x = (w ⊕ x) ∷ ws
  add_at (w ∷ ws) (suc i) x = w ∷ add_at ws i x

  -- The end of `ObserveWeighted`, at a settled reference time.
  unfoldable pub record_sample : Histogram F → ℤ → F → F → ℤ → Histogram F
  unfolding decay_factor bucket_for
  record_sample h ref value weight t =
      let scaled = weight ⊗ decay_factor h ref t in
      record h {
        weights = add_at h.weights (bucket_for h value) scaled;
        total = h.total ⊕ scaled;
        max_seen = if less h.max_seen value then value else h.max_seen;
      }

  -- The reference time that a sample at `t` meets: its own, if there is none yet.
  abbrev pub reference : Histogram F → ℤ → ℤ
  reference h t = elim h.ref_time [ none ↦ t | some ref ↦ ref ]

  unfoldable pub observe_weighted : Histogram F → F → F → ℤ → Histogram F
  unfolding maybe_rebase record_sample
  observe_weighted h value weight t =
      if less_eq weight nought || (fl.is_nan value || fl.is_inf value)
      then h
      else let (based, ref) =
          maybe_rebase (record h { ref_time = some (reference h t) }) (reference h t) t in
        record_sample based ref value weight t

  unfoldable pub observe : Histogram F → F → ℤ → Histogram F
  unfolding observe_weighted
  observe h value t = observe_weighted h value (decimal 1 0) t

  -- The loop of `Percentile`: `none` where the accumulated weight never reaches the target.
  unfoldable pub reach : List F → List F → F → F → Option F
  reach (b ∷ bs) (w ∷ ws) cumulative target =
      if less_eq target (cumulative ⊕ w) then some b else reach bs ws (cumulative ⊕ w) target
  reach _ _ cumulative target = none

  unfoldable pub last_or : List F → F → F
  last_or [] d = d
  last_or (b ∷ bs) d = last_or bs b

  abbrev pub quantile : F → F
  quantile q =
      let low = if less q nought then nought else q in
      if less (decimal 1 0) low then decimal 1 0 else low

  unfoldable pub percentile : Histogram F → F → F
  percentile h q =
      if less_eq h.total nought
      then nought
      else elim (reach h.bounds h.weights nought (quantile q ⊗ h.total)) [
        | none ↦ last_or h.bounds nought
        | some b ↦ b
      ]

  -- The loop of `Mean`.
  unfoldable pub weighted_sum : List F → List F → F → F
  weighted_sum (b ∷ bs) (w ∷ ws) sum = weighted_sum bs ws (sum ⊕ b ⊗ w)
  weighted_sum _ _ sum = sum

  unfoldable pub mean : Histogram F → F
  mean h =
      if less_eq h.total nought then nought else weighted_sum h.bounds h.weights nought ⊘ h.total

  unfoldable pub is_unobserved : Histogram F → Bool
  is_unobserved h = less_eq h.total nought

  unfoldable pub to_snapshot : Histogram F → Snapshot F
  to_snapshot h = record {
    first_bucket_upper = h.cfg.first_bucket_upper;
    ratio = h.cfg.ratio;
    num_buckets = h.cfg.num_buckets;
    half_life_seconds = seconds h.cfg.half_life;
    weights = h.weights;
    ref_time_unix_nano = elim h.ref_time [ none ↦ pos 0 | some t ↦ t ];
    max_seen = h.max_seen;
  }

  unfoldable pub sum_from : F → List F → F
  sum_from sum [] = sum
  sum_from sum (w ∷ ws) = sum_from (sum ⊕ w) ws

  abbrev pub snapshot_config : Snapshot F → Config F
  snapshot_config s = record {
    first_bucket_upper = s.first_bucket_upper;
    ratio = s.ratio;
    num_buckets = s.num_buckets;
    half_life = fl.truncate (s.half_life_seconds ⊗ decimal 1_000_000_000 0);
  }

  -- The weights of `FromSnapshot`: the stored ones, if they fit the buckets; a layout that does not
  -- fit starts over with the fallback; no weights at all leave the histogram as it is new.
  unfoldable pub restore_weights : Snapshot F → Config F → Histogram F → Histogram F
  unfolding new sum_from
  restore_weights s fallback h =
      if length s.weights == length h.weights
      then record h { weights = s.weights; total = sum_from h.total s.weights }
      else if length s.weights == 0
      then h
      else new fallback

  unfoldable pub from_snapshot : Snapshot F → Config F → Histogram F
  unfolding restore_weights new
  from_snapshot s fallback =
      let h = restore_weights s fallback (new (snapshot_config s)) in
      record h {
        max_seen = s.max_seen;
        ref_time =
            if eqb_ℤ s.ref_time_unix_nano (pos 0) then h.ref_time else some s.ref_time_unix_nano;
      }
