-- ===== src/Histogram/Tests.antt =====
-- A histogram over `Fixed`, and the theorems at it.
use mathlib.Core.List.{Memᴰ}
use kubetidy.Base.{length, All, ℕ, ◌+◌, ◌*◌, ◌<◌, ◌≡◌, refl, ◌⊎◌, List, [], ◌∷◌}
use kubetidy.Base.Fixed.{Fixed, fixed_float}
use kubetidy.Base.FixedLaws.{Fixed-IsIeee}
use kubetidy.Base.Float.{decimal, nought, ◌≼◌}
use kubetidy.Base.Int.{pos}
use kubetidy.Histogram.{
  Config, Histogram, hour, default_cpu_config, bounds_from, new, bucket_in, bucket_for, seconds,
  half_lives, add_at, observe_weighted, reach, last_or, percentile, to_snapshot, sum_from,
  from_snapshot,
}
use kubetidy.Histogram.Buckets.{Takes, AllBelow, bucket_for_first}
use kubetidy.Histogram.Checkpoint.{from_snapshot-to_snapshot}
use kubetidy.Histogram.Layout.{IsValid, new-IsValid, Built, Built-IsValid}
use kubetidy.Histogram.Peak.{Reading, observe_all, taken_values, max_seen_exact}
use kubetidy.Histogram.Quantiles.{percentile_mono}

abbrev small : Config Fixed
small = record {
  first_bucket_upper = decimal 10 0;
  ratio = decimal 2 0;
  num_buckets = pos 4;
  half_life = pos (24 * hour);
}

abbrev reading : ℕ → ℕ → ℕ → Reading Fixed
reading v w t = record { value = decimal v 0; weight = decimal w 0; time = pos (t * hour) }

abbrev readings : List (Reading Fixed)
readings = reading 15 1 1 ∷ reading 500 1 2 ∷ reading 70 0 3 ∷ reading 35 1 4 ∷ []

abbrev seen : Histogram Fixed
seen = observe_all (new small) readings

-- the buckets are 10, 20, 40 and 80
seen_bounds : seen.bounds ≡ decimal 10 0 ∷ decimal 20 0 ∷ decimal 40 0 ∷ decimal 80 0 ∷ []
unfolding observe_all observe_weighted new bounds_from half_lives seconds add_at bucket_in
seen_bounds = refl

seen_max : seen.max_seen ≡ decimal 500 0
unfolding observe_all observe_weighted new bounds_from half_lives seconds add_at bucket_in
seen_max = refl

seen_median : percentile seen (decimal 5 1) ≡ decimal 40 0
unfolding observe_all observe_weighted new bounds_from half_lives seconds add_at bucket_in
    percentile reach last_or
seen_median = refl

abbrev built : Built (observe_weighted (new small) (decimal 15 0) (decimal 1 0) (pos hour))
built = Built.observed (decimal 15 0) (decimal 1 0) (pos hour) (Built.fresh small)

Built-IsValid_example :
    IsValid (observe_weighted (new small) (decimal 15 0) (decimal 1 0) (pos hour))
Built-IsValid_example = Built-IsValid Fixed-IsIeee built

bucket_for_first_example :
    let i = bucket_for (new small) (decimal 35 0) in
    (i < length (new small).bounds)
    × AllBelow (new small).bounds i (decimal 35 0)
    × (Takes (new small).bounds i (decimal 35 0) ⊎ (i + 1 ≡ length (new small).bounds))
bucket_for_first_example =
    bucket_for_first (new small) (decimal 35 0) (new-IsValid Fixed-IsIeee small).nonempty

percentile_mono_example : percentile seen (decimal 5 1) ≼ percentile seen (decimal 95 2)
unfolding observe_all observe_weighted new bounds_from half_lives seconds add_at bucket_in
percentile_mono_example =
    percentile_mono Fixed-IsIeee seen (decimal 5 1) (decimal 95 2)
      (refl, (refl, (refl, (refl, tt)))) refl refl refl

max_seen_exact_example :
    let peak = (observe_all (new small) readings).max_seen in
    ((new small).max_seen ≼ peak)
    × All (λ x. x ≼ peak) (taken_values readings)
    × ((peak ≡ (new small).max_seen) ⊎ Memᴰ peak (taken_values readings))
unfolding new
max_seen_exact_example = max_seen_exact Fixed-IsIeee (new small) readings refl

from_snapshot-to_snapshot_example :
    from_snapshot (to_snapshot (new small)) default_cpu_config
    ≡ record (new small) { total = sum_from nought (new small).weights }
unfolding new seconds
from_snapshot-to_snapshot_example =
    from_snapshot-to_snapshot (new small) default_cpu_config (new-IsValid Fixed-IsIeee small) refl
      (λ e. cc)
