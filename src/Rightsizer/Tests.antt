-- ===== src/Rightsizer/Tests.antt =====
-- Runs of the rightsizer over `Fixed`, and its theorems at inputs that meet their hypotheses.
use kubetidy.Base.{ℕ, ◌+◌, ◌*◌, ◌≤◌, ◌<◌, ◌≡◌, refl, ◌⊎◌, inl, inr, arith}
use kubetidy.Base.Fixed.{Fixed, digit_count, fixed_float}
use kubetidy.Base.FixedLaws.{Fixed-IsIeee}
use kubetidy.Base.Float.{decimal, nought, ◌≼◌}
use kubetidy.Base.Int.{pos, ◌≤ℤ◌}
use kubetidy.Base.Text.{codes}
use kubetidy.Model.{
  EvidenceTier, snapshot, operator, historical, ResourceAmounts, ResourceSpec, Percentiles,
  UsageStats, Policy, low, default_policy, band,
}
use kubetidy.Rightsizer.{
  mib, round_non_negative, round_up_mib, hours, mature_window_hours, mature_samples, immature_floor,
  data_maturity, cpu_headroom_of, memory_headroom_of, cpu_request, memory_request, recommend,
  tier_base, variance_penalty, worst_cv, tier_score, confidence_score,
}
use kubetidy.Rightsizer.Coverage.{IsBounded, recommend_covers, recommend_mono}
use kubetidy.Rightsizer.Limits.{IsAdmissible, recommend-IsAdmissible}
use kubetidy.Rightsizer.Mebibytes.{IsAligned, round_up_mib_least}
use kubetidy.Rightsizer.Safety.{recommend-snapshot-le, recommend_floors, recommend-IsAligned}
use kubetidy.Rightsizer.Settling.{recommend-recommend}
use kubetidy.Rightsizer.Variation.{confidence_score-antitone}
use kubetidy.Rightsizer.Trust.{band-snapshot, confidence-windowless}

abbrev amounts : ℕ → ℕ → ResourceAmounts
amounts cpu mem = record { cpu_millicores = pos cpu; memory_bytes = pos mem }

abbrev spec : ResourceSpec
spec = record { requests = amounts 2000 536_870_912; limits = amounts 0 536_870_912 }

abbrev measured : ℕ → ℕ → Percentiles Fixed
measured p m = record {
  avg = nought;
  p50 = nought;
  p95 = decimal p 0;
  p99 = nought;
  peak = decimal m 0;
  cv = decimal 2 1;
}

abbrev observed : EvidenceTier → ℕ → ℕ → UsageStats Fixed
observed tier cpu mem = record {
  cpu_millicores = measured cpu cpu;
  memory_bytes = measured mem mem;
  window = pos 0;
  samples = pos 9;
  tier = tier;
}

abbrev policy : Policy Fixed
policy = default_policy

-- 280m at the 95th percentile and a peak of 100 MiB, with 15% and 115% on top
historical_proposal :
    recommend spec (observed historical 280 104_857_600) policy
    ≡ record { requests = amounts 322 225_443_840; limits = amounts 0 225_443_840 }
unfolding recommend cpu_request memory_request round_non_negative round_up_mib cpu_headroom_of
    memory_headroom_of data_maturity hours mature_window_hours mature_samples digit_count
historical_proposal = refl

-- a snapshot neither cuts below the floors nor grows
snapshot_proposal :
    recommend spec (observed snapshot 1 900_000_000) policy
    ≡ record { requests = amounts 10 536_870_912; limits = amounts 0 536_870_912 }
unfolding recommend cpu_request memory_request round_non_negative round_up_mib cpu_headroom_of
    memory_headroom_of
snapshot_proposal = refl

round_up_mib_least_example :
    (r : ℕ) × (round_up_mib (pos 5_000_000) ≡ pos (r * mib))
    × (5_000_000 ≤ r * mib)
    × (r * mib < 5_000_000 + mib)
round_up_mib_least_example = round_up_mib_least 5_000_000 (omega arith)

recommend-IsAdmissible_example : IsAdmissible (recommend spec (observed historical 280 9) policy)
recommend-IsAdmissible_example =
    recommend-IsAdmissible spec (observed historical 280 9) policy refl
      (record { cpu = inl refl; memory = inr (omega arith) })

recommend-recommend_example :
    recommend (recommend spec (observed operator 280 9) policy) (observed operator 280 9) policy
    ≡ recommend spec (observed operator 280 9) policy
recommend-recommend_example = recommend-recommend spec (observed operator 280 9) policy

recommend-snapshot-le_example :
    let out = recommend spec (observed snapshot 5000 9) policy in
    ((pos 2000 ≤ℤ pos 0) ⊎ (out.requests.cpu_millicores ≤ℤ pos 2000))
    × ((pos 536_870_912 ≤ℤ pos 0) ⊎ (out.requests.memory_bytes ≤ℤ pos 536_870_912))
recommend-snapshot-le_example =
    recommend-snapshot-le spec (observed snapshot 5000 9) policy refl refl

recommend_floors_example :
    let out = recommend spec (observed operator 1 1) policy in
    ((pos 10 ≤ℤ out.requests.cpu_millicores)
      ⊎ ((operator ≡ snapshot) × (out.requests.cpu_millicores ≡ pos 2000)))
    × ((round_up_mib (pos 33_554_432) ≤ℤ out.requests.memory_bytes)
        ⊎ ((operator ≡ snapshot) × (out.requests.memory_bytes ≡ pos 536_870_912)))
recommend_floors_example =
    recommend_floors spec (observed operator 1 1) policy refl refl (omega arith) (omega arith)

recommend-IsAligned_example :
    let out = recommend spec (observed operator 7 12_345_678) policy in
    IsAligned out.requests.memory_bytes ⊎ (out.requests.memory_bytes ≡ pos 536_870_912)
recommend-IsAligned_example = recommend-IsAligned spec (observed operator 7 12_345_678) policy

abbrev light : UsageStats Fixed
light = observed historical 280 104_857_600

abbrev heavy : UsageStats Fixed
heavy = observed historical 300 204_857_600

light-IsBounded : IsBounded light policy
unfolding cpu_headroom_of memory_headroom_of data_maturity hours mature_window_hours mature_samples
    digit_count
light-IsBounded = record {
  cpu_seen = refl;
  memory_seen = refl;
  cpu_cushion = refl;
  memory_cushion = refl;
  cpu_fits = refl;
  memory_fits = refl;
}

heavy-IsBounded : IsBounded heavy policy
unfolding cpu_headroom_of memory_headroom_of data_maturity hours mature_window_hours mature_samples
    digit_count
heavy-IsBounded = record {
  cpu_seen = refl;
  memory_seen = refl;
  cpu_cushion = refl;
  memory_cushion = refl;
  cpu_fits = refl;
  memory_fits = refl;
}

recommend_covers_example :
    let out = recommend spec light policy in
    (pos 280 ≤ℤ out.requests.cpu_millicores) × (pos 104_857_600 ≤ℤ out.requests.memory_bytes)
recommend_covers_example = recommend_covers Fixed-IsIeee spec light policy light-IsBounded refl

recommend_mono_example :
    let a = recommend spec light policy in
    let b = recommend spec heavy policy in
    (a.requests.cpu_millicores ≤ℤ b.requests.cpu_millicores)
    × (a.requests.memory_bytes ≤ℤ b.requests.memory_bytes)
recommend_mono_example =
    recommend_mono Fixed-IsIeee spec light heavy policy light-IsBounded heavy-IsBounded
      (ground arith)

-- The processor of the same workload jumps about.
abbrev jumpy : UsageStats Fixed
jumpy = record light { cpu_millicores = record light.cpu_millicores { cv = decimal 9 1 } }

confidence_score-antitone_example : confidence_score jumpy ≼ confidence_score light
unfolding tier_score variance_penalty worst_cv tier_base immature_floor data_maturity hours
    mature_window_hours mature_samples digit_count
confidence_score-antitone_example =
    confidence_score-antitone Fixed-IsIeee light jumpy
      (record {
        same_tier = refl;
        same_window = refl;
        same_samples = refl;
        cpu = refl;
        memory = refl;
      })
      refl refl

band-snapshot_example :
    band (record { score = confidence_score (observed snapshot 9 9); reason = codes "one reading" })
    ≡ low
unfolding tier_score variance_penalty tier_base
band-snapshot_example =
    band-snapshot Fixed-IsIeee (observed snapshot 9 9) (codes "one reading") refl refl

confidence-windowless_example : confidence_score (observed operator 9 9) ≼ immature_floor
unfolding tier_score variance_penalty tier_base immature_floor data_maturity hours
    mature_window_hours mature_samples digit_count
confidence-windowless_example =
    confidence-windowless Fixed-IsIeee (observed operator 9 9) refl refl
      (record { window = refl; samples = refl }) refl
