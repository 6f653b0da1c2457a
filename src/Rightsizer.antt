-- ===== src/Rightsizer.antt =====
-- internal/rightsizer/rightsizer.go: from observed usage to a proposed request and limit, and the
-- confidence in that proposal. `recommend` is cut at the source's own seams: the effective headroom,
-- the processor part and the memory part.
pub mod Mebibytes
pub mod Limits
pub mod Safety
pub mod Settling
pub mod Coverage
pub mod Trust
pub mod Variation
mod Tests
use Prim.Native.Nat.{min, max}
use kubetidy.Base.{if◌then◌else◌, ℕ, ◌*◌, Bool, ◌&&◌, ◌||◌}
use kubetidy.Base.Float.{Float64, ◌⊕◌, ◌⊖◌, ◌⊗◌, ◌⊘◌, less, less_eq, decimal, nought, of_int}
use kubetidy.Base.Int.{ℤ, pos, ◌-ℤ◌, ◌*ℤ◌, quot, ltb_ℤ, leb_ℤ, add64, sub64, mul64}
use kubetidy.Model.{
  EvidenceTier, static, snapshot, operator, historical, allocated, is_snapshot, ResourceSpec,
  UsageStats, Policy,
}

abbrev pub mib : ℕ
mib = 1024 * 1024

module _ {F : Type 0} ⦃fl : Float64 F⦄ where
  -- NaN, infinities and what is not positive count as 0.
  unfoldable pub round_non_negative : F → ℤ
  round_non_negative v =
      if fl.is_nan v || fl.is_inf v || less_eq v nought then pos 0 else fl.round v

  unfoldable pub clamp : F → F → F → F
  clamp v lo hi = if less v lo then lo else if less hi v then hi else v

  unfoldable pub clamp01 : F → F
  unfolding clamp
  clamp01 v = clamp v nought (decimal 1 0)

-- The next whole mebibyte, in `int64` arithmetic.
unfoldable pub round_up_mib : ℤ → ℤ
unfolding add64 sub64 mul64 quot
round_up_mib bytes =
    if leb_ℤ bytes (pos 0)
    then pos 0
    else mul64 (quot (sub64 (add64 bytes (pos mib)) (pos 1)) mib) (pos mib)

module _ {F : Type 0} ⦃fl : Float64 F⦄ where
  -- `Duration.Hours`: whole hours and the rest are converted apart.
  unfoldable pub hours : ℤ → F
  unfolding quot ◌-ℤ◌ ◌*ℤ◌
  hours d =
      of_int (quot d 3_600_000_000_000)
      ⊕ (of_int (d -ℤ quot d 3_600_000_000_000 *ℤ pos 3_600_000_000_000)
          ⊘ decimal 3_600_000_000_000 0)

  unfoldable pub mature_window_hours : F
  mature_window_hours = decimal 72 0

  unfoldable pub mature_samples : F
  mature_samples = decimal 8000 0

  unfoldable pub immature_floor : F
  immature_floor = decimal 30 2

  -- `dataMaturity`, from the window and the number of samples.
  unfoldable pub maturity_of : ℤ → ℤ → F
  unfolding clamp01
  maturity_of window samples =
      let window_maturity = clamp01 (hours window ⊘ mature_window_hours) in
      let sample_maturity =
        if ltb_ℤ (pos 1) samples
        then clamp01 (fl.log10 (of_int samples) ⊘ fl.log10 mature_samples)
        else nought in
      fl.min window_maturity sample_maturity

  unfoldable pub data_maturity : UsageStats F → F
  unfolding maturity_of
  data_maturity usage = maturity_of usage.window usage.samples

  -- The fraction that is added to a percentile: `cpuHeadroom` and `memHeadroom`.
  unfoldable pub cpu_headroom_of : UsageStats F → Policy F → F
  cpu_headroom_of usage policy =
      if is_snapshot usage.tier
      then policy.cpu_headroom ⊕ policy.snapshot_headroom
      else policy.cpu_headroom

  unfoldable pub memory_headroom_of : UsageStats F → Policy F → F
  memory_headroom_of usage policy =
      if is_snapshot usage.tier
      then policy.memory_headroom ⊕ policy.snapshot_headroom
      else policy.memory_headroom
        ⊕ (decimal 1 0 ⊖ data_maturity usage) ⊗ policy.memory_immature_safety

-- A floor that the policy leaves at 0 is no floor.
unfoldable pub floored : Bool → ℤ → ℤ → ℤ
floored enabled floor v = if enabled && ltb_ℤ v floor then floor else v

-- A single sample never justifies growth.
unfoldable pub downsized : Bool → ℤ → ℤ → ℤ
downsized only current v = if only && (ltb_ℤ (pos 0) current && ltb_ℤ current v) then current else v

module _ {F : Type 0} ⦃fl : Float64 F⦄ where
  -- The request for a metric with usage.
  unfoldable pub cpu_request : ResourceSpec → UsageStats F → Policy F → ℤ
  unfolding floored downsized
  cpu_request current usage policy =
      let cpu =
        round_non_negative
          (usage.cpu_millicores.p95 ⊗ (decimal 1 0 ⊕ cpu_headroom_of usage policy)) in
      downsized (is_snapshot usage.tier && policy.downsize_only_on_snapshot)
        current.requests.cpu_millicores
        (floored (ltb_ℤ (pos 0) policy.min_cpu_request_millicores) policy.min_cpu_request_millicores
          cpu)

  unfoldable pub memory_request : ResourceSpec → UsageStats F → Policy F → ℤ
  unfolding floored downsized
  memory_request current usage policy =
      let mem = round_up_mib (
        round_non_negative
          (usage.memory_bytes.peak ⊗ (decimal 1 0 ⊕ memory_headroom_of usage policy))) in
      downsized (is_snapshot usage.tier && policy.downsize_only_on_snapshot)
        current.requests.memory_bytes
        (floored (ltb_ℤ (pos 0) policy.min_memory_request_bytes)
          (round_up_mib policy.min_memory_request_bytes) mem)

  -- Request and limit of one metric. With no usage both stay as they are.
  unfoldable pub recommend_cpu : ResourceSpec → UsageStats F → Policy F → ℤ × ℤ
  recommend_cpu current usage policy =
      if less nought usage.cpu_millicores.p95
      then (
        cpu_request current usage policy,
        if policy.set_cpu_limit then cpu_request current usage policy else pos 0,
      )
      else (current.requests.cpu_millicores, current.limits.cpu_millicores)

  unfoldable pub recommend_memory : ResourceSpec → UsageStats F → Policy F → ℤ × ℤ
  recommend_memory current usage policy =
      if less nought usage.memory_bytes.peak
      then (
        memory_request current usage policy,
        if policy.memory_limit_equals_request
            then memory_request current usage policy
            else current.limits.memory_bytes,
      )
      else (current.requests.memory_bytes, current.limits.memory_bytes)

  unfoldable pub recommend : ResourceSpec → UsageStats F → Policy F → ResourceSpec
  unfolding recommend_cpu recommend_memory
  recommend current usage policy =
      let cpu = recommend_cpu current usage policy in
      let mem = recommend_memory current usage policy in
      record {
        requests = record { cpu_millicores = cpu.0; memory_bytes = mem.0 };
        limits = record { cpu_millicores = cpu.1; memory_bytes = mem.1 };
      }

  -- The starting confidence of a tier.
  unfoldable pub tier_base : EvidenceTier → F
  tier_base historical = decimal 9 1
  tier_base allocated = decimal 9 1
  tier_base operator = decimal 85 2
  tier_base snapshot = decimal 5 1
  tier_base static = decimal 25 2

  -- The higher coefficient of variation, not below 0.
  unfoldable pub worst_cv : UsageStats F → F
  worst_cv usage =
      let cv = fl.max usage.cpu_millicores.cv usage.memory_bytes.cv in
      if less cv nought then nought else cv

  unfoldable pub variance_penalty : UsageStats F → F
  unfolding worst_cv clamp01
  variance_penalty usage = decimal 3 1 ⊗ clamp01 (worst_cv usage)

  -- The score before it is clamped: time-series tiers earn their base as the data matures.
  unfoldable pub tier_score : EvidenceTier → UsageStats F → F
  tier_score static usage = tier_base static ⊖ variance_penalty usage
  tier_score snapshot usage =
      let score = tier_base snapshot ⊖ variance_penalty usage in
      if less (decimal 6 1) score then decimal 6 1 else score
  tier_score tier usage =
      immature_floor
      ⊕ data_maturity usage ⊗ (tier_base tier ⊖ immature_floor)
      ⊖ variance_penalty usage

  unfoldable pub confidence_score : UsageStats F → F
  unfolding clamp
  confidence_score usage = clamp (tier_score usage.tier usage) (decimal 5 2) (decimal 99 2)
