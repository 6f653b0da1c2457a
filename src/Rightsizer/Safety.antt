-- ===== src/Rightsizer/Safety.antt =====
-- The protections of `Recommend`: no growth from a snapshot, floors, and whole mebibytes.
use kubetidy.Base.{◌≡◌, ◌⊎◌, true, arith}
use kubetidy.Base.Float.{Float64, ◌⊕◌, ◌⊗◌, less, decimal, nought}
use kubetidy.Base.Int.{pos, ◌≤ℤ◌, ◌<ℤ◌}
use kubetidy.Model.{snapshot, ResourceSpec, UsageStats, Policy}
use kubetidy.Rightsizer.{
  round_non_negative, round_up_mib, memory_headroom_of, cpu_request, memory_request, recommend,
}
use kubetidy.Rightsizer.Mebibytes.{IsAligned, round_up_mib-IsAligned}

module _ {F : Type 0} ⦃fl : Float64 F⦄ (current : ResourceSpec) (usage : UsageStats F)
    (policy : Policy F) where
  -- From a single snapshot, under a policy that only downsizes, `Recommend` never raises a request
  -- that is set, of either metric, whatever the usage.
  pub recommend-snapshot-le :
      usage.tier ≡ snapshot
      → policy.downsize_only_on_snapshot ≡ true
      → let out = recommend current usage policy in
        ((current.requests.cpu_millicores ≤ℤ pos 0)
          ⊎ (out.requests.cpu_millicores ≤ℤ current.requests.cpu_millicores))
        × ((current.requests.memory_bytes ≤ℤ pos 0)
            ⊎ (out.requests.memory_bytes ≤ℤ current.requests.memory_bytes))
  unfolding recommend cpu_request memory_request
  recommend-snapshot-le e d = ground arith

  -- With usage of both metrics and both floors set, each proposed request reaches its floor (that
  -- of memory rounded up to a mebibyte), unless it is the current request of a snapshot.
  pub recommend_floors :
      less nought usage.cpu_millicores.p95 ≡ true
      → less nought usage.memory_bytes.peak ≡ true
      → pos 0 <ℤ policy.min_cpu_request_millicores
      → pos 0 <ℤ policy.min_memory_request_bytes
      → let out = recommend current usage policy in
        ((policy.min_cpu_request_millicores ≤ℤ out.requests.cpu_millicores)
          ⊎ ((usage.tier ≡ snapshot)
              × (out.requests.cpu_millicores ≡ current.requests.cpu_millicores)))
        × ((round_up_mib policy.min_memory_request_bytes ≤ℤ out.requests.memory_bytes)
            ⊎ ((usage.tier ≡ snapshot)
                × (out.requests.memory_bytes ≡ current.requests.memory_bytes)))
  unfolding recommend cpu_request memory_request
  recommend_floors p q a b = ground arith

  -- The proposed memory request is a whole number of mebibytes, or the current request.
  pub recommend-IsAligned :
      let out = recommend current usage policy in
      IsAligned out.requests.memory_bytes
      ⊎ (out.requests.memory_bytes ≡ current.requests.memory_bytes)
  unfolding recommend memory_request
  recommend-IsAligned =
      let raw =
        round_non_negative
          (usage.memory_bytes.peak ⊗ (decimal 1 0 ⊕ memory_headroom_of usage policy)) in
      ground
        (arith, round_up_mib-IsAligned raw, round_up_mib-IsAligned policy.min_memory_request_bytes)
