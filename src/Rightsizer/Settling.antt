-- ===== src/Rightsizer/Settling.antt =====
-- `Recommend` after its proposal is applied.
use kubetidy.Base.{◌≡◌, arith}
use kubetidy.Base.Float.{Float64}
use kubetidy.Model.{ResourceSpec, UsageStats, Policy}
use kubetidy.Rightsizer.{cpu_request, memory_request, recommend}

module _ {F : Type 0} ⦃fl : Float64 F⦄ (current : ResourceSpec) (usage : UsageStats F)
    (policy : Policy F) where
  -- A proposal that is applied settles: with the same usage and policy `Recommend` then proposes
  -- what is set, both requests and both limits.
  pub recommend-recommend :
      recommend (recommend current usage policy) usage policy ≡ recommend current usage policy
  unfolding recommend cpu_request memory_request
  recommend-recommend = ground arith
