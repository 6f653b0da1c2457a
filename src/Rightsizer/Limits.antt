-- ===== src/Rightsizer/Limits.antt =====
-- The limits that `Recommend` proposes beside the requests.
use kubetidy.Base.{◌≡◌, ◌⊎◌, true, arith}
use kubetidy.Base.Float.{Float64}
use kubetidy.Base.Int.{pos, ◌≤ℤ◌}
use kubetidy.Model.{ResourceSpec, UsageStats, Policy}
use kubetidy.Rightsizer.{recommend}

-- A limit is unset, or not below its request.
pub record IsAdmissible (s : ResourceSpec) : Type 0 where
  pub cpu :
      (s.limits.cpu_millicores ≡ pos 0) ⊎ (s.requests.cpu_millicores ≤ℤ s.limits.cpu_millicores)
  pub memory : (s.limits.memory_bytes ≡ pos 0) ⊎ (s.requests.memory_bytes ≤ℤ s.limits.memory_bytes)

module _ {F : Type 0} ⦃fl : Float64 F⦄ where
  -- Where the policy sets the memory limit to the request, `Recommend` keeps a specification
  -- admissible: each limit is unset or not below its request.
  pub recommend-IsAdmissible :
      (current : ResourceSpec) (usage : UsageStats F) (policy : Policy F)
      → policy.memory_limit_equals_request ≡ true
      → IsAdmissible current
      → IsAdmissible (recommend current usage policy)
  unfolding recommend
  recommend-IsAdmissible current usage policy e v = ground arith
