-- ===== src/Cost.antt =====
-- internal/costmodel/costmodel.go: the monthly price of a change in requests.
pub mod Signs
mod Tests
use kubetidy.Base.{if◌then◌else◌, ℕ, ◌*◌}
use kubetidy.Base.Float.{Float64, ◌⊕◌, ◌⊖◌, ◌⊗◌, ◌⊘◌, less, decimal, nought, of_int}
use kubetidy.Base.Int.{ℤ, pos, leb_ℤ}
use kubetidy.Model.{ResourceSpec, ResourcePrice}

abbrev pub bytes_per_gib : ℕ
bytes_per_gib = 1024 * 1024 * 1024

abbrev pub millicores_per_core : ℕ
millicores_per_core = 1000

-- A workload has at least one replica.
abbrev pub effective_replicas : ℤ → ℤ
effective_replicas replicas = if leb_ℤ replicas (pos 0) then pos 1 else replicas

module _ {F : Type 0} ⦃fl : Float64 F⦄ where
  unfoldable pub non_negative : F → F
  non_negative v = if less v nought then nought else v

  -- The monthly cost of one replica's requests.
  unfoldable pub monthly_cost : ResourceSpec → ResourcePrice F → F
  monthly_cost spec price =
      (of_int spec.requests.cpu_millicores ⊘ decimal millicores_per_core 0)
        ⊗ non_negative price.cpu_core_month
      ⊕ (of_int spec.requests.memory_bytes ⊘ decimal bytes_per_gib 0)
        ⊗ non_negative price.mem_gib_month

  unfoldable pub monthly_savings : ResourceSpec → ResourceSpec → ResourcePrice F → ℤ → F
  monthly_savings current proposed price replicas =
      (monthly_cost current price ⊖ monthly_cost proposed price)
      ⊗ of_int (effective_replicas replicas)
