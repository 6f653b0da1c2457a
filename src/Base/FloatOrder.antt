-- ===== src/Base/FloatOrder.antt =====
-- What follows from the laws of `IsIeee` about the order of floats.
use kubetidy.Base.{if◌then◌else◌, ℕ, ◌≡◌, false, arith}
use kubetidy.Base.Float.{Float64, less, decimal, ◌≼◌, ◌≺◌, IsNumber, IsIeee}

module _ {F : Type 0} ⦃fl : Float64 F⦄ (laws : IsIeee F) where
  open laws use {number_of_le, le_trans, le_total, lt_number, lt-eq-not-le, decimal_mono}

  pub decimal-IsNumber : (m d : ℕ) → IsNumber (decimal {F = F} m d)
  decimal-IsNumber m d = decimal_mono m d m d (omega arith)

  pub le_of_not_lt : (x y : F) → IsNumber x → IsNumber y → less x y ≡ false → y ≼ x
  le_of_not_lt x y p q h = ground (arith, lt-eq-not-le x y p q)

  pub le_of_lt : (x y : F) → x ≺ y → x ≼ y
  le_of_lt x y h =
      let (p, q) = lt_number x y h in ground (arith, lt-eq-not-le x y p q, le_total x y p q)

  pub not_lt_of_le : (x y : F) → y ≼ x → less x y ≡ false
  not_lt_of_le x y h = let (q, p) = number_of_le y x h in ground (arith, lt-eq-not-le x y p q)

  pub lt_of_le_of_lt : (x y z : F) → x ≼ y → y ≺ z → x ≺ z
  lt_of_le_of_lt x y z h k = ground (
    arith,
    number_of_le x y h,
    lt_number y z k,
    lt-eq-not-le x z,
    lt-eq-not-le y z,
    le_trans z x y,
  )

  -- An `if` on a comparison keeps the value between the bounds.
  pub clamp_bounds :
      (v lo hi : F)
      → IsNumber v
      → lo ≼ hi
      → let r = (if less v lo then lo else if less hi v then hi else v) in (lo ≼ r) × (r ≼ hi)
  clamp_bounds v lo hi n h = ground (
    arith,
    number_of_le lo hi h,
    le_of_not_lt v lo,
    le_of_not_lt hi v,
    le_of_lt v lo,
    le_of_lt hi v,
  )
