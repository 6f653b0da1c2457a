-- ===== src/Base/Float.antt =====
-- Go's float64 and the functions of its `math` package that the code uses, as an interface: the
-- operations are a parameter of every function that computes with a float.
-- `IsIeee` states what IEEE 754 and the `math` package document of them: comparisons are false on
-- NaN, rounding keeps the order, and an operation with an exact result gives it.
use kubetidy.Base.{ℕ, ◌*◌, ◌^◌, ◌≤◌, ◌<◌, ◌≡◌, ◌⊎◌, Bool, true, false, not}
use kubetidy.Base.Int.{ℤ, pos, ◌≤ℤ◌}

pub record Float64 (F : Type 0) : Type 0 where
  -- the constant `m` / 10 ^ `d`
  pub decimal : ℕ → ℕ → F
  -- `float64(n)`, of an integer
  pub of_int : ℤ → F
  -- `int64(x)`, which drops the fraction, and `int64(math.Round(x))`
  pub truncate : F → ℤ
  pub round : F → ℤ
  pub add : F → F → F
  pub sub : F → F → F
  pub mul : F → F → F
  pub div : F → F → F
  pub neg : F → F
  -- `<`, `<=` and `==`
  pub lt : F → F → Bool
  pub le : F → F → Bool
  pub eq : F → F → Bool
  pub is_nan : F → Bool
  pub is_inf : F → Bool
  -- `math.Max`, `math.Min`, `math.Log10`, `math.Exp2`
  pub max : F → F → F
  pub min : F → F → F
  pub log10 : F → F
  pub exp2 : F → F

module _ {F : Type 0} ⦃fl : Float64 F⦄ where
  infixl 65 ◌⊕◌ ◌⊖◌
  infixl 70 ◌⊗◌ ◌⊘◌
  infix 50 ◌≼◌ ◌≺◌
  abbrev pub ◌⊕◌ : F → F → F
  ◌⊕◌ = fl.add

  abbrev pub ◌⊖◌ : F → F → F
  ◌⊖◌ = fl.sub

  abbrev pub ◌⊗◌ : F → F → F
  ◌⊗◌ = fl.mul

  abbrev pub ◌⊘◌ : F → F → F
  ◌⊘◌ = fl.div

  abbrev pub less : F → F → Bool
  less = fl.lt

  abbrev pub less_eq : F → F → Bool
  less_eq = fl.le

  abbrev pub decimal : ℕ → ℕ → F
  decimal = fl.decimal

  abbrev pub nought : F
  nought = fl.decimal 0 0

  abbrev pub of_int : ℤ → F
  of_int = fl.of_int

  -- The comparison holds.
  abbrev pub ◌≼◌ : F → F → Type 0
  x ≼ y = fl.le x y ≡ true

  abbrev pub ◌≺◌ : F → F → Type 0
  x ≺ y = fl.lt x y ≡ true

  -- The value is not NaN.
  abbrev pub IsNumber : F → Type 0
  IsNumber x = fl.le x x ≡ true

pub record IsIeee (F : Type 0) ⦃fl : Float64 F⦄ : Type 0 where
  pub number_of_le : (x y : F) → x ≼ y → IsNumber x × IsNumber y
  pub le_trans : (x y z : F) → x ≼ y → y ≼ z → x ≼ z
  pub le_total : (x y : F) → IsNumber x → IsNumber y → (x ≼ y) ⊎ (y ≼ x)
  pub lt_number : (x y : F) → x ≺ y → IsNumber x × IsNumber y
  pub lt-eq-not-le : (x y : F) → IsNumber x → IsNumber y → fl.lt x y ≡ not (fl.le y x)
  pub nan-eq-not-number : (x : F) → fl.is_nan x ≡ not (fl.le x x)
  -- constants in the order of their values; strictly so if they differ by a thousandth
  pub decimal_mono : (m d n e : ℕ) → m * 10 ^ e ≤ n * 10 ^ d → fl.decimal m d ≼ fl.decimal n e
  pub decimal_strict :
      (m d n e : ℕ)
      → 1001 * (m * 10 ^ e) < 1000 * (n * 10 ^ d)
      → n ≤ 2 ^ 50
      → d ≤ 6
      → e ≤ 6
      → fl.decimal m d ≺ fl.decimal n e
  -- an operation on NaN gives NaN
  pub add_number : (x y : F) → IsNumber (x ⊕ y) → IsNumber x × IsNumber y
  pub sub_number : (x y : F) → IsNumber (x ⊖ y) → IsNumber x × IsNumber y
  pub mul_number : (x y : F) → IsNumber (x ⊗ y) → IsNumber x × IsNumber y
  pub add_mono :
      (x y z w : F) → x ≼ y → z ≼ w → IsNumber (x ⊕ z) → IsNumber (y ⊕ w) → (x ⊕ z) ≼ (y ⊕ w)
  pub le-add_right : (x y : F) → IsNumber (x ⊕ y) → nought ≼ y → x ≼ (x ⊕ y)
  pub le-add_left : (x y : F) → nought ≼ x → IsNumber (x ⊕ y) → y ≼ (x ⊕ y)
  pub add-le : (x y : F) → y ≼ nought → IsNumber (x ⊕ y) → (x ⊕ y) ≼ x
  pub sub-le : (x y : F) → nought ≼ y → IsNumber (x ⊖ y) → (x ⊖ y) ≼ x
  pub sub_mono :
      (x y z w : F) → x ≼ y → w ≼ z → IsNumber (x ⊖ z) → IsNumber (y ⊖ w) → (x ⊖ z) ≼ (y ⊖ w)
  pub mul_comm : (x y : F) → x ⊗ y ≡ y ⊗ x
  pub max_mono : (x y z w : F) → x ≼ y → z ≼ w → fl.max x z ≼ fl.max y w
  pub sub_nonneg : (x y : F) → y ≼ x → IsNumber (x ⊖ y) → nought ≼ (x ⊖ y)
  pub mul_mono :
      (x y k : F) → nought ≼ k → x ≼ y → IsNumber (x ⊗ k) → IsNumber (y ⊗ k) → (x ⊗ k) ≼ (y ⊗ k)
  pub mul_nonneg : (x y : F) → nought ≼ x → nought ≼ y → IsNumber (x ⊗ y) → nought ≼ (x ⊗ y)
  pub mul_nonpos : (x y : F) → x ≼ nought → nought ≼ y → IsNumber (x ⊗ y) → (x ⊗ y) ≼ nought
  pub le-mul : (x k : F) → nought ≼ x → decimal 1 0 ≼ k → IsNumber (x ⊗ k) → x ≼ (x ⊗ k)
  pub sub_nonpos : (x y : F) → x ≼ y → IsNumber (x ⊖ y) → (x ⊖ y) ≼ nought
  pub div_mono :
      (x y k : F) → nought ≺ k → x ≼ y → IsNumber (x ⊘ k) → IsNumber (y ⊘ k) → (x ⊘ k) ≼ (y ⊘ k)
  pub of_int_mono : (m n : ℤ) → m ≤ℤ n → fl.of_int m ≼ fl.of_int n
  pub min-le_left : (x y : F) → IsNumber x → IsNumber y → fl.min x y ≼ x
  pub min-le_right : (x y : F) → IsNumber x → IsNumber y → fl.min x y ≼ y
  pub le-min : (x y z : F) → z ≼ x → z ≼ y → z ≼ fl.min x y
  pub max_number : (x y : F) → IsNumber x → IsNumber y → IsNumber (fl.max x y)
  -- 2 ^ 62 is exact, and inside an `int64`
  pub round_mono :
      (x y : F) → nought ≼ x → x ≼ y → y ≼ decimal (2 ^ 62) 0 → fl.round x ≤ℤ fl.round y
  pub round_bounds :
      (x : F)
      → nought ≼ x
      → x ≼ decimal (2 ^ 62) 0
      → (pos 0 ≤ℤ fl.round x) × (fl.round x ≤ℤ pos (2 ^ 62))
  pub inf_bounds : (x : F) → nought ≼ x → x ≼ decimal (2 ^ 62) 0 → fl.is_inf x ≡ false
  -- 0 is exact
  pub of_int_nought : fl.of_int (pos 0) ≡ nought
  pub add_nought : fl.add nought nought ≡ nought
  -- adding 0 changes -0 alone, and only -0 plus -0 is -0
  pub add_nought_right : (x y : F) → x ⊕ nought ≡ x → (x ⊕ y) ⊕ nought ≡ x ⊕ y
  pub div_nought : (k : F) → nought ≺ k → nought ⊘ k ≡ nought
