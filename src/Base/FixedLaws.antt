-- ===== src/Base/FixedLaws.antt =====
-- `Fixed` meets the laws of `IsIeee`.
use native.Mathlib.Decide.{dec_lt, dec_le}
use native.Mathlib.Nat.{
  le_refl, mul-le-mul, pow-suc, div-mul-le_self, le-div_iff_mul-le, lt-div-mul-add,
}
use kubetidy.Base.{ℕ, zero, suc, ◌+◌, ◌*◌, ◌/◌, ◌^◌, ◌≤◌, ◌<◌, ◌≡◌, refl, ap, arith}
use kubetidy.Base.Fixed.{Fixed, nan, val, fixed_float}
use kubetidy.Base.Float.{◌⊕◌, ◌⊖◌, ◌⊗◌, ◌⊘◌, decimal, nought, ◌≼◌, ◌≺◌, IsNumber, IsIeee}
use kubetidy.Base.Int.{ℤ, pos, negsuc, ◌≤ℤ◌}

product_mono : (a b k : ℕ) → a ≤ b → a * k / 1_000_000 ≤ b * k / 1_000_000
product_mono a b k h = omega (arith, mul-le-mul h (le_refl k))

le_product : (a k : ℕ) → 1_000_000 ≤ k → a ≤ a * k / 1_000_000
le_product a k h = omega (arith, mul-le-mul (le_refl a) h)

fixed_mul_mono :
    (x y k : Fixed) → nought ≼ k → x ≼ y → IsNumber (x ⊗ k) → IsNumber (y ⊗ k) → (x ⊗ k) ≼ (y ⊗ k)
fixed_mul_mono (val (pos a)) (val (pos b)) (val (pos k)) hk h _ _ =
    ground (arith, product_mono a b k)
fixed_mul_mono (val (negsuc a)) (val (negsuc b)) (val (pos k)) hk h _ _ =
    ground (arith, product_mono (suc b) (suc a) k)
fixed_mul_mono (val (negsuc a)) (val (pos b)) (val (pos k)) hk h _ _ = ground arith
fixed_mul_mono (val (pos a)) (val (negsuc b)) (val (pos k)) hk h _ _ = ground arith
fixed_mul_mono (val a) (val b) (val (negsuc k)) hk h _ _ = ground arith
fixed_mul_mono nan y k hk h _ _ = ground arith
fixed_mul_mono (val a) nan k hk h _ _ = ground arith
fixed_mul_mono (val a) (val b) nan hk h _ _ = ground arith

fixed_add_mono :
    (x y z w : Fixed) → x ≼ y → z ≼ w → IsNumber (x ⊕ z) → IsNumber (y ⊕ w) → (x ⊕ z) ≼ (y ⊕ w)
fixed_add_mono (val a) (val b) (val c) (val d) h k _ _ = ground arith
fixed_add_mono nan y z w h k p q = ground arith
fixed_add_mono (val a) nan z w h k p q = ground arith
fixed_add_mono (val a) (val b) nan w h k p q = ground arith
fixed_add_mono (val a) (val b) (val c) nan h k p q = ground arith

fixed_sub_nonpos : (x y : Fixed) → x ≼ y → IsNumber (x ⊖ y) → (x ⊖ y) ≼ nought
fixed_sub_nonpos (val a) (val b) h p = ground arith
fixed_sub_nonpos _ _ h p = grind arith

quotient_mono : (a b k : ℕ) → a ≤ b → a * 1_000_000 / suc k ≤ b * 1_000_000 / suc k
quotient_mono a b k h =
    (le-div_iff_mul-le (omega arith)).1 (omega (arith, div-mul-le_self (a * 1_000_000) (suc k)))

fixed_div_mono :
    (x y k : Fixed) → nought ≺ k → x ≼ y → IsNumber (x ⊘ k) → IsNumber (y ⊘ k) → (x ⊘ k) ≼ (y ⊘ k)
fixed_div_mono (val (pos a)) (val (pos b)) (val (pos (suc k))) hk h _ _ =
    ground (arith, quotient_mono a b k)
fixed_div_mono (val (negsuc a)) (val (negsuc b)) (val (pos (suc k))) hk h _ _ =
    ground (arith, quotient_mono (suc b) (suc a) k)
fixed_div_mono (val (negsuc a)) (val (pos b)) (val (pos (suc k))) hk h _ _ = ground arith
fixed_div_mono (val (pos a)) (val (negsuc b)) (val (pos (suc k))) hk h _ _ = ground arith
fixed_div_mono x y (val (pos zero)) hk h _ _ = ground arith
fixed_div_mono x y (val (negsuc k)) hk h _ _ = ground arith
fixed_div_mono x y nan hk h _ _ = ground arith
fixed_div_mono nan y (val (pos (suc k))) hk h _ _ = ground arith
fixed_div_mono (val a) nan (val (pos (suc k))) hk h _ _ = ground arith

fixed_le-add_right : (x y : Fixed) → IsNumber (x ⊕ y) → nought ≼ y → x ≼ (x ⊕ y)
fixed_le-add_right (val a) (val b) h p = ground arith
fixed_le-add_right _ _ h p = grind arith

fixed_le-add_left : (x y : Fixed) → nought ≼ x → IsNumber (x ⊕ y) → y ≼ (x ⊕ y)
fixed_le-add_left (val a) (val b) h p = ground arith
fixed_le-add_left _ _ h p = grind arith

fixed_add-le : (x y : Fixed) → y ≼ nought → IsNumber (x ⊕ y) → (x ⊕ y) ≼ x
fixed_add-le (val a) (val b) h p = ground arith
fixed_add-le _ _ h p = grind arith

fixed_add-IsNumber : (x y : Fixed) → IsNumber (x ⊕ y) → IsNumber x × IsNumber y
fixed_add-IsNumber (val a) (val b) h = ground arith
fixed_add-IsNumber _ _ h = grind arith

fixed_sub-IsNumber : (x y : Fixed) → IsNumber (x ⊖ y) → IsNumber x × IsNumber y
fixed_sub-IsNumber (val a) (val b) h = ground arith
fixed_sub-IsNumber _ _ h = grind arith

fixed_mul-IsNumber : (x y : Fixed) → IsNumber (x ⊗ y) → IsNumber x × IsNumber y
fixed_mul-IsNumber (val a) (val b) h = ground arith
fixed_mul-IsNumber _ _ h = grind arith

fixed_sub-le : (x y : Fixed) → nought ≼ y → IsNumber (x ⊖ y) → (x ⊖ y) ≼ x
fixed_sub-le (val a) (val b) h p = ground arith
fixed_sub-le _ _ h p = grind arith

fixed_sub_nonneg : (x y : Fixed) → y ≼ x → IsNumber (x ⊖ y) → nought ≼ (x ⊖ y)
fixed_sub_nonneg (val a) (val b) h p = ground arith
fixed_sub_nonneg _ _ h p = grind arith

fixed_mul_nonneg : (x y : Fixed) → nought ≼ x → nought ≼ y → IsNumber (x ⊗ y) → nought ≼ (x ⊗ y)
fixed_mul_nonneg (val (pos a)) (val (pos b)) h p q = ground arith
fixed_mul_nonneg (val (negsuc a)) (val b) h p q = ground arith
fixed_mul_nonneg (val (pos a)) (val (negsuc b)) h p q = ground arith
fixed_mul_nonneg _ _ h p q = grind arith

fixed_mul_nonpos : (x y : Fixed) → x ≼ nought → nought ≼ y → IsNumber (x ⊗ y) → (x ⊗ y) ≼ nought
fixed_mul_nonpos (val (pos zero)) (val (pos b)) h p q = ground arith
fixed_mul_nonpos (val (pos (suc a))) (val (pos b)) h p q = ground arith
fixed_mul_nonpos (val (negsuc a)) (val (pos b)) h p q = ground arith
fixed_mul_nonpos (val a) (val (negsuc b)) h p q = ground arith
fixed_mul_nonpos nan y h p q = ground arith
fixed_mul_nonpos (val a) nan h p q = ground arith

fixed_le-mul : (x k : Fixed) → nought ≼ x → decimal 1 0 ≼ k → IsNumber (x ⊗ k) → x ≼ (x ⊗ k)
fixed_le-mul (val (pos a)) (val (pos k)) h p q = ground (arith, le_product a k)
fixed_le-mul (val (negsuc a)) (val k) h p q = ground arith
fixed_le-mul (val (pos a)) (val (negsuc k)) h p q = ground arith
fixed_le-mul _ _ h p q = grind arith

power_pos : (d : ℕ) → 0 < 10 ^ d
power_pos zero = omega arith
power_pos (suc d) = omega (arith, power_pos d, pow-suc 10 d)

-- a = m · scale / p and b = n · scale / q, rounded down
quotients_mono :
    (m n p q : ℕ) → 0 < p → 0 < q → m * q ≤ n * p → m * 1_000_000 / p ≤ n * 1_000_000 / q
quotients_mono m n p q hp hq h = elim (dec_le (m * 1_000_000 / p) (n * 1_000_000 / q)) [
  | yes le ↦ le
  | no nle ↦
      let a = m * 1_000_000 / p in
      let b = n * 1_000_000 / q in
      let above : b + 1 ≤ a = omega arith in
      let lower : a * p ≤ m * 1_000_000 = div-mul-le_self (m * 1_000_000) p in
      let upper : n * 1_000_000 + 1 ≤ (b + 1) * q =
        omega (arith, lt-div-mul-add {a = n * 1_000_000} hq) in
      absurd (
        omega (
          arith,
          mul-le-mul above (le_refl (p * q)),
          mul-le-mul lower (le_refl q),
          mul-le-mul upper (le_refl p),
        ))
]

fixed_decimal_mono : (m d n e : ℕ) → m * 10 ^ e ≤ n * 10 ^ d → decimal {F = Fixed} m d ≼ decimal n e
fixed_decimal_mono m d n e h =
    ground (arith, quotients_mono m n (10 ^ d) (10 ^ e) (power_pos d) (power_pos e) h)

-- a constant with at most six decimals is exact
exact : (m d : ℕ) → d ≤ 6 → m * 1_000_000 / 10 ^ d * 10 ^ d ≡ m * 1_000_000
exact m zero h = omega arith
exact m (suc zero) h = omega arith
exact m (suc (suc zero)) h = omega arith
exact m (suc (suc (suc zero))) h = omega arith
exact m (suc (suc (suc (suc zero)))) h = omega arith
exact m (suc (suc (suc (suc (suc zero))))) h = omega arith
exact m (suc (suc (suc (suc (suc (suc zero)))))) h = omega arith
exact m (suc (suc (suc (suc (suc (suc (suc d))))))) h = omega arith

cross : (a b m n p q : ℕ) → a * p ≡ m * 1_000_000 → b * q ≡ n * 1_000_000 → m * q < n * p → a < b
cross a b m n p q e f h = elim (dec_lt a b) [
  | yes lt ↦ lt
  | no nlt ↦
      let le : b ≤ a = omega arith in
      absurd (
        omega (
          arith,
          mul-le-mul le (le_refl (p * q)),
          ap (λ (t : ℕ). t * q) e,
          ap (λ (t : ℕ). t * p) f,
        ))
]

fixed_decimal_strict :
    (m d n e : ℕ)
    → 1001 * (m * 10 ^ e) < 1000 * (n * 10 ^ d)
    → n ≤ 2 ^ 50
    → d ≤ 6
    → e ≤ 6
    → decimal {F = Fixed} m d ≺ decimal n e
fixed_decimal_strict m d n e h _ hd he =
    ground (arith, cross _ _ m n (10 ^ d) (10 ^ e) (exact m d hd) (exact n e he) (omega arith))

fixed_round_bounds :
    (x : Fixed)
    → nought ≼ x
    → x ≼ decimal (2 ^ 62) 0
    → (pos 0 ≤ℤ fixed_float.round x) × (fixed_float.round x ≤ℤ pos (2 ^ 62))
fixed_round_bounds (val (pos n)) p q = ground arith
fixed_round_bounds (val (negsuc n)) p q = ground arith
fixed_round_bounds nan p q = ground arith

fixed_round_mono :
    (x y : Fixed)
    → nought ≼ x
    → x ≼ y
    → y ≼ decimal (2 ^ 62) 0
    → fixed_float.round x ≤ℤ fixed_float.round y
fixed_round_mono (val (pos m)) (val (pos n)) p q r = ground arith
fixed_round_mono (val (negsuc m)) y p q r = ground arith
fixed_round_mono (val (pos m)) (val (negsuc n)) p q r = ground arith
fixed_round_mono (val (pos m)) nan p q r = ground arith
fixed_round_mono nan y p q r = ground arith

fixed_div_nought : (k : Fixed) → nought ≺ k → nought ⊘ k ≡ nought
fixed_div_nought nan h = ground arith
fixed_div_nought (val (pos zero)) h = ground arith
fixed_div_nought (val (pos (suc k))) h = ground arith
fixed_div_nought (val (negsuc k)) h = ground arith

fixed_sub_mono :
    (x y z w : Fixed) → x ≼ y → w ≼ z → IsNumber (x ⊖ z) → IsNumber (y ⊖ w) → (x ⊖ z) ≼ (y ⊖ w)
fixed_sub_mono (val a) (val b) (val c) (val d) h k _ _ = ground arith
fixed_sub_mono nan y z w h k p q = ground arith
fixed_sub_mono (val a) nan z w h k p q = ground arith
fixed_sub_mono (val a) (val b) nan w h k p q = ground arith
fixed_sub_mono (val a) (val b) (val c) nan h k p q = ground arith

fixed_mul_comm : (x y : Fixed) → x ⊗ y ≡ y ⊗ x
fixed_mul_comm (val (pos a)) (val (pos b)) = grind arith
fixed_mul_comm (val (pos a)) (val (negsuc b)) = grind arith
fixed_mul_comm (val (negsuc a)) (val (pos b)) = grind arith
fixed_mul_comm (val (negsuc a)) (val (negsuc b)) = grind arith
fixed_mul_comm nan nan = refl
fixed_mul_comm nan (val b) = refl
fixed_mul_comm (val a) nan = refl

fixed_add_nought : (a : ℤ) → val a ⊕ nought ≡ val a
fixed_add_nought (pos a) = ground arith
fixed_add_nought (negsuc a) = ground arith

fixed_add_nought_right : (x y : Fixed) → x ⊕ nought ≡ x → (x ⊕ y) ⊕ nought ≡ x ⊕ y
fixed_add_nought_right (val a) (val b) h = fixed_add_nought _
fixed_add_nought_right nan y h = refl
fixed_add_nought_right (val a) nan h = refl

pub Fixed-IsIeee : IsIeee Fixed
Fixed-IsIeee = record {
  number_of_le = ground arith;
  le_trans = ground arith;
  le_total = ground arith;
  lt_number = ground arith;
  lt-eq-not-le = ground arith;
  nan-eq-not-number = ground arith;
  decimal_mono = fixed_decimal_mono;
  decimal_strict = fixed_decimal_strict;
  add_number = fixed_add-IsNumber;
  sub_number = fixed_sub-IsNumber;
  mul_number = fixed_mul-IsNumber;
  add_mono = fixed_add_mono;
  le-add_right = fixed_le-add_right;
  le-add_left = fixed_le-add_left;
  add-le = fixed_add-le;
  sub-le = fixed_sub-le;
  sub_nonneg = fixed_sub_nonneg;
  mul_mono = fixed_mul_mono;
  sub_nonpos = fixed_sub_nonpos;
  div_mono = fixed_div_mono;
  mul_nonneg = fixed_mul_nonneg;
  mul_nonpos = fixed_mul_nonpos;
  le-mul = fixed_le-mul;
  of_int_mono = ground arith;
  min-le_left = ground arith;
  min-le_right = ground arith;
  le-min = ground arith;
  max_number = ground arith;
  round_mono = fixed_round_mono;
  round_bounds = fixed_round_bounds;
  inf_bounds = λ x p q. refl;
  of_int_nought = refl;
  add_nought = refl;
  sub_mono = fixed_sub_mono;
  mul_comm = fixed_mul_comm;
  max_mono = ground arith;
  add_nought_right = fixed_add_nought_right;
  div_nought = fixed_div_nought;
}
