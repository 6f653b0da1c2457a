-- ===== src/Base/Fixed.antt =====
-- A concrete number type that meets `IsIeee`: millionths with truncation, and one NaN. The examples
-- run the program over it.
use kubetidy.Base.{leb, if◌then◌else◌, ℕ, zero, suc, ◌+◌, ◌*◌, ◌/◌, ◌^◌, Bool, true, false}
use kubetidy.Base.Float.{Float64}
use kubetidy.Base.Int.{ℤ, pos, negsuc, pos_part, neg_part, sub_ℕ, ltb_ℤ, leb_ℤ, eqb_ℤ}

pub data Fixed : Type 0 where
  nan : Fixed
  val : ℤ → Fixed

abbrev scale : ℕ
scale = 1_000_000

-- `sign` · n / scale, and x · scale / y
abbrev on_values : (ℤ → ℤ → ℤ) → Fixed → Fixed → Fixed
on_values f (val a) (val b) = val (f a b)
on_values f _ _ = nan

abbrev test_values : (ℤ → ℤ → Bool) → Fixed → Fixed → Bool
test_values f (val a) (val b) = f a b
test_values f _ _ = false

abbrev sum_of : ℤ → ℤ → ℤ
sum_of a b = sub_ℕ (pos_part a + pos_part b) (neg_part a + neg_part b)

abbrev difference_of : ℤ → ℤ → ℤ
difference_of a b = sub_ℕ (pos_part a + neg_part b) (neg_part a + pos_part b)

abbrev product_of : ℤ → ℤ → ℤ
product_of a b =
    sub_ℕ ((pos_part a * pos_part b + neg_part a * neg_part b) / scale)
      ((pos_part a * neg_part b + neg_part a * pos_part b) / scale)

-- One of the numerators is 0, and so is one of the denominators.
abbrev quotient_of : Fixed → Fixed → Fixed
quotient_of (val a) (val (pos zero)) = nan
quotient_of (val a) (val (pos (suc k))) =
    val (sub_ℕ (pos_part a * scale / suc k) (neg_part a * scale / suc k))
quotient_of (val a) (val (negsuc k)) =
    val (sub_ℕ (neg_part a * scale / suc k) (pos_part a * scale / suc k))
quotient_of _ _ = nan

abbrev truncated : Fixed → ℤ
truncated nan = pos 0
truncated (val a) = sub_ℕ (pos_part a / scale) (neg_part a / scale)

abbrev rounded : Fixed → ℤ
rounded nan = pos 0
rounded (val a) = sub_ℕ ((pos_part a + scale / 2) / scale) ((neg_part a + scale / 2) / scale)

abbrev negated : Fixed → Fixed
negated nan = nan
negated (val a) = val (sub_ℕ (neg_part a) (pos_part a))

-- the number of digits, for want of a logarithm
unfoldable pub digit_count : ℕ → ℕ → ℕ
digit_count zero n = 0
digit_count (suc fuel) n = let rest = digit_count fuel (n / 10) in if leb n 9 then 0 else rest + 1

abbrev logarithm : Fixed → Fixed
logarithm nan = nan
logarithm (val a) = val (pos (scale * digit_count 64 (pos_part a / scale)))

abbrev power_of_two : Fixed → Fixed
power_of_two nan = nan
power_of_two (val a) =
    if leb (neg_part a) 0
    then val (pos (scale * 2 ^ (pos_part a / scale)))
    else val (pos (scale / 2 ^ (neg_part a / scale)))

abbrev not_a_number : Fixed → Bool
not_a_number nan = true
not_a_number (val a) = false

abbrev greater_of : Fixed → Fixed → Fixed
greater_of (val a) (val b) = val (if leb_ℤ a b then b else a)
greater_of _ _ = nan

abbrev lesser_of : Fixed → Fixed → Fixed
lesser_of (val a) (val b) = val (if leb_ℤ a b then a else b)
lesser_of _ _ = nan

instance abbrev pub fixed_float : Float64 Fixed
fixed_float = record {
  decimal = λ m d. val (pos (m * scale / 10 ^ d));
  of_int = λ n. val (sub_ℕ (pos_part n * scale) (neg_part n * scale));
  truncate = truncated;
  round = rounded;
  add = on_values sum_of;
  sub = on_values difference_of;
  mul = on_values product_of;
  div = quotient_of;
  neg = negated;
  lt = test_values ltb_ℤ;
  le = test_values leb_ℤ;
  eq = test_values eqb_ℤ;
  is_nan = not_a_number;
  is_inf = λ x. false;
  max = greater_of;
  min = lesser_of;
  log10 = logarithm;
  exp2 = power_of_two;
}
