-- ===== src/Fixed.antt =====
-- crates/zkie-core/src/fixed_point.rs, field_convert.rs and tensor.rs: numbers scaled by 10 ^ 18, the
-- rescaling of a product, the shift by which a signed number is range-checked, and shaped data.
-- An `i64` or an `i128` is an integer with its range stated. Conversions from and to `f64` are left
-- out: there are no floats here.
pub mod Requantize
pub mod Shift
use zk_ie.Common.{
  ℕ, suc, ◌+◌, ◌-◌, ◌*◌, ◌/◌, ◌%◌, Bool, List, [], ◌∷◌, Result, ok, err, ◌>>=◌, guard, ltb, ◌==◌,
  length, if◌then◌else◌, ◌≡◌, refl, i64_size, u64_size,
}
use zk_ie.Common.Int.{ℤ, pos, negsuc, pos_part, neg_part, sub_ℕ}

-- `SCALE_18`.
abbrev pub scale_18 : ℕ
scale_18 = 1000000000000000000

pub data FixedPointError : Type 0 where
  overflow : FixedPointError

-- `i128::div_euclid` and `i128::rem_euclid` by a positive number.
unfoldable pub div_euclid : ℤ → ℕ → ℤ
div_euclid (pos n) d = pos (n / d)
div_euclid (negsuc n) d = negsuc (n / d)

unfoldable pub rem_euclid : ℤ → ℕ → ℕ
rem_euclid (pos n) d = n % d
rem_euclid (negsuc n) d = d - 1 - n % d

-- `q < i64::MIN || q > i64::MAX` is false.
abbrev pub fits_i64 : ℤ → Bool
fits_i64 (pos n) = ltb n i64_size
fits_i64 (negsuc n) = ltb n i64_size

-- `requantize_raw`.
unfoldable pub requantize_raw : ℤ → Result FixedPointError (ℤ × ℕ)
unfolding div_euclid rem_euclid
requantize_raw raw_value =
    if fits_i64 (div_euclid raw_value scale_18)
    then ok (div_euclid raw_value scale_18, rem_euclid raw_value scale_18)
    else err overflow

-- The product of two integers; that of two `i64` is an `i128`.
infixl 70 ◌*ℤ◌
unfoldable pub ◌*ℤ◌ : ℤ → ℤ → ℤ
a *ℤ b =
    sub_ℕ (pos_part a * pos_part b + neg_part a * neg_part b)
      (pos_part a * neg_part b + neg_part a * pos_part b)

-- The exact sum of two integers.
infixl 65 ◌+ℤ◌
unfoldable pub ◌+ℤ◌ : ℤ → ℤ → ℤ
a +ℤ b = sub_ℕ (pos_part a + pos_part b) (neg_part a + neg_part b)

-- `requantize_mul`.
unfoldable pub requantize_mul : ℤ → ℤ → Result FixedPointError (ℤ × ℕ)
requantize_mul a b = requantize_raw (a *ℤ b)

-- The number that `shifted_i64_witness` range-checks: v + 2 ^ 63.
unfoldable pub shifted : ℤ → ℤ
shifted v = sub_ℕ (pos_part v + i64_size) (neg_part v)

pub record Tensor (T : Type 0) : Type 0 where
  pub shape : List ℕ
  pub items : List T

-- `shape.iter().product()`: a `usize` that wraps, as in a build without overflow checks; one with
-- them panics where a partial product leaves the width.
unfoldable pub product : List ℕ → ℕ
product [] = 1
product (d ∷ ds) = (d * product ds) % u64_size

pub data ShapeError : Type 0 where
  length_mismatch : (found expected : ℕ) → ShapeError

-- `Tensor::new`.
unfoldable pub new_tensor : {T : Type 0} → List ℕ → List T → Result ShapeError (Tensor T)
unfolding product
new_tensor shape items =
    if length items == product shape
    then ok (record { shape = shape; items = items })
    else err (length_mismatch (length items) (product shape))
