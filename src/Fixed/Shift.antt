-- ===== src/Fixed/Shift.antt =====
-- crates/zkie-core/src/field_convert.rs and tensor.rs: the range check of signed numbers, and the shape of
-- a tensor.
use zk_ie.Common.{ℕ, suc, ◌+◌, ◌-◌, ◌<◌, List, ok, ◌≡◌, ◌↔◌, arith, i64_size, u64_size, length}
use zk_ie.Common.Int.{ℤ, pos, negsuc}
use zk_ie.Fixed.{shifted, Tensor, new_tensor, product}
use zk_ie.Fixed.Requantize.{IsI64}

-- A number is an `i64` exactly where its shift is an unsigned number below 2 ^ 64, which is what the
-- range check of the shift shows.
pub shifted_iff : (v : ℤ) → IsI64 v ↔ ((n : ℕ) × (shifted v ≡ pos n) × (n < u64_size))
unfolding shifted
shifted_iff (pos k) =
    (λ h. (k + i64_size, ground arith, omega arith), λ p. ground (arith, p.1, p.2))
shifted_iff (negsuc k) =
    (λ h. (i64_size - suc k, ground arith, omega arith), λ p. ground (arith, p.1, p.2))

-- A tensor is made exactly where there are as many items as the product of its shape, which wraps.
pub new_tensor_iff :
    {T : Type 0} (shape : List ℕ) (items : List T) (t : Tensor T)
    → (new_tensor shape items ≡ ok t)
      ↔ ((length items ≡ product shape) × (t.shape ≡ shape) × (t.items ≡ items))
unfolding new_tensor
new_tensor_iff shape items t = ground arith
