-- ===== src/Executor.antt =====
-- crates/zkie-core/src/isa.rs and crates/zkie-prover/src/witness_cpu.rs: the instructions of a program
-- and how the CPU backend computes their values. A value is an `I18`, an integer that fits an `i64`.
-- The reciprocal of a dimension and a thousandth come from floats, and so they are parameters; the
-- message of an error is left out.
pub mod Products
pub mod Totals
pub mod Shards
use zk_ie.Common.{
  ℕ, zero, suc, ◌+◌, ◌*◌, ◌%◌, Bool, true, false, not, ◌&&◌, ◌||◌, Option, none, some, List, [],
  ◌∷◌, ◌++◌, Result, ok, err, ◌>>=◌, ◌>>◌, guard, ok_or, if◌then◌else◌, ltb, ◌==◌, length,
  get_elem?, checked_mul_u64,
}
use zk_ie.Common.Int.{ℤ, pos, negsuc}
use zk_ie.Fixed.{FixedPointError, fits_i64, requantize_raw, requantize_mul, ◌*ℤ◌, ◌+ℤ◌}

pub data EltwiseOp : Type 0 where
  add mul relu : EltwiseOp

pub data ReduceOp : Type 0 where
  sum mean : ReduceOp

pub data Instruction : Type 0 where
  dot_general_of : (m n k : ℕ) → List ℕ → (trans_a trans_b : Bool) → Instruction
  softmax : (axis_dim : ℕ) → Instruction
  gelu : Instruction
  layer_norm : (dim epsilon_milli : ℕ) → Instruction
  rms_norm_of : (dim epsilon_milli : ℕ) → Instruction
  eltwise_of : EltwiseOp → Instruction
  reduce : ReduceOp → (axis : ℕ) → Instruction
  embed_lookup : (table_size embed_dim : ℕ) → Instruction
  patch_embed : (patch_len embed_dim : ℕ) → Instruction

pub data BackendError : Type 0 where
  invalid_job : BackendError
  unsupported_instruction : BackendError
  resource : BackendError
  missing_register : BackendError
  forward_register : (instruction : ℕ) → BackendError
  shape_mismatch : (instruction : ℕ) → BackendError
  arithmetic_overflow : (instruction : ℕ) → BackendError
  -- An index out of range, at which the program panics.
  panicked : BackendError

unfoldable pub expect_operands : ℕ → List (List ℤ) → ℕ → Result BackendError (Unit {0})
expect_operands index operands expected =
    if length operands == expected then ok tt else err (shape_mismatch index)

-- `checked_mul` on `usize`, of 64 bits.
unfoldable pub checked_len : ℕ → ℕ → ℕ → Result BackendError ℕ
checked_len index left right = ok_or (checked_mul_u64 left right) (arithmetic_overflow index)

-- The range of an `i128`.
abbrev pub i128_size : ℕ
i128_size = 170141183460469231731687303715884105728

abbrev pub fits_i128 : ℤ → Bool
fits_i128 (pos n) = ltb n i128_size
fits_i128 (negsuc n) = ltb n i128_size

-- The error of a number that does not fit, as one of an instruction.
unfoldable pub rescaled : ℕ → Result FixedPointError (ℤ × ℕ) → Result BackendError ℤ
rescaled index (ok q) = ok q.0
rescaled index (err _) = err (arithmetic_overflow index)

-- `checked_add` on `i64`.
unfoldable pub checked_add_i64 : ℕ → ℤ → ℤ → Result BackendError ℤ
checked_add_i64 index a b =
    if fits_i64 (a +ℤ b) then ok (a +ℤ b) else err (arithmetic_overflow index)

-- The loop over `inner`.
unfoldable pub accumulate : ℕ → (ℕ → Option ℤ) → (ℕ → Option ℤ) → ℕ → ℕ → ℤ → Result BackendError ℤ
accumulate index a b zero inner total = ok total
accumulate index a b (suc left) inner total = do
  x ← ok_or (a inner) panicked
  y ← ok_or (b inner) panicked
  guard (fits_i128 (total +ℤ x *ℤ y)) (arithmetic_overflow index)
  accumulate index a b left (suc inner) (total +ℤ x *ℤ y)

-- A loop that pushes `f` of each number from `from` on.
unfoldable pub collect_from :
    {A : Type 0} → ℕ → ℕ → (ℕ → Result BackendError A) → Result BackendError (List A)
collect_from zero from f = ok []
collect_from (suc left) from f = do x ← f from; rest ← collect_from left (suc from) f; ok (x ∷ rest)

-- The same of two loops, one inside the other.
unfoldable pub collect_rows :
    {A : Type 0} → ℕ → ℕ → ℕ → (ℕ → ℕ → Result BackendError A) → Result BackendError (List A)
collect_rows zero from n f = ok []
collect_rows (suc left) from n f = do
  cells ← collect_from n 0 (f from)
  rest ← collect_rows left (suc from) n f
  ok (cells ++ rest)

-- `a_index` and `b_index`: the place of the entry (i, j) of a matrix of `rows` by `cols`.
abbrev pub place : (transposed : Bool) → (rows cols i j : ℕ) → ℕ
place transposed rows cols i j = if transposed then j * rows + i else i * cols + j

-- One entry of the output.
unfoldable pub dot_cell :
    ℕ → List ℤ → List ℤ → (m n k : ℕ) → (trans_a trans_b : Bool) → ℕ → ℕ → Result BackendError ℤ
dot_cell index a b m n k trans_a trans_b row column = do
  total ←
      accumulate index (λ inner. get_elem? a (place trans_a m k row inner))
        (λ inner. get_elem? b (place trans_b k n inner column)) k 0 (pos 0)
  rescaled index (requantize_raw total)

abbrev pub no_dims : List ℕ → Bool
no_dims [] = true
no_dims (_ ∷ _) = false

-- The first and the second operand.
abbrev pub operand : List (List ℤ) → ℕ → List ℤ
operand operands i = elim (get_elem? operands i) [ none ↦ [] | some xs ↦ xs ]

unfoldable pub dot_general :
    ℕ
    → List (List ℤ)
    → (m n k : ℕ) → List ℕ
    → (trans_a trans_b : Bool) → Result BackendError (List ℤ)
dot_general index operands m n k batch_dims trans_a trans_b = do
  guard (no_dims batch_dims) unsupported_instruction
  expect_operands index operands 2
  expected_a ← checked_len index m k
  expected_b ← checked_len index k n
  guard (length (operand operands 0) == expected_a && length (operand operands 1) == expected_b)
      (shape_mismatch index)
  _ ← checked_len index m n
  collect_rows m 0 n
      (dot_cell index (operand operands 0) (operand operands 1) m n k trans_a trans_b)

-- `max` on lengths.
abbrev larger : ℕ → ℕ → ℕ
larger a b = if ltb a b then b else a

unfoldable pub eltwise_at : ℕ → EltwiseOp → ℤ → ℤ → Result BackendError ℤ
eltwise_at index add a b = checked_add_i64 index a b
eltwise_at index mul a b = rescaled index (requantize_mul a b)
eltwise_at index relu a b = err panicked

unfoldable pub eltwise : ℕ → List (List ℤ) → EltwiseOp → Result BackendError (List ℤ)
eltwise index operands op = do
  expect_operands index operands 2
  let a = operand operands 0
  let b = operand operands 1
  let out_len = larger (length a) (length b)
  guard
      (not (
        length a == 0
        || length b == 0
        || not (out_len % length a == 0)
        || not (out_len % length b == 0)))
      (shape_mismatch index)
  collect_from out_len 0 (λ position. do
    x ← ok_or (get_elem? a (position % length a)) panicked
    y ← ok_or (get_elem? b (position % length b)) panicked
    eltwise_at index op x y)

-- The loops over the values of a tensor.
unfoldable pub map_ok :
    {A B : Type 0} → (A → Result BackendError B) → List A → Result BackendError (List B)
map_ok f [] = ok []
map_ok f (x ∷ xs) = do y ← f x; ys ← map_ok f xs; ok (y ∷ ys)

unfoldable pub sum_from : ℕ → ℤ → List ℤ → Result BackendError ℤ
sum_from index total [] = ok total
sum_from index total (x ∷ xs) = do next ← checked_add_i64 index total x; sum_from index next xs

abbrev pairs : List ℤ → List ℤ → List (ℤ × ℤ)
pairs [] ys = []
pairs (x ∷ xs) [] = []
pairs (x ∷ xs) (y ∷ ys) = (x, y) ∷ pairs xs ys

-- `I18::from_f64` of 1 / dim and of epsilon_milli / 1000, and the lookup tables of the backend.
pub record Scales : Type 0 where
  pub reciprocal : ℕ → Result FixedPointError ℤ
  pub thousandths : ℕ → Result FixedPointError ℤ
  pub rms_norm_tables : ℕ → ℕ → Option (ℤ → Option ℤ)

abbrev of_float : ℕ → Result FixedPointError ℤ → Result BackendError ℤ
of_float index (ok x) = ok x
of_float index (err _) = err (arithmetic_overflow index)

unfoldable pub rms_norm :
    Scales → ℕ → List (List ℤ) → (dim epsilon_milli : ℕ) → Result BackendError (List ℤ)
rms_norm scales index operands dim epsilon_milli = do
  expect_operands index operands 2
  let xs = operand operands 0
  let weights = operand operands 1
  guard (not (dim == 0 || not (length xs == dim) || not (length weights == dim)))
      (shape_mismatch index)
  squares ← map_ok (λ x. rescaled index (requantize_mul x x)) xs
  sum_raw ← sum_from index (pos 0) squares
  reciprocal ← of_float index (scales.reciprocal dim)
  mean_square ← rescaled index (requantize_mul sum_raw reciprocal)
  epsilon ← of_float index (scales.thousandths epsilon_milli)
  variance_plus_epsilon ← checked_add_i64 index mean_square epsilon
  domain ← ok_or (scales.rms_norm_tables dim epsilon_milli) invalid_job
  rsqrt ← ok_or (domain variance_plus_epsilon) invalid_job
  map_ok
      (λ p. do
        normalized ← rescaled index (requantize_mul p.0 rsqrt)
        rescaled index (requantize_mul normalized p.1))
      (pairs xs weights)

unfoldable pub execute_instruction :
    Scales → ℕ → Instruction → List (List ℤ) → Result BackendError (List ℤ)
execute_instruction scales index (dot_general_of m n k batch_dims trans_a trans_b) operands =
    dot_general index operands m n k batch_dims trans_a trans_b
execute_instruction scales index (eltwise_of add) operands = eltwise index operands add
execute_instruction scales index (eltwise_of mul) operands = eltwise index operands mul
execute_instruction scales index (rms_norm_of dim epsilon_milli) operands =
    rms_norm scales index operands dim epsilon_milli
execute_instruction scales index _ operands = err unsupported_instruction
