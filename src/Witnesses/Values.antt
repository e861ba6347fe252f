-- ===== src/Witnesses/Values.antt =====
-- Products of matrices of scaled numbers: (1 2; 0 1), of which the first is stored by columns.
use zk_ie.Common.{
  ℕ, true, false, some, List, [], ◌∷◌, ok, err, ◌≡◌, refl, ◌*◌, ◌+◌, get_elem?, arith,
}
use zk_ie.Common.Int.{ℤ, pos}
use zk_ie.Fixed.{scale_18, requantize_raw, ◌+ℤ◌, ◌*ℤ◌}
use zk_ie.Fixed.Requantize.{Divides, IsI64}
use zk_ie.Executor.{
  arithmetic_overflow, expect_operands, checked_len, accumulate, collect_from, collect_rows,
  dot_cell, rescaled, dot_general,
}
use zk_ie.Executor.Products.{dot, entry, dot_general_lem}
use zk_ie.Executor.Totals.{dot_general-IsOverflow}

abbrev scaled : ℕ → ℤ
scaled n = pos (n * scale_18)

abbrev by_columns : List ℤ
by_columns = scaled 1 ∷ scaled 0 ∷ scaled 2 ∷ scaled 1 ∷ []

abbrev by_rows : List ℤ
by_rows = scaled 1 ∷ scaled 2 ∷ scaled 0 ∷ scaled 1 ∷ []

abbrev operands : List (List ℤ)
operands = by_columns ∷ by_rows ∷ []

-- (1 2; 0 1) squared is (1 4; 0 1).
is_square :
    dot_general 0 operands 2 2 2 [] true false ≡ ok (scaled 1 ∷ scaled 4 ∷ scaled 0 ∷ scaled 1 ∷ [])
unfolding dot_general expect_operands checked_len collect_rows collect_from dot_cell accumulate ◌+ℤ◌
    ◌*ℤ◌ rescaled requantize_raw
is_square = refl

dot_general_lem_example :
    (q : ℤ) × (r : ℕ) × (get_elem? (scaled 1 ∷ scaled 4 ∷ scaled 0 ∷ scaled 1 ∷ []) (0 * 2 + 1)
      ≡ some q)
    × Divides (dot (entry true 2 2 by_columns 0) (λ inner. entry false 2 2 by_rows inner 1) 2) q r
    × IsI64 q
dot_general_lem_example =
    dot_general_lem 0 operands 2 2 2 [] true false 0 1 (omega arith) (omega arith) is_square

-- A product that is too large.
abbrev large : List ℤ
large = pos 9000000000000000000 ∷ []

is_too_large : dot_general 4 (large ∷ large ∷ []) 1 1 1 [] false false ≡ err (arithmetic_overflow 4)
unfolding dot_general expect_operands checked_len collect_rows collect_from dot_cell accumulate ◌+ℤ◌
    ◌*ℤ◌ rescaled requantize_raw
is_too_large = refl

dot_general-IsOverflow_example : arithmetic_overflow 4 ≡ arithmetic_overflow 4
dot_general-IsOverflow_example =
    dot_general-IsOverflow 4 (large ∷ large ∷ []) 1 1 1 false false refl refl refl is_too_large
