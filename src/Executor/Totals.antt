-- ===== src/Executor/Totals.antt =====
-- crates/zkie-prover/src/witness_cpu.rs, dot_general: on tensors of the right sizes no index is out of
-- range, and nothing fails but a sum, an entry or a size that is too large.
use zk_ie.Common.{
  ℕ, zero, suc, ◌+◌, ◌*◌, ◌<◌, Bool, true, false, Option, none, some, List, [], ◌∷◌, Result, ok,
  err, guard, ok_or, length, get_elem?, ◌≡◌, refl, sym, ◌∙◌, arith, ◌==◌, ◌&&◌, Fails, Fails-bind,
  Fails-ok, Fails-err, checked_mul_u64,
}
use zk_ie.Common.Int.{ℤ, pos}
use zk_ie.Fixed.{FixedPointError, requantize_raw, ◌*ℤ◌, ◌+ℤ◌}
use zk_ie.Executor.{
  BackendError, panicked, shape_mismatch, arithmetic_overflow, rescaled, accumulate, fits_i128,
  collect_from, collect_rows, place, dot_cell, operand, expect_operands, checked_len, dot_general,
}

module _ (index : ℕ) where
  -- The error of a number that is too large.
  abbrev IsOverflow : BackendError → Type 0
  IsOverflow e = e ≡ arithmetic_overflow index

  guard-IsOverflow : (b : Bool) → Fails IsOverflow (guard b (arithmetic_overflow index))
  guard-IsOverflow true = Fails-ok
  guard-IsOverflow false = Fails-err refl

  present-IsOverflow :
      {A : Type 0} (o : Option A) → (x : A) × (o ≡ some x) → Fails IsOverflow (ok_or o panicked)
  present-IsOverflow none p = ground (arith, p.1)
  present-IsOverflow (some x) p = Fails-ok

  rescaled-IsOverflow : (r : Result FixedPointError (ℤ × ℕ)) → Fails IsOverflow (rescaled index r)
  unfolding rescaled
  rescaled-IsOverflow (ok q) = Fails-ok
  rescaled-IsOverflow (err e) = Fails-err refl

  option-IsOverflow :
      {A : Type 0} (o : Option A) → Fails IsOverflow (ok_or o (arithmetic_overflow index))
  option-IsOverflow none = Fails-err refl
  option-IsOverflow (some x) = Fails-ok

  checked_len-IsOverflow : (a b : ℕ) → Fails IsOverflow (checked_len index a b)
  unfolding checked_len
  checked_len-IsOverflow a b = option-IsOverflow (checked_mul_u64 a b)

  accumulate-IsOverflow :
      (a b : ℕ → Option ℤ) (left inner : ℕ) (total : ℤ)
      → ((i : ℕ) → i < inner + left → ((x : ℤ) × (a i ≡ some x)) × ((y : ℤ) × (b i ≡ some y)))
      → Fails IsOverflow (accumulate index a b left inner total)
  unfolding accumulate
  accumulate-IsOverflow a b zero inner total p = Fails-ok
  accumulate-IsOverflow a b (suc left) inner total p =
      let here = p inner (omega arith) in
      Fails-bind (present-IsOverflow (a inner) here.0) (λ x _.
        Fails-bind (present-IsOverflow (b inner) here.1) (λ y _.
          Fails-bind (guard-IsOverflow (fits_i128 (total +ℤ x *ℤ y))) (λ _ _.
            accumulate-IsOverflow a b left (suc inner) (total +ℤ x *ℤ y)
              (λ i l. p i (omega arith)))))

  collect_from-IsOverflow :
      {A : Type 0} (left from : ℕ) (f : ℕ → Result BackendError A)
      → ((i : ℕ) → i < from + left → Fails IsOverflow (f i))
      → Fails IsOverflow (collect_from left from f)
  unfolding collect_from
  collect_from-IsOverflow zero from f p = Fails-ok
  collect_from-IsOverflow (suc left) from f p = Fails-bind (p from (omega arith)) (λ x _.
      Fails-bind (collect_from-IsOverflow left (suc from) f (λ i l. p i (omega arith)))
        (λ _ _. Fails-ok))

  collect_rows-IsOverflow :
      {A : Type 0} (left from n : ℕ) (f : ℕ → ℕ → Result BackendError A)
      → ((i j : ℕ) → i < from + left → j < n → Fails IsOverflow (f i j))
      → Fails IsOverflow (collect_rows left from n f)
  unfolding collect_rows
  collect_rows-IsOverflow zero from n f p = Fails-ok
  collect_rows-IsOverflow (suc left) from n f p =
      Fails-bind
        (collect_from-IsOverflow n 0 (f from) (λ j l. p from j (omega arith) (omega arith)))
        (λ _ _.
          Fails-bind
            (collect_rows-IsOverflow left (suc from) n f (λ i j l k. p i j (omega arith) k))
            (λ _ _. Fails-ok))

cell-lt : (i j a b : ℕ) → i < a → j < b → j * a + i < a * b
cell-lt i j a zero l k = omega arith
cell-lt i zero a (suc b) l k = omega arith
cell-lt i (suc j) a (suc b) l k = let e = cell-lt i j a b l (omega arith) in omega (arith, e)

-- Every entry of a matrix has its place in a tensor of its size.
place-lt :
    (transposed : Bool) (rows cols i j : ℕ)
    → i < rows
    → j < cols
    → place transposed rows cols i j < rows * cols
place-lt true rows cols i j l k = cell-lt i j rows cols l k
place-lt false rows cols i j l k = let e = cell-lt j i cols rows k l in omega (arith, e)

get_elem?-present :
    {A : Type 0} (xs : List A) (i : ℕ) → i < length xs → (x : A) × (get_elem? xs i ≡ some x)
get_elem?-present [] i l = ground arith
get_elem?-present (x ∷ xs) zero l = (x, refl)
get_elem?-present (x ∷ xs) (suc i) l = get_elem?-present xs i (omega arith)

expect_operands-IsOverflow :
    (index : ℕ) (operands : List (List ℤ)) (n : ℕ)
    → length operands ≡ n
    → Fails (IsOverflow index) (expect_operands index operands n)
unfolding expect_operands
expect_operands-IsOverflow index operands n h =
    let e : (length operands == n) ≡ true = ground (arith, h) in rw e Fails-ok

checked_len-eq : (index a b : ℕ) {x : ℕ} → checked_len index a b ≡ ok x → x ≡ a * b
unfolding checked_len
checked_len-eq index a b h = ground (arith, h)

sized-IsOverflow :
    (index a b x y : ℕ)
    → a ≡ x
    → b ≡ y
    → Fails (IsOverflow index) (guard (a == x && b == y) (shape_mismatch index))
sized-IsOverflow index a b x y h k =
    let e : (a == x && b == y) ≡ true = ground (arith, h, k) in rw e Fails-ok

dot_cell-IsOverflow :
    (index : ℕ) (a b : List ℤ) (m n k : ℕ) (trans_a trans_b : Bool) (row column : ℕ)
    → row < m
    → column < n
    → length a ≡ m * k
    → length b ≡ k * n
    → Fails (IsOverflow index) (dot_cell index a b m n k trans_a trans_b row column)
unfolding dot_cell
dot_cell-IsOverflow index a b m n k trans_a trans_b row column l r sa sb =
    Fails-bind
      (accumulate-IsOverflow index (λ inner. get_elem? a (place trans_a m k row inner))
        (λ inner. get_elem? b (place trans_b k n inner column)) k 0 (pos 0)
        (λ i s.
          let p = place-lt trans_a m k row i l (omega arith) in
          let q = place-lt trans_b k n i column (omega arith) r in
          (
            get_elem?-present a (place trans_a m k row i) (omega (arith, sa, p)),
            get_elem?-present b (place trans_b k n i column) (omega (arith, sb, q)),
          )))
      (λ total _. rescaled-IsOverflow index (requantize_raw total))

-- A product of two tensors of the sizes of its matrices, without batch dimensions, fails only
-- with the overflow of its instruction: no index is out of range.
pub dot_general-IsOverflow :
    (index : ℕ) (operands : List (List ℤ)) (m n k : ℕ) (trans_a trans_b : Bool) {e : BackendError}
    → length operands ≡ 2
    → length (operand operands 0) ≡ m * k
    → length (operand operands 1) ≡ k * n
    → dot_general index operands m n k [] trans_a trans_b ≡ err e
    → e ≡ arithmetic_overflow index
unfolding dot_general
dot_general-IsOverflow index operands m n k trans_a trans_b {e} two sa sb h =
    let a = operand operands 0 in
    let b = operand operands 1 in
    let fails : Fails (IsOverflow index) (dot_general index operands m n k [] trans_a trans_b) =
      (Fails-bind (expect_operands-IsOverflow index operands 2 two) (λ _ _.
        Fails-bind (checked_len-IsOverflow index m k) (λ x p.
          Fails-bind (checked_len-IsOverflow index k n) (λ y q.
            Fails-bind
              (sized-IsOverflow index (length a) (length b) x y
                (sa ∙ sym (checked_len-eq index m k p)) (sb ∙ sym (checked_len-eq index k n q)))
              (λ _ _. Fails-bind (checked_len-IsOverflow index m n) (λ _ _.
                collect_rows-IsOverflow index m 0 n (dot_cell index a b m n k trans_a trans_b)
                  (λ i j l r.
                    dot_cell-IsOverflow index a b m n k trans_a trans_b i j (omega arith) r sa
                      sb))))))) in
    fails.why e h
