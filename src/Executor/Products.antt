-- ===== src/Executor/Products.antt =====
-- crates/zkie-prover/src/witness_cpu.rs, dot_general: the output is the rescaled product of matrices.
use zk_ie.Common.{
  if◌then◌else◌, ℕ, zero, suc, ◌+◌, ◌*◌, ◌<◌, Bool, Option, none, some, List, [], ◌∷◌, ◌++◌, Result,
  ok, ◌==◌, ◌&&◌, err, guard, ok_or, ok_or-some, length, get_elem?, ◌≡◌, refl, sym, ap, ◌∙◌, subst,
  arith, >>=-eq-ok, ok-injective,
}
use zk_ie.Common.Int.{ℤ, pos}
use zk_ie.Fixed.{FixedPointError, requantize_raw, ◌*ℤ◌, ◌+ℤ◌}
use zk_ie.Fixed.Requantize.{Divides, IsI64, requantize_raw_iff}
use zk_ie.Executor.{
  no_dims, BackendError, panicked, unsupported_instruction, shape_mismatch, arithmetic_overflow,
  rescaled, accumulate, fits_i128, collect_from, collect_rows, place, dot_cell, operand,
  expect_operands, checked_len, dot_general,
}

-- The exact product of a row and a column: a sum of `k` products.
unfoldable pub dot : (ℕ → ℤ) → (ℕ → ℤ) → ℕ → ℤ
dot a b zero = pos 0
dot a b (suc k) = dot a b k +ℤ a k *ℤ b k

abbrev pub value_of : Option ℤ → ℤ
value_of none = pos 0
value_of (some x) = x

-- The entry (i, j) of the matrix of `rows` by `cols` that a tensor holds, by rows or by columns.
abbrev pub entry : Bool → (rows cols : ℕ) → List ℤ → ℕ → ℕ → ℤ
entry by_columns rows cols xs i j =
    value_of (get_elem? xs (if by_columns then j * rows + i else i * cols + j))

accumulate-dot :
    (index : ℕ) (a b : ℕ → Option ℤ) (left inner : ℕ) {total : ℤ}
    → accumulate index a b left inner (dot (λ i. value_of (a i)) (λ i. value_of (b i)) inner)
      ≡ ok total
    → total ≡ dot (λ i. value_of (a i)) (λ i. value_of (b i)) (inner + left)
unfolding accumulate dot
accumulate-dot index a b zero inner h =
    sym (ok-injective h) ∙ ap (dot (λ i. value_of (a i)) (λ i. value_of (b i))) (omega arith)
accumulate-dot index a b (suc left) inner {total} h =
    let start = dot (λ i. value_of (a i)) (λ i. value_of (b i)) inner in
    let (x, ex, h1) = >>=-eq-ok (ok_or (a inner) panicked) _ h in
    let (y, ey, h2) = >>=-eq-ok (ok_or (b inner) panicked) _ h1 in
    let (_, _, h3) =
      >>=-eq-ok (guard (fits_i128 (start +ℤ x *ℤ y)) (arithmetic_overflow index)) _ h2 in
    let next : start +ℤ x *ℤ y ≡ dot (λ i. value_of (a i)) (λ i. value_of (b i)) (suc inner) = cc (
      ap value_of (ok_or-some (a inner) panicked ex),
      ap value_of (ok_or-some (b inner) panicked ey),
    ) in
    accumulate-dot index a b left (suc inner)
      (subst (λ (s : ℤ). accumulate index a b left (suc inner) s ≡ ok total) next h3)
    ∙ ap (dot (λ i. value_of (a i)) (λ i. value_of (b i))) (omega arith)

length-collect_from :
    {A : Type 0} (left from : ℕ) (f : ℕ → Result BackendError A) {out : List A}
    → collect_from left from f ≡ ok out
    → length out ≡ left
unfolding collect_from
length-collect_from zero from f h = rw (← ok-injective h) refl
length-collect_from (suc left) from f h =
    let (x, _, h1) = >>=-eq-ok (f from) _ h in
    let (rest, e, h2) = >>=-eq-ok (collect_from left (suc from) f) _ h1 in
    rw (← ok-injective h2) (ap suc (length-collect_from left (suc from) f e))

get_elem?-collect_from :
    {A : Type 0} (left from i : ℕ) (f : ℕ → Result BackendError A) {out : List A}
    → i < left
    → collect_from left from f ≡ ok out
    → (x : A) × (get_elem? out i ≡ some x) × (f (from + i) ≡ ok x)
unfolding collect_from
get_elem?-collect_from zero from i f l h = ground arith
get_elem?-collect_from {A} (suc left) from zero f l h =
    let (x, e, h1) = >>=-eq-ok (f from) _ h in
    let (rest, _, h2) = >>=-eq-ok (collect_from left (suc from) f) _ h1 in
    (
      x,
      subst (λ (l : List A). get_elem? l 0 ≡ some x) (ok-injective h2) refl,
      subst (λ (n : ℕ). f n ≡ ok x) (omega arith) e,
    )
get_elem?-collect_from {A} (suc left) from (suc i) f l h =
    let (x, _, h1) = >>=-eq-ok (f from) _ h in
    let (rest, e, h2) = >>=-eq-ok (collect_from left (suc from) f) _ h1 in
    let (y, found, made) = get_elem?-collect_from left (suc from) i f (omega arith) e in
    (
      y,
      subst (λ (l : List A). get_elem? l (suc i) ≡ some y) (ok-injective h2) found,
      subst (λ (n : ℕ). f n ≡ ok y) (omega arith) made,
    )

get_elem?-append_left :
    {A : Type 0} (xs ys : List A) (i : ℕ) → i < length xs → get_elem? (xs ++ ys) i ≡ get_elem? xs i
get_elem?-append_left [] ys i l = ground arith
get_elem?-append_left (x ∷ xs) ys zero l = refl
get_elem?-append_left (x ∷ xs) ys (suc i) l = get_elem?-append_left xs ys i (omega arith)

get_elem?-append_right :
    {A : Type 0} (xs ys : List A) (i : ℕ) → get_elem? (xs ++ ys) (length xs + i) ≡ get_elem? ys i
get_elem?-append_right [] ys i = ap (get_elem? ys) (omega arith)
get_elem?-append_right (x ∷ xs) ys i =
    let e : suc (length xs) + i ≡ suc (length xs + i) = omega arith in
    ap (get_elem? (x ∷ (xs ++ ys))) e ∙ get_elem?-append_right xs ys i

get_elem?-collect_rows :
    {A : Type 0} (left from n row column : ℕ) (f : ℕ → ℕ → Result BackendError A) {out : List A}
    → row < left
    → column < n
    → collect_rows left from n f ≡ ok out
    → (x : A) × (get_elem? out (row * n + column) ≡ some x) × (f (from + row) column ≡ ok x)
unfolding collect_rows
get_elem?-collect_rows zero from n row column f l k h = ground arith
get_elem?-collect_rows {A} (suc left) from n zero column f l k h =
    let (cells, e, h1) = >>=-eq-ok (collect_from n 0 (f from)) _ h in
    let (rest, _, h2) = >>=-eq-ok (collect_rows left (suc from) n f) _ h1 in
    let sized = length-collect_from n 0 (f from) e in
    let (x, found, made) = get_elem?-collect_from n 0 column (f from) k e in
    (
      x,
      subst (λ (o : List A). get_elem? o (0 * n + column) ≡ some x) (ok-injective h2)
          (ap (get_elem? (cells ++ rest)) (omega arith)
            ∙ get_elem?-append_left cells rest column (omega (arith, sized))
            ∙ found),
      subst (λ (i : ℕ). f i column ≡ ok x) (omega arith)
          (subst (λ (i : ℕ). f from i ≡ ok x) (omega arith) made),
    )
get_elem?-collect_rows {A} (suc left) from n (suc row) column f l k h =
    let (cells, e, h1) = >>=-eq-ok (collect_from n 0 (f from)) _ h in
    let (rest, later, h2) = >>=-eq-ok (collect_rows left (suc from) n f) _ h1 in
    let sized = length-collect_from n 0 (f from) e in
    let (x, found, made) =
      get_elem?-collect_rows left (suc from) n row column f (omega arith) k later in
    (
      x,
      subst (λ (o : List A). get_elem? o (suc row * n + column) ≡ some x) (ok-injective h2)
          (ap (get_elem? (cells ++ rest)) (omega (arith, sized))
            ∙ get_elem?-append_right cells rest (row * n + column)
            ∙ found),
      subst (λ (i : ℕ). f i column ≡ ok x) (omega arith) made,
    )

rescaled-eq_ok :
    (index : ℕ) (r : Result FixedPointError (ℤ × ℕ)) {q : ℤ}
    → rescaled index r ≡ ok q
    → (t : ℕ) × (r ≡ ok (q, t))
unfolding rescaled
rescaled-eq_ok index (ok (p, t)) h = (t, ap (λ (x : ℤ). ok (x, t)) (ok-injective h))
rescaled-eq_ok index (err e) h = ground arith

dot_cell-Divides :
    (index : ℕ) (a b : List ℤ) (m n k : ℕ) (trans_a trans_b : Bool) (row column : ℕ) {q : ℤ}
    → dot_cell index a b m n k trans_a trans_b row column ≡ ok q
    → (r : ℕ) × Divides
        (dot (entry trans_a m k a row) (λ inner. entry trans_b k n b inner column) k)
        q
        r
      × IsI64 q
unfolding dot_cell dot
dot_cell-Divides index a b m n k trans_a trans_b row column {q} h =
    let left = λ (inner : ℕ). get_elem? a (place trans_a m k row inner) in
    let right = λ (inner : ℕ). get_elem? b (place trans_b k n inner column) in
    let (total, e, h1) = >>=-eq-ok (accumulate index left right k 0 (pos 0)) _ h in
    let sums : total ≡ dot (λ i. value_of (left i)) (λ i. value_of (right i)) k =
      accumulate-dot index left right k 0 e
      ∙ ap (dot (λ i. value_of (left i)) (λ i. value_of (right i))) (omega arith) in
    let (t, made) = rescaled-eq_ok index (requantize_raw total) h1 in
    let (divides, fits) = (requantize_raw_iff total q t).0 made in
    (t, subst (λ (x : ℤ). Divides x q t) sums divides, fits)

-- An entry of a product of matrices that is returned, of which each may be stored by rows or by
-- columns, is an i64: the exact sum of products of its row and its column, divided by 10 ^ 18 and
-- rounded to the smaller number.
pub dot_general_lem :
    (index : ℕ) (operands : List (List ℤ)) (m n k : ℕ) (batch_dims : List ℕ)
    (trans_a trans_b : Bool) (row column : ℕ) {out : List ℤ}
    → row < m
    → column < n
    → dot_general index operands m n k batch_dims trans_a trans_b ≡ ok out
    → (q : ℤ) × (r : ℕ) × (get_elem? out (row * n + column) ≡ some q)
      × Divides
          (dot
            (entry trans_a m k (operand operands 0) row)
            (λ inner. entry trans_b k n (operand operands 1) inner column)
            k)
          q
          r
      × IsI64 q
unfolding dot_general
dot_general_lem index operands m n k batch_dims trans_a trans_b row column l c h =
    let a = operand operands 0 in
    let b = operand operands 1 in
    let (_, _, h1) = >>=-eq-ok (guard (no_dims batch_dims) unsupported_instruction) _ h in
    let (_, _, h2) = >>=-eq-ok (expect_operands index operands 2) _ h1 in
    let (x, _, h3) = >>=-eq-ok (checked_len index m k) _ h2 in
    let (y, _, h4) = >>=-eq-ok (checked_len index k n) _ h3 in
    let (_, _, h5) =
      >>=-eq-ok (guard (length a == x && length b == y) (shape_mismatch index)) _ h4 in
    let (_, _, h6) = >>=-eq-ok (checked_len index m n) _ h5 in
    let (q, found, made) =
      get_elem?-collect_rows m 0 n row column (dot_cell index a b m n k trans_a trans_b) l c h6 in
    let start : 0 + row ≡ row = omega arith in
    let (r, divides, fits) =
      dot_cell-Divides index a b m n k trans_a trans_b row column
        (subst (λ (i : ℕ). dot_cell index a b m n k trans_a trans_b i column ≡ ok q) start made) in
    (q, r, found, divides, fits)
