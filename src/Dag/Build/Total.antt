-- ===== src/Dag/Build/Total.antt =====
-- dag/model.rs, build_dag: a program with valid references and ranges that cover it have a graph.
use zk_ie.Common.{
  ℕ, suc, ◌+◌, ◌<◌, ◌≤◌, ◌≢◌, true, false, some, List, [], ◌∷◌, ok, guard, ◌≡◌, refl, subst, arith,
  length, ltb, ◌==◌, if◌then◌else◌, total-bind, >>=-eq-ok, ok-injective, Bool-cases, inl, inr,
  compare, All,
}
use zk_ie.Common.Sort.{sort_by, sort_by-All}
use zk_ie.Dag.{CompiledInstruction, Register, graph_input, weight, virtual, Graph}
use zk_ie.Dag.Partition.{check_inputs, validate_virtual_references, invalid_virtual_reference}
use zk_ie.Dag.Build.{
  ShardSpec, check_contiguous, contains, shard_from, shard_of, Uses, add_use, collect_inputs,
  collect, edges_of, uses_of, build_dag, unknown_register, forward_register,
}

-- An instruction that the ranges cover has a shard.
shard_from-total :
    (index expected : ℕ) (specs : List ShardSpec) (i : ℕ) {end : ℕ}
    → check_contiguous index expected specs ≡ ok end
    → expected ≤ i
    → i < end
    → (a : ℕ) × (shard_from index specs i ≡ some a)
unfolding check_contiguous shard_from
shard_from-total index expected [] i h l u = absurd (ground (arith, h))
shard_from-total index expected (s ∷ ss) i {end} h l u =
    elim (Bool-cases (s.range.start == expected)) [
      | inr other ↦ absurd (ground (arith, h, other))
      | inl same ↦ elim (Bool-cases (contains s.range i)) [
        | inl here ↦ (index, rw here refl)
        | inr later ↦
            let (a, e) =
              shard_from-total (suc index) s.range.end ss i {end = end} (rw same at h)
                (ground (arith, same, later)) u in
            (a, rw later e)
      ]
    ]

module _ (specs : List ShardSpec) (total : ℕ) (h : check_contiguous 0 0 specs ≡ ok total) where
  shard_of-total : (i : ℕ) → i < total → (a : ℕ) × (shard_of specs i ≡ ok a)
  unfolding shard_of
  shard_of-total i l =
      let (a, e) = shard_from-total 0 0 specs i {end = total} h (omega arith) l in (a, rw e refl)

  collect_inputs-total :
      (consumer shard : ℕ) (rs : List Register) (m : Uses)
      → consumer < total
      → check_inputs consumer rs ≡ ok tt
      → (out : Uses) × (collect_inputs specs total consumer shard rs m ≡ ok out)
  unfolding collect_inputs
  collect_inputs-total consumer shard [] m l v = (m, refl)
  collect_inputs-total consumer shard (graph_input _ ∷ rs) m l v =
      collect_inputs-total consumer shard rs m l v
  collect_inputs-total consumer shard (weight _ ∷ rs) m l v =
      collect_inputs-total consumer shard rs m l v
  collect_inputs-total consumer shard (virtual p ∷ rs) m l v =
      let (_, prior, v1) =
        >>=-eq-ok (guard (ltb p consumer) (invalid_virtual_reference consumer (virtual p))) _ v in
      let before : p < consumer = ground (arith, prior) in
      let known : ltb p total ≡ true = ground (arith, before, l) in
      let is : ltb p consumer ≡ true = ground (arith, before) in
      let (producer, e) = shard_of-total p (omega arith) in
      total-bind (guard (ltb p total) (unknown_register consumer (virtual p))) _ tt (rw known refl)
        (total-bind (guard (ltb p consumer) (forward_register consumer (virtual p))) _ tt
          (rw is refl)
          (total-bind (shard_of specs p) _ producer e (
            collect_inputs-total consumer shard rs
              (if producer == shard then m else add_use p shard m) l v1)))

  collect-total :
      {Op : Type 0} (consumer : ℕ) (cs : List (CompiledInstruction Op)) (m : Uses)
      → consumer + length cs ≡ total
      → validate_virtual_references consumer cs ≡ ok tt
      → (out : Uses) × (collect specs total consumer cs m ≡ ok out)
  unfolding collect validate_virtual_references
  collect-total consumer [] m l v = (m, refl)
  collect-total consumer (c ∷ cs) m l v =
      let (_, inputs, v1) = >>=-eq-ok (check_inputs consumer c.inputs) _ v in
      let (shard, e) = shard_of-total consumer (omega arith) in
      let (uses, f) = collect_inputs-total consumer shard c.inputs m (omega arith) inputs in
      total-bind (shard_of specs consumer) _ shard e (
        total-bind (collect_inputs specs total consumer shard c.inputs m) _ uses f
          (collect-total (suc consumer) cs uses (omega arith) v1))

  edges_of-total :
      (m : Uses)
      → All (λ u. u.0 < total) m
      → (es : List zk_ie.Dag.Edge) × (edges_of specs m ≡ ok es)
  unfolding edges_of
  edges_of-total [] b = ([], refl)
  edges_of-total ((p, cs) ∷ m) b =
      let (producer, e) = shard_of-total p b.0 in
      let (rest, f) = edges_of-total m b.1 in
      total-bind (shard_of specs p) _ producer e (total-bind (edges_of specs m) _ rest f (_, refl))

-- The producers of the uses are instructions of the program.
abbrev Within : ℕ → Uses → Type 0
Within total m = All (λ u. u.0 < total) m

add_use-Within :
    (total p c : ℕ) (m : Uses) → p < total → Within total m → Within total (add_use p c m)
unfolding add_use
add_use-Within total p c [] l w = (l, tt)
add_use-Within total p c ((q, cs) ∷ m) l w = ground (arith, add_use-Within total p c m l)

module _ (specs : List ShardSpec) (total : ℕ) where
  collect_inputs-Within :
      (consumer shard : ℕ) (rs : List Register) (m : Uses) {out : Uses}
      → Within total m
      → collect_inputs specs total consumer shard rs m ≡ ok out
      → Within total out
  unfolding collect_inputs
  collect_inputs-Within consumer shard [] m w h = subst (Within total) (ok-injective h) w
  collect_inputs-Within consumer shard (graph_input _ ∷ rs) m w h =
      collect_inputs-Within consumer shard rs m w h
  collect_inputs-Within consumer shard (weight _ ∷ rs) m w h =
      collect_inputs-Within consumer shard rs m w h
  collect_inputs-Within consumer shard (virtual p ∷ rs) m w h =
      let (_, known, h1) =
        >>=-eq-ok (guard (ltb p total) (unknown_register consumer (virtual p))) _ h in
      let (_, _, h2) =
        >>=-eq-ok (guard (ltb p consumer) (forward_register consumer (virtual p))) _ h1 in
      let (producer, _, h3) = >>=-eq-ok (shard_of specs p) _ h2 in
      let next =
        collect_inputs-Within consumer shard rs
          (if producer == shard then m else add_use p shard m) in
      elim (Bool-cases (producer == shard)) [
        | inl same ↦ next (rw same w) h3
        | inr other ↦ next (rw other (add_use-Within total p shard m (ground (arith, known)) w)) h3
      ]

  collect-Within :
      {Op : Type 0} (consumer : ℕ) (cs : List (CompiledInstruction Op)) (m : Uses) {out : Uses}
      → Within total m
      → collect specs total consumer cs m ≡ ok out
      → Within total out
  unfolding collect
  collect-Within consumer [] m w h = subst (Within total) (ok-injective h) w
  collect-Within consumer (c ∷ cs) m w h =
      let (shard, _, h1) = >>=-eq-ok (shard_of specs consumer) _ h in
      let (uses, e, h2) = >>=-eq-ok (collect_inputs specs total consumer shard c.inputs m) _ h1 in
      collect-Within (suc consumer) cs uses (collect_inputs-Within consumer shard c.inputs m w e) h2

-- A program whose instructions read only what earlier ones make, cut into at least one range that
-- follow one another from its first instruction to its last, has a graph: shard_of never panics
-- on it.
pub build_dag_total :
    {Op : Type 0} (program : List (CompiledInstruction Op)) (specs : List ShardSpec)
    → length specs ≢ 0
    → check_contiguous 0 0 specs ≡ ok (length program)
    → validate_virtual_references 0 program ≡ ok tt
    → (g : Graph) × (build_dag program specs ≡ ok g)
unfolding build_dag uses_of
build_dag_total program specs any h v =
    let total = length program in
    let (m, e) = collect-total specs total h 0 program [] (omega arith) v in
    let by_producer = λ (a b : ℕ × List ℕ). compare a.0 b.0 in
    let (es, f) = edges_of-total specs total h (sort_by by_producer m) (
      sort_by-All by_producer (λ u. u.0 < total) m
        (collect-Within specs total 0 program [] tt e)) in
    total-bind (uses_of program specs) _ (sort_by by_producer m)
      (rw (ne_zero (length specs) any) (rw h (rw (self total) (rw e refl))))
      (total-bind (edges_of specs (sort_by by_producer m)) _ es f (_, refl))
  where
    ne_zero : (n : ℕ) → n ≢ 0 → (n == 0) ≡ false
    ne_zero n k = ground arith

    self : (n : ℕ) → (n == n) ≡ true
    self n = ground arith
