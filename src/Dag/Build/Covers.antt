-- ===== src/Dag/Build/Covers.antt =====
-- dag/model.rs, build_dag: every read across shards has its edge.
use zk_ie.Common.{
  ℕ, zero, suc, ◌+◌, ◌<◌, ◌≢◌, Bool, true, false, ◌&&◌, some, List, [], ◌∷◌, ◌++◌, ok, guard, ◌≡◌,
  inl, inr, refl, sym, ◌∙◌, subst, arith, Any, map, tally, any, length, if◌then◌else◌, ltb, ◌==◌,
  >>=-eq-ok, ok-injective, compare, Bool-cases, get_elem?,
}
use zk_ie.Common.Sort.{sort_by, tally-sort_by}
use zk_ie.Common.Text.{cmp_str}
use zk_ie.Dag.{CompiledInstruction, Register, graph_input, weight, virtual, Edge, Graph}
use zk_ie.Dag.Build.{
  ShardSpec, shard_from, shard_of, Uses, add_use, collect_inputs, collect, kind_of, edge_of,
  edges_of, compare_edge, named, uses_of, build_dag, index_of, unknown_register, forward_register,
}
use zk_ie.Dag.Build.Uses.{shard_of-some}
use zk_ie.Dag.Build.Edges.{uses_of-Analysed}

-- The entry of `p`, where it lists the shard `c`.
abbrev is_use : ℕ → ℕ → ℕ × List ℕ → Bool
is_use p c u = u.0 == p && any (λ d. d == c) u.1

any-append_self : (cs : List ℕ) (c : ℕ) → any (λ d. d == c) (cs ++ c ∷ []) ≡ true
any-append_self [] c = ground arith
any-append_self (d ∷ cs) c = ground (arith, any-append_self cs c)

any-append_left :
    (cs : List ℕ) (d c : ℕ) → any (λ x. x == d) cs ≡ true → any (λ x. x == d) (cs ++ c ∷ []) ≡ true
any-append_left [] d c h = ground arith
any-append_left (x ∷ cs) d c h = ground (arith, any-append_left cs d c)

add_use-is_use : (p c : ℕ) (m : Uses) → 0 < tally (is_use p c) (add_use p c m)
unfolding add_use
add_use-is_use p c [] = ground arith
add_use-is_use p c ((q, cs) ∷ m) = ground (arith, add_use-is_use p c m, any-append_self cs c)

-- What is listed stays listed.
add_use-keeps :
    (p c q d : ℕ) (m : Uses) → 0 < tally (is_use q d) m → 0 < tally (is_use q d) (add_use p c m)
unfolding add_use
add_use-keeps p c q d [] h = ground arith
add_use-keeps p c q d ((r, cs) ∷ m) h =
    ground (arith, add_use-keeps p c q d m, any-append_left cs d c)

module _ (specs : List ShardSpec) (total : ℕ) where
  collect_inputs-keeps :
      (q d consumer shard : ℕ) (rs : List Register) (m : Uses) {out : Uses}
      → 0 < tally (is_use q d) m
      → collect_inputs specs total consumer shard rs m ≡ ok out
      → 0 < tally (is_use q d) out
  unfolding collect_inputs
  collect_inputs-keeps q d consumer shard [] m k h =
      subst (λ (o : Uses). 0 < tally (is_use q d) o) (ok-injective h) k
  collect_inputs-keeps q d consumer shard (graph_input _ ∷ rs) m k h =
      collect_inputs-keeps q d consumer shard rs m k h
  collect_inputs-keeps q d consumer shard (weight _ ∷ rs) m k h =
      collect_inputs-keeps q d consumer shard rs m k h
  collect_inputs-keeps q d consumer shard (virtual p ∷ rs) m k h =
      let (_, _, h1) =
        >>=-eq-ok (guard (ltb p total) (unknown_register consumer (virtual p))) _ h in
      let (_, _, h2) =
        >>=-eq-ok (guard (ltb p consumer) (forward_register consumer (virtual p))) _ h1 in
      let (producer, _, h3) = >>=-eq-ok (shard_of specs p) _ h2 in
      let next =
        collect_inputs-keeps q d consumer shard rs
          (if producer == shard then m else add_use p shard m) in
      elim (Bool-cases (producer == shard)) [
        | inl same ↦ next (rw same k) h3
        | inr other ↦ next (rw other (add_use-keeps p shard q d m k)) h3
      ]

  -- Each register that is made in another shard is listed.
  collect_inputs-covers :
      (consumer shard p a : ℕ) (rs : List Register) (m : Uses) {out : Uses}
      → Any (λ r. r ≡ virtual p) rs
      → shard_from 0 specs p ≡ some a
      → a ≢ shard
      → collect_inputs specs total consumer shard rs m ≡ ok out
      → 0 < tally (is_use p shard) out
  unfolding collect_inputs
  collect_inputs-covers consumer shard p a [] m y e ne h = absurd y
  collect_inputs-covers consumer shard p a (graph_input _ ∷ rs) m (inl y) e ne h =
      absurd (ground (arith, y))
  collect_inputs-covers consumer shard p a (graph_input _ ∷ rs) m (inr y) e ne h =
      collect_inputs-covers consumer shard p a rs m y e ne h
  collect_inputs-covers consumer shard p a (weight _ ∷ rs) m (inl y) e ne h =
      absurd (ground (arith, y))
  collect_inputs-covers consumer shard p a (weight _ ∷ rs) m (inr y) e ne h =
      collect_inputs-covers consumer shard p a rs m y e ne h
  collect_inputs-covers consumer shard p a (virtual q ∷ rs) m y e ne h =
      let (_, _, h1) =
        >>=-eq-ok (guard (ltb q total) (unknown_register consumer (virtual q))) _ h in
      let (_, _, h2) =
        >>=-eq-ok (guard (ltb q consumer) (forward_register consumer (virtual q))) _ h1 in
      let (producer, found, h3) = >>=-eq-ok (shard_of specs q) _ h2 in
      elim y [
        | inr later ↦ collect_inputs-covers consumer shard p a rs _ later e ne h3
        | inl is ↦
            let same : q ≡ p = ground (arith, is) in
            let at : producer ≡ a = ground (arith, e, shard_of-some specs q found, same) in
            let other : (producer == shard) ≡ false = ground (arith, at, ne) in
            collect_inputs-keeps p shard consumer shard rs
              (if producer == shard then m else add_use q shard m)
              (rw (other, same) (add_use-is_use p shard m)) h3
      ]

module _ {Op : Type 0} (specs : List ShardSpec) (total : ℕ) where
  collect-keeps :
      (q d consumer : ℕ) (cs : List (CompiledInstruction Op)) (m : Uses) {out : Uses}
      → 0 < tally (is_use q d) m
      → collect specs total consumer cs m ≡ ok out
      → 0 < tally (is_use q d) out
  unfolding collect
  collect-keeps q d consumer [] m k h =
      subst (λ (o : Uses). 0 < tally (is_use q d) o) (ok-injective h) k
  collect-keeps q d consumer (c ∷ cs) m k h =
      let (shard, _, h1) = >>=-eq-ok (shard_of specs consumer) _ h in
      let (uses, e, h2) = >>=-eq-ok (collect_inputs specs total consumer shard c.inputs m) _ h1 in
      collect-keeps q d (suc consumer) cs uses
        (collect_inputs-keeps specs total q d consumer shard c.inputs m k e) h2

  collect-covers :
      (consumer j : ℕ) (cs : List (CompiledInstruction Op)) (m : Uses) {out : Uses}
      (c : CompiledInstruction Op) (p a b : ℕ)
      → get_elem? cs j ≡ some c
      → Any (λ r. r ≡ virtual p) c.inputs
      → shard_from 0 specs p ≡ some a
      → shard_from 0 specs (consumer + j) ≡ some b
      → a ≢ b
      → collect specs total consumer cs m ≡ ok out
      → 0 < tally (is_use p b) out
  unfolding collect
  collect-covers consumer j [] m c p a b g y e f ne h = ground arith
  collect-covers consumer zero (x ∷ cs) m {out} c p a b g y e f ne h =
      let (shard, found, h1) = >>=-eq-ok (shard_of specs consumer) _ h in
      let (uses, i, h2) = >>=-eq-ok (collect_inputs specs total consumer shard x.inputs m) _ h1 in
      let is : x ≡ c = ground (arith, g) in
      let at : some shard ≡ some b =
        sym (shard_of-some specs consumer found)
        ∙ subst (λ (n : ℕ). shard_from 0 specs n ≡ some b) (omega arith) f in
      let here : shard ≡ b = ground (arith, at) in
      collect-keeps p b (suc consumer) cs uses
        (subst (λ (s : ℕ). 0 < tally (is_use p s) uses) here
          (collect_inputs-covers specs total consumer shard p a x.inputs m
            (subst (λ (i : CompiledInstruction Op). Any (λ r. r ≡ virtual p) i.inputs) (sym is) y) e
            (λ q. ne (q ∙ here)) i))
        h2
  collect-covers consumer (suc j) (x ∷ cs) m c p a b g y e f ne h =
      let (shard, found, h1) = >>=-eq-ok (shard_of specs consumer) _ h in
      let (uses, i, h2) = >>=-eq-ok (collect_inputs specs total consumer shard x.inputs m) _ h1 in
      collect-covers (suc consumer) j cs uses c p a b g y e
        (subst (λ (n : ℕ). shard_from 0 specs n ≡ some b) (omega arith) f) ne h2

-- An edge that brings the register `p` to the shard `c`.
abbrev pub brings : ℕ → ℕ → Edge → Bool
brings p c e = index_of e.register == p && e.consumer == c

tally-append : (t : Edge → Bool) (a b : List Edge) → tally t (a ++ b) ≡ tally t a + tally t b
tally-append t [] b = omega arith
tally-append t (x ∷ a) b = omega (arith, tally-append t a b)

tally-edges :
    (p c producer : ℕ) (kind : zk_ie.Dag.EdgeKind) (cs : List ℕ)
    → any (λ d. d == c) cs ≡ true
    → 0 < tally (brings p c) (map (edge_of p producer kind) cs)
tally-edges p c producer kind [] h = ground arith
tally-edges p c producer kind (d ∷ cs) h = ground (arith, tally-edges p c producer kind cs)

edges_of-covers :
    (specs : List ShardSpec) (p c : ℕ) (m : Uses) {es : List Edge}
    → 0 < tally (is_use p c) m
    → edges_of specs m ≡ ok es
    → 0 < tally (brings p c) es
unfolding edges_of
edges_of-covers specs p c [] k h = ground arith
edges_of-covers specs p c ((q, cs) ∷ m) {es} k h =
    let (producer, _, h1) = >>=-eq-ok (shard_of specs q) _ h in
    let (rest, later, h2) = >>=-eq-ok (edges_of specs m) _ h1 in
    let own = map (edge_of q producer (kind_of producer cs)) cs in
    subst (λ (l : List Edge). 0 < tally (brings p c) l) (ok-injective h2)
      (rw (tally-append (brings p c) own rest) (elim (Bool-cases (is_use p c (q, cs))) [
        | inl here ↦
            let same : q ≡ p = ground (arith, here) in
            let t : 0 < tally (brings p c) own =
              subst
                (λ (x : ℕ).
                  0 < tally (brings p c) (map (edge_of x producer (kind_of producer cs)) cs))
                (sym same)
                (tally-edges p c producer (kind_of producer cs) cs (ground (arith, here))) in
            omega (arith, t)
        | inr other ↦
            let t = edges_of-covers specs p c m (ground (arith, k, other)) later in omega (arith, t)
      ]))

tally-named : (p c : ℕ) (es : List Edge) → tally (brings p c) (map named es) ≡ tally (brings p c) es
unfolding named
tally-named p c [] = refl
tally-named p c (e ∷ es) = ground (arith, tally-named p c es)

-- Where an instruction reads a register that an instruction of another shard makes, the graph
-- that is built has an edge that brings the register to the shard of the reader.
pub build_dag-covers :
    {Op : Type 0} (program : List (CompiledInstruction Op)) (specs : List ShardSpec) {g : Graph}
    (reader p a b : ℕ) (c : CompiledInstruction Op)
    → build_dag program specs ≡ ok g
    → get_elem? program reader ≡ some c
    → Any (λ r. r ≡ virtual p) c.inputs
    → shard_from 0 specs p ≡ some a
    → shard_from 0 specs reader ≡ some b
    → a ≢ b
    → 0 < tally (brings p b) g.edges
unfolding build_dag
build_dag-covers program specs reader p a b c h s y e f ne =
    let (m, uses, h1) = >>=-eq-ok (uses_of program specs) _ h in
    let (es, edges, h2) = >>=-eq-ok (edges_of specs m) _ h1 in
    let an = uses_of-Analysed program specs uses in
    let listed =
      collect-covers specs (length program) 0 reader program [] c p a b s y e
        (subst (λ (n : ℕ). shard_from 0 specs n ≡ some b) (omega arith) f) ne an.collected in
    let sorted : 0 < tally (is_use p b) m =
      subst (λ (l : Uses). 0 < tally (is_use p b) l) (sym an.sorted)
        (rw (tally-sort_by (λ a b. compare a.0 b.0) (is_use p b) an.found) listed) in
    let t = edges_of-covers specs p b m sorted edges in
    subst (λ (g : Graph). 0 < tally (brings p b) g.edges) (ok-injective h2)
      (rw
        (tally-sort_by (λ a b. cmp_str a.id b.id) (brings p b)
          (map named (sort_by compare_edge es)))
        (rw (tally-named p b (sort_by compare_edge es))
          (rw (tally-sort_by compare_edge (brings p b) es) t)))
