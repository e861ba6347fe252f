-- ===== src/Dag/Build/Edges.antt =====
-- dag/model.rs, build_dag: every edge goes forward, from the shard that makes a register to one that
-- reads it.
use zk_ie.Common.{
  ◌⊎◌, inl, ℕ, ◌+◌, ◌-◌, ◌<◌, not, some, List, [], ◌∷◌, ok, guard, ◌≡◌, refl, sym, ap, ◌∙◌, subst,
  arith, All, All-append, map, length, ◌==◌, >>=-eq-ok, ok-injective, compare, inl, get_elem?,
}
use zk_ie.Common.Sort.{sort_by, sort_by-All}
use zk_ie.Common.Text.{cmp_str}
use zk_ie.Dag.{CompiledInstruction, virtual, Edge, EdgeKind, broadcast, Graph}
use zk_ie.Dag.Build.{
  ShardSpec, no_shards, not_contiguous, check_contiguous, shard_from, shard_of, Uses, collect,
  kind_of, edge_of, edges_of, compare_edge, named, uses_of, build_dag,
}
use zk_ie.Dag.Build.Order.{Forward, shard-lt, shard-lt_of_lt}
use zk_ie.Dag.Build.Uses.{IsUse, AllUses, collect-AllUses, shard_of-some}

module _ {Op : Type 0} (program : List (CompiledInstruction Op)) (specs : List ShardSpec) where
  -- An edge carries a register from the shard of its instruction to a later one, of which an
  -- instruction reads it; a sequential edge goes to the next shard.
  pub record IsEdge (e : Edge) : Type 0 where
    pub index : ℕ
    pub carries : e.register ≡ virtual index
    pub made_in : shard_from 0 specs index ≡ some e.producer
    pub use_of : IsUse program specs index e.consumer
    pub forward : e.producer < e.consumer
    pub in_range : e.consumer < length specs
    pub next : (e.kind ≡ broadcast) ⊎ (e.consumer ≡ e.producer + 1)

  named-IsEdge : (e : Edge) → IsEdge e → IsEdge (named e)
  unfolding named
  named-IsEdge e i = record {
    index = i.index;
    carries = i.carries;
    made_in = i.made_in;
    use_of = i.use_of;
    forward = i.forward;
    in_range = i.in_range;
    next = i.next;
  }

  -- A kind for an edge from `producer` to `c`: a sequential one only to the next shard.
  abbrev Suits : ℕ → EdgeKind → ℕ → Type 0
  Suits producer kind c = (kind ≡ broadcast) ⊎ (c ≡ producer + 1)

  module _ {end : ℕ} (f : Forward specs) (h : check_contiguous 0 0 specs ≡ ok end) where
    use-IsEdge :
        (p producer : ℕ) (kind : EdgeKind) (c : ℕ)
        → shard_from 0 specs p ≡ some producer
        → Suits producer kind c
        → IsUse program specs p c
        → IsEdge (edge_of p producer kind c)
    use-IsEdge p producer kind c e k u =
        let same : u.maker_shard ≡ producer = ground (arith, u.made_in, e) in
        record {
          index = p;
          carries = refl;
          made_in = e;
          use_of = u;
          forward =
              shard-lt_of_lt specs f h p u.reader e u.reads_in u.earlier
                (λ q. u.crosses (same ∙ q));
          in_range = shard-lt specs f h u.reader u.reads_in;
          next = k;
        }

    uses-IsEdge :
        (p producer : ℕ) (kind : EdgeKind) (cs : List ℕ)
        → shard_from 0 specs p ≡ some producer
        → All (Suits producer kind) cs
        → All (IsUse program specs p) cs
        → All IsEdge (map (edge_of p producer kind) cs)
    uses-IsEdge p producer kind [] e k u = tt
    uses-IsEdge p producer kind (c ∷ cs) e k u =
        (use-IsEdge p producer kind c e k.0 u.0, uses-IsEdge p producer kind cs e k.1 u.1)

    kinds : (producer : ℕ) (cs : List ℕ) → All (Suits producer (kind_of producer cs)) cs
    kinds producer [] = tt
    kinds producer (c ∷ []) = (ground arith, tt)
    kinds producer (c ∷ d ∷ cs) = (inl refl, (inl refl, every cs))
      where
        every : (l : List ℕ) → All (Suits producer broadcast) l
        every [] = tt
        every (_ ∷ l) = (inl refl, every l)

    edges_of-IsEdge :
        (m : Uses) {es : List Edge}
        → AllUses program specs m
        → edges_of specs m ≡ ok es
        → All IsEdge es
    unfolding edges_of
    edges_of-IsEdge [] a e = subst (All IsEdge) (ok-injective e) tt
    edges_of-IsEdge ((p, cs) ∷ m) a e =
        let (producer, found, e1) = >>=-eq-ok (shard_of specs p) _ e in
        let (rest, later, e2) = >>=-eq-ok (edges_of specs m) _ e1 in
        subst (All IsEdge) (ok-injective e2) (
          All-append IsEdge (map (edge_of p producer (kind_of producer cs)) cs) rest
            (uses-IsEdge p producer (kind_of producer cs) cs (shard_of-some specs p found)
              (kinds producer cs) a.0)
            (edges_of-IsEdge m a.1 later))

  map-named : (es : List Edge) → All IsEdge es → All IsEdge (map named es)
  map-named [] a = tt
  map-named (e ∷ es) a = (named-IsEdge e a.0, map-named es a.1)

  -- The parts of an analysis that succeeded.
  pub record Analysed (m : Uses) : Type 0 where
    pub end : ℕ
    pub contiguous : check_contiguous 0 0 specs ≡ ok end
    pub covers : end ≡ length program
    pub found : Uses
    pub collected : collect specs (length program) 0 program [] ≡ ok found
    pub sorted : m ≡ sort_by (λ a b. compare a.0 b.0) found

  pub uses_of-Analysed : {m : Uses} → uses_of program specs ≡ ok m → Analysed m
  unfolding uses_of
  uses_of-Analysed h =
      let (_, _, h1) = >>=-eq-ok (guard (not (length specs == 0)) no_shards) _ h in
      let (end, contiguous, h2) = >>=-eq-ok (check_contiguous 0 0 specs) _ h1 in
      let (_, covers, h3) =
        >>=-eq-ok
          (guard (end == length program) (not_contiguous (length program) end (length specs - 1))) _
          h2 in
      let (found, collected, h4) = >>=-eq-ok (collect specs (length program) 0 program []) _ h3 in
      record {
        end = end;
        contiguous = contiguous;
        covers = ground (arith, covers);
        found = found;
        collected = collected;
        sorted = sym (ok-injective h4);
      }

  -- Where no range ends before it starts, every edge of a graph that is built carries a register
  -- from the shard that makes it to a later shard in which an instruction reads it, and it is a
  -- broadcast or goes to the next shard.
  pub build_dag-IsEdge :
      {g : Graph} → Forward specs → build_dag program specs ≡ ok g → All IsEdge g.edges
  unfolding build_dag
  build_dag-IsEdge f h =
      let (m, uses, h1) = >>=-eq-ok (uses_of program specs) _ h in
      let (es, edges, h2) = >>=-eq-ok (edges_of specs m) _ h1 in
      let a = uses_of-Analysed uses in
      let all_uses : AllUses program specs m = subst (AllUses program specs) (sym a.sorted) (
        sort_by-All (λ a b. compare a.0 b.0) (λ u. All (IsUse program specs u.0) u.1) a.found
          (collect-AllUses program specs 0 program [] (λ j. ap (get_elem? program) (omega arith)) tt
            a.collected)) in
      subst (λ (g : Graph). All IsEdge g.edges) (ok-injective h2)
        (sort_by-All (λ a b. cmp_str a.id b.id) IsEdge (map named (sort_by compare_edge es))
          (map-named (sort_by compare_edge es)
            (sort_by-All compare_edge IsEdge es (edges_of-IsEdge f a.contiguous m all_uses edges))))
