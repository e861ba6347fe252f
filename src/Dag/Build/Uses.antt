-- ===== src/Dag/Build/Uses.antt =====
-- dag/model.rs, build_dag: the analysis finds the reads across shards, and only those.
use zk_ie.Common.{
  ℕ, suc, ◌+◌, ◌<◌, ◌≢◌, some, List, [], ◌∷◌, ok, guard, ◌≡◌, inl, inr, refl, sym, subst, arith,
  All, Any, All-append, length, get_elem?, if◌then◌else◌, ltb, ◌==◌, any, >>=-eq-ok, ok-injective,
  Bool-cases, ==_iff, Option-cases,
}
use zk_ie.Dag.{CompiledInstruction, Register, graph_input, weight, virtual}
use zk_ie.Dag.Build.{
  ShardSpec, BuildDagError, shard_from, shard_of, Uses, push_new, add_use, collect_inputs, collect,
  unknown_register, forward_register,
}

pub shard_of-some :
    (specs : List ShardSpec) (i : ℕ) {a : ℕ}
    → shard_of specs i ≡ ok a
    → shard_from 0 specs i ≡ some a
unfolding shard_of
shard_of-some specs i h = elim (Option-cases (shard_from 0 specs i)) [
  | inl e ↦ absurd (ground (arith, h, e))
  | inr (b, e) ↦ ground (arith, h, e)
]

guard_lt : (a b : ℕ) (e : BuildDagError) {u : Unit {0}} → guard (ltb a b) e ≡ ok u → a < b
guard_lt a b e h = ground arith

module _ {Op : Type 0} (program : List (CompiledInstruction Op)) (specs : List ShardSpec) where
  -- An instruction of shard `c` reads what an earlier instruction `p` of another shard makes.
  pub record IsUse (p c : ℕ) : Type 0 where
    pub reader : ℕ
    pub instruction : CompiledInstruction Op
    pub maker_shard : ℕ
    pub stands : get_elem? program reader ≡ some instruction
    pub reads : Any (λ r. r ≡ virtual p) instruction.inputs
    pub reads_in : shard_from 0 specs reader ≡ some c
    pub made_in : shard_from 0 specs p ≡ some maker_shard
    pub earlier : p < reader
    pub crosses : maker_shard ≢ c

  abbrev pub AllUses : Uses → Type 0
  AllUses m = All (λ u. All (IsUse u.0) u.1) m

  add_use-AllUses : (p c : ℕ) (m : Uses) → IsUse p c → AllUses m → AllUses (add_use p c m)
  unfolding add_use
  add_use-AllUses p c [] u a = ((u, tt), tt)
  add_use-AllUses p c ((q, cs) ∷ m) u a = elim (Bool-cases (q == p)) [
    | inr other ↦ rw (other, add_use) (a.0, add_use-AllUses p c m u a.1)
    | inl same ↦
        let e : q ≡ p = (==_iff q p).0 same in
        rw (same, add_use)
          (elim (Bool-cases (any (λ d. d == c) cs)) [
            | inl old ↦ rw (old, push_new) (a.0, a.1)
            | inr new ↦
                rw (new, push_new)
                  (
                    All-append (IsUse q) cs (c ∷ []) a.0
                        (subst (λ (x : ℕ). IsUse x c) (sym e) u, tt),
                    a.1,
                  )
          ])
  ]

  -- Where each register of `rs` is one of `c`'s.
  abbrev Among : List Register → CompiledInstruction Op → Type 0
  Among rs c = (p : ℕ) → Any (λ r. r ≡ virtual p) rs → Any (λ r. r ≡ virtual p) c.inputs

  collect_inputs-AllUses :
      (consumer shard : ℕ) (c : CompiledInstruction Op) (rs : List Register) (m : Uses) {out : Uses}
      → Among rs c
      → get_elem? program consumer ≡ some c
      → shard_from 0 specs consumer ≡ some shard
      → AllUses m
      → collect_inputs specs (length program) consumer shard rs m ≡ ok out
      → AllUses out
  unfolding collect_inputs
  collect_inputs-AllUses consumer shard c [] m i s g a h = subst AllUses (ok-injective h) a
  collect_inputs-AllUses consumer shard c (graph_input _ ∷ rs) m i s g a h =
      collect_inputs-AllUses consumer shard c rs m (λ p y. i p (inr y)) s g a h
  collect_inputs-AllUses consumer shard c (weight _ ∷ rs) m i s g a h =
      collect_inputs-AllUses consumer shard c rs m (λ p y. i p (inr y)) s g a h
  collect_inputs-AllUses consumer shard c (virtual p ∷ rs) m i s g a h =
      let (_, _, h1) =
        >>=-eq-ok (guard (ltb p (length program)) (unknown_register consumer (virtual p))) _ h in
      let (_, prior, h2) =
        >>=-eq-ok (guard (ltb p consumer) (forward_register consumer (virtual p))) _ h1 in
      let (producer, found, h3) = >>=-eq-ok (shard_of specs p) _ h2 in
      let next =
        collect_inputs-AllUses consumer shard c rs
          (if producer == shard then m else add_use p shard m) (λ q y. i q (inr y)) s g in
      elim (Bool-cases (producer == shard)) [
        | inl same ↦ next (rw same a) h3
        | inr other ↦
            next
              (rw other (
                add_use-AllUses p shard m
                  (record {
                    reader = consumer;
                    instruction = c;
                    maker_shard = producer;
                    stands = s;
                    reads = i p (inl refl);
                    reads_in = g;
                    made_in = shard_of-some specs p found;
                    earlier = guard_lt p consumer _ prior;
                    crosses = λ e. absurd (ground (arith, e, other));
                  })
                  a))
              h3
      ]

  pub collect-AllUses :
      (consumer : ℕ) (cs : List (CompiledInstruction Op)) (m : Uses) {out : Uses}
      → ((j : ℕ) → get_elem? program (consumer + j) ≡ get_elem? cs j)
      → AllUses m
      → collect specs (length program) consumer cs m ≡ ok out
      → AllUses out
  unfolding collect
  collect-AllUses consumer [] m k a h = subst AllUses (ok-injective h) a
  collect-AllUses consumer (c ∷ cs) m k a h =
      let (shard, found, h1) = >>=-eq-ok (shard_of specs consumer) _ h in
      let (uses, e, h2) =
        >>=-eq-ok (collect_inputs specs (length program) consumer shard c.inputs m) _ h1 in
      let here : get_elem? program consumer ≡ some c =
        subst (λ (x : ℕ). get_elem? program x ≡ some c) (omega arith) (k 0) in
      collect-AllUses (suc consumer) cs uses
        (λ j. subst (λ (x : ℕ). get_elem? program x ≡ get_elem? cs j) (omega arith) (k (suc j)))
        (collect_inputs-AllUses consumer shard c c.inputs m (λ p y. y) here
          (shard_of-some specs consumer found) a e)
        h2
