-- ===== src/Dag/Planner/Plans.antt =====
-- What a plan is: shards that follow one another within the budget, and the graph of their ranges.
use zk_ie.Common.{
  ℕ, suc, ◌≡◌, refl, List, [], ◌∷◌, ok, guard, length, map, subst, sym, Ensures, Ensures-bind,
  Ensures-pure, Result, Result-cases, inl, inr, arith,
}
use zk_ie.Dag.{CompiledInstruction, Range}
use zk_ie.Dag.Partition.{
  InstructionEstimate, ShardEstimate, Budget, CostModel, slice, ranges_of, empty_partition,
}
use zk_ie.Dag.Partition.Plans.{IsCuts, ranges_of-IsCuts}
use zk_ie.Dag.Build.{BuildDagError, build_dag}
use zk_ie.Dag.Planner.{
  PlannedShard, PartitionPlan, shard_name, specs_from, planned_from, or_partition_error,
  validate_dag, plan,
}

abbrev pub cut_of : PlannedShard → Range × ShardEstimate
cut_of s = (s.range, s.estimate)

-- The shards from the number `id` on: numbered in order, named by their numbers, each with the
-- estimates of its own instructions.
abbrev pub IsNumbered : List InstructionEstimate → ℕ → List PlannedShard → Type 0
IsNumbered estimates id [] = Unit {0}
IsNumbered estimates id (s ∷ ss) =
    (s.id ≡ id)
    × (s.name ≡ shard_name id)
    × (s.instruction_estimates ≡ slice s.range.start s.range.end estimates)
    × IsNumbered estimates (suc id) ss

planned_from-IsNumbered :
    (estimates : List InstructionEstimate) (id : ℕ) (cuts : List (Range × ShardEstimate))
    → IsNumbered estimates id (planned_from estimates id cuts)
planned_from-IsNumbered estimates id [] = tt
planned_from-IsNumbered estimates id (cut ∷ cuts) =
    (refl, refl, refl, planned_from-IsNumbered estimates (suc id) cuts)

planned_from-cuts :
    (estimates : List InstructionEstimate) (id : ℕ) (cuts : List (Range × ShardEstimate))
    → map cut_of (planned_from estimates id cuts) ≡ cuts
planned_from-cuts estimates id [] = refl
planned_from-cuts estimates id (cut ∷ cuts) = rw (planned_from-cuts estimates (suc id) cuts)

built : {A : Type 0} (r : Result BuildDagError A) {a : A} → or_partition_error r ≡ ok a → r ≡ ok a
built r h = elim (Result-cases r) [
  | inl (b, is) ↦ ground (arith, h)
  | inr (e, is) ↦ absurd (ground (arith, h))
]

module _ {Op : Type 0} (budget : Budget) (model : CostModel Op)
    (program : List (CompiledInstruction Op)) where
  -- A plan: its shards as ranges, and the graph of those.
  pub record IsPlan (p : PartitionPlan Op) : Type 0 where
    pub estimates : List InstructionEstimate
    pub cuts : IsCuts budget model program estimates (map cut_of p.shards)
    pub numbered : IsNumbered estimates 0 p.shards
    pub graph : build_dag program (specs_from 0 (map cut_of p.shards)) ≡ ok p.dag
    pub snapshot : p.program_snapshot ≡ program

  -- The shards of a plan that is returned are a sequence of nonempty ranges from the first
  -- instruction to the last, each starting where the one before ends, each with the cost model's
  -- own estimate of it, and with the memory and the circuit size of its instructions and of the
  -- shard within the budget; they are numbered from zero and named by their numbers, and the graph
  -- of the plan is the one that build_dag makes of their ranges.
  pub plan-IsPlan : Ensures IsPlan (plan budget model program)
  unfolding plan
  plan-IsPlan = Ensures-bind {m = ranges_of budget model program} λ ranges is.
      Ensures-bind {m = or_partition_error (build_dag program (specs_from 0 ranges.1))}
        λ dag builds. Ensures-bind {m = validate_dag dag (length program)} λ _ _.
          Ensures-bind {m = guard _ empty_partition} λ _ _.
            let same = sym (planned_from-cuts ranges.0 0 ranges.1) in
            Ensures-pure (record {
              estimates = ranges.0;
              cuts =
                  subst (IsCuts budget model program ranges.0) same
                    ((ranges_of-IsCuts budget model program).at ranges is);
              numbered = planned_from-IsNumbered ranges.0 0 ranges.1;
              graph =
                  subst
                    (λ (cuts : List (Range × ShardEstimate)).
                      build_dag program (specs_from 0 cuts) ≡ ok dag)
                    same (built (build_dag program (specs_from 0 ranges.1)) builds);
              snapshot = refl;
            })
