-- ===== src/Dag/Partition/Plans.antt =====
-- The ranges of a plan as a whole, and what the budget means.
use zk_ie.Common.{
  ℕ, ◌+◌, ◌≤◌, ◌≡◌, ◌≢◌, false, not, List, [], ◌∷◌, ok, ◌>>=◌, guard, ltb, ◌==◌, length, arith, all,
  Result-cases, inl, inr, >>=-eq-ok, subst, Ensures, Ensures-bind, Ensures-pure, All,
}
use zk_ie.Common.Text.{str_eq}
use zk_ie.Dag.{CompiledInstruction, Range}
use zk_ie.Dag.Partition.{
  InstructionEstimate, ShardEstimate, Budget, CostModel, sum_ram, max_k_of, range_exceeds, slice,
  try_range, plan_ranges, ranges_of, estimate_all, validate_virtual_references, empty_program,
  invalid_request, invalid_hint,
}
use zk_ie.Dag.Partition.Laws.{IsPartition, plan_ranges-IsPartition}

abbrev pub total_ram : List InstructionEstimate → ℕ
total_ram [] = 0
total_ram (e ∷ es) = e.ram_bytes + total_ram es

sum_ram-total :
    (sum : ℕ) (es : List InstructionEstimate) {total : ℕ}
    → sum_ram sum es ≡ ok total
    → total ≡ sum + total_ram es
sum_ram-total sum [] h = ground (arith, h)
sum_ram-total sum (e ∷ es) {total} h =
    ground (arith, h, sum_ram-total (sum + e.ram_bytes) es {total = total})

max_k_of-All :
    (k : ℕ) (es : List InstructionEstimate) → max_k_of es ≤ k → All (λ e. e.required_k ≤ k) es
max_k_of-All k [] h = tt
max_k_of-All k (e ∷ es) h = (omega (arith, h), max_k_of-All k es (omega (arith, h)))

-- A shard within the budget: its instructions together and it by itself.
pub record IsWithinBudget (budget : Budget) (es : List InstructionEstimate) (s : ShardEstimate)
    : Type 0 where
  pub instruction_ram : total_ram es ≤ budget.target_shard_ram_bytes
  pub instruction_k : All (λ e. e.required_k ≤ budget.max_k) es
  pub shard_ram : s.ram_bytes ≤ budget.target_shard_ram_bytes
  pub shard_k : s.required_k ≤ budget.max_k

-- What the budget accepts is within it.
pub range_exceeds-IsWithinBudget :
    (budget : Budget) (es : List InstructionEstimate) (s : ShardEstimate)
    → range_exceeds budget es s ≡ ok false
    → IsWithinBudget budget es s
unfolding range_exceeds
range_exceeds-IsWithinBudget budget es s h = elim (Result-cases (sum_ram 0 es)) [
  | inr (e, is) ↦ absurd (ground (arith, h, is))
  | inl (total, is) ↦
      let same = sum_ram-total 0 es is in
      record {
        instruction_ram = ground (arith, h, is, same);
        instruction_k = max_k_of-All budget.max_k es (ground (arith, h, is));
        shard_ram = ground (arith, h, is);
        shard_k = ground (arith, h, is);
      }
]

module _ {Op : Type 0} (budget : Budget) (model : CostModel Op)
    (instructions : List (CompiledInstruction Op)) where
  -- The cost model's estimate of a shard, and the budget that it keeps to.
  abbrev pub IsFitting : List InstructionEstimate → Range × ShardEstimate → Type 0
  IsFitting estimates shard =
      (model.estimate_shard (slice shard.0.start shard.0.end instructions) ≡ ok shard.1)
      × IsWithinBudget budget (slice shard.0.start shard.0.end estimates) shard.1

  try_range-parts :
      (estimates : List InstructionEstimate) (start end : ℕ) {e : ShardEstimate}
      → try_range budget model.estimate_shard instructions estimates start end ≡ ok (e, false)
      → (model.estimate_shard (slice start end instructions) ≡ ok e)
        × IsWithinBudget budget (slice start end estimates) e
  unfolding try_range
  try_range-parts estimates start end {e} h =
      let (c, is, rest) =
        >>=-eq-ok (model.estimate_shard (slice start end instructions))
          (λ c. range_exceeds budget (slice start end estimates) c >>= λ over. ok (c, over)) h in
      let (over, fits, out) =
        >>=-eq-ok (range_exceeds budget (slice start end estimates) c) (λ over. ok (c, over))
          rest in
      let same : c ≡ e = ground (arith, out) in
      let kept : over ≡ false = ground (arith, out) in
      (
        rw same at is,
        subst (IsWithinBudget budget (slice start end estimates)) same
            (range_exceeds-IsWithinBudget budget (slice start end estimates) c (rw kept at fits)),
      )

  IsPartition-fits :
      (estimates : List InstructionEstimate) (start : ℕ) (shards : List (Range × ShardEstimate))
      → IsPartition budget model.estimate_shard instructions estimates start shards
      → All (IsFitting estimates) shards
  IsPartition-fits estimates start [] p = tt
  IsPartition-fits estimates start (shard ∷ shards) (at, c, rest) = (
    rw at (try_range-parts estimates start shard.0.end c.estimated),
    IsPartition-fits estimates shard.0.end shards rest,
  )

  -- The ranges of a plan: consecutive and nonempty from the first instruction to the last, each of
  -- them with the cost model's estimate and within the budget, of a program that is not empty and
  -- reads only what earlier instructions make.
  pub record IsCuts (estimates : List InstructionEstimate) (cuts : List (Range × ShardEstimate))
      : Type 0 where
    pub nonempty : length instructions ≢ 0
    pub valid : validate_virtual_references 0 instructions ≡ ok tt
    pub estimated : estimate_all budget model instructions ≡ ok estimates
    pub covers : IsPartition budget model.estimate_shard instructions estimates 0 cuts
    pub fitting : All (IsFitting estimates) cuts

  pub ranges_of-IsCuts : Ensures (λ out. IsCuts out.0 out.1) (ranges_of budget model instructions)
  unfolding ranges_of
  ranges_of-IsCuts =
      Ensures-bind {m = guard (not (length instructions == 0)) empty_program} λ _ any.
        Ensures-bind {m = validate_virtual_references 0 instructions} λ _ valid.
          Ensures-bind {m = guard (not (str_eq model.identity "")) invalid_request} λ _ _.
            Ensures-bind
              {m = guard (all (λ h. ltb h.boundary (length instructions)) budget.boundary_hints)
                invalid_hint}
              λ _ _. Ensures-bind {m = estimate_all budget model instructions} λ estimates is.
                Ensures-bind
                  {m = plan_ranges budget model.estimate_shard instructions estimates
                    (length instructions) 0}
                  λ cuts planned.
                    let covers =
                      (plan_ranges-IsPartition budget model.estimate_shard instructions estimates
                          (length instructions) 0 (omega arith) (omega arith)).at
                        cuts planned in
                    Ensures-pure (record {
                      nonempty = ground (arith, any);
                      valid = valid;
                      estimated = is;
                      covers = covers;
                      fitting = IsPartition-fits estimates 0 cuts covers;
                    })
