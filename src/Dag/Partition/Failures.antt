-- ===== src/Dag/Partition/Failures.antt =====
-- Why the ranges of a plan can fail: never by an empty shard or a boundary without its estimate.
use zk_ie.Common.{
  ℕ, zero, suc, ◌-◌, ◌<◌, ◌≡◌, ◌≢◌, Bool, true, false, not, List, [], ◌∷◌, ◌++◌, guard, ok_or, ltb,
  ◌==◌, length, arith, all, Option-cases, inl, inr, Fails, Fails-bind, Fails-ok, Fails-err,
  Fails-if, checked_add_u64,
}
use zk_ie.Common.Text.{str_eq}
use zk_ie.Dag.{CompiledInstruction, Register}
use zk_ie.Dag.Partition.{
  InstructionEstimate, ShardEstimate, PartitionError, Budget, CostModel, sum_ram, range_exceeds,
  slice, Accepted, estimate_at, try_range, extend, choose_end, cut, plan_ranges, ranges_of,
  estimate_all, validate_virtual_references, check_inputs, is_prior, empty_partition,
  inconsistent_dag, dag_failed, panicked, empty_program, invalid_request, invalid_hint,
  invalid_virtual_reference,
}
use zk_ie.Dag.Partition.Laws.{extend-IsAccepted, choose_end-in, single-IsAccepted}

-- None of the errors that the planner keeps for a mistake of its own, and no panic.
abbrev pub IsExternal : PartitionError → Type 0
IsExternal e = (e ≢ empty_partition) × (e ≢ inconsistent_dag) × (e ≢ dag_failed) × (e ≢ panicked)

-- The cost model reports none of them.
pub record IsHonest {Op : Type 0} (model : CostModel Op) : Type 0 where
  pub instruction : (c : CompiledInstruction Op) → Fails IsExternal (model.estimate_instruction c)
  pub shard : (cs : List (CompiledInstruction Op)) → Fails IsExternal (model.estimate_shard cs)

external :
    {e : PartitionError}
    → e ≢ empty_partition
    → e ≢ inconsistent_dag
    → e ≢ dag_failed
    → e ≢ panicked
    → IsExternal e
external a b c d = (a, b, c, d)

pub guard-IsExternal : (b : Bool) (e : PartitionError) → IsExternal e → Fails IsExternal (guard b e)
guard-IsExternal true e x = Fails-ok
guard-IsExternal false e x = Fails-err x

pub guard_passes : (b : Bool) (e : PartitionError) → b ≡ true → Fails IsExternal (guard b e)
guard_passes true e h = Fails-ok
guard_passes false e h = cc

sum_ram-IsExternal : (sum : ℕ) (es : List InstructionEstimate) → Fails IsExternal (sum_ram sum es)
sum_ram-IsExternal sum [] = Fails-ok
sum_ram-IsExternal sum (e ∷ es) = elim (Option-cases (checked_add_u64 sum e.ram_bytes)) [
  | inl is ↦ rw (is, sum_ram) (Fails-err (external (λ h. cc) (λ h. cc) (λ h. cc) (λ h. cc)))
  | inr (total, is) ↦ rw (is, sum_ram) (sum_ram-IsExternal total es)
]

range_exceeds-IsExternal :
    (budget : Budget) (es : List InstructionEstimate) (s : ShardEstimate)
    → Fails IsExternal (range_exceeds budget es s)
unfolding range_exceeds
range_exceeds-IsExternal budget es s =
    Fails-bind {m = sum_ram 0 es} (sum_ram-IsExternal 0 es) λ _ _. Fails-ok

check_inputs-IsExternal :
    (consumer : ℕ) (rs : List Register) → Fails IsExternal (check_inputs consumer rs)
check_inputs-IsExternal consumer [] = Fails-ok
check_inputs-IsExternal consumer (r ∷ rs) =
    Fails-bind {m = guard (is_prior consumer r) (invalid_virtual_reference consumer r)}
      (guard-IsExternal (is_prior consumer r) (invalid_virtual_reference consumer r)
        (external (λ h. cc) (λ h. cc) (λ h. cc) (λ h. cc)))
      λ _ _. check_inputs-IsExternal consumer rs

validate-IsExternal :
    {Op : Type 0} (consumer : ℕ) (cs : List (CompiledInstruction Op))
    → Fails IsExternal (validate_virtual_references consumer cs)
unfolding validate_virtual_references
validate-IsExternal consumer [] = Fails-ok
validate-IsExternal consumer (c ∷ cs) =
    Fails-bind {m = check_inputs consumer c.inputs} (check_inputs-IsExternal consumer c.inputs)
      λ _ _. validate-IsExternal (suc consumer) cs

module _ {Op : Type 0} (budget : Budget) (model : CostModel Op)
    (instructions : List (CompiledInstruction Op)) (honest : IsHonest model) where
  estimate_all-IsExternal :
      (cs : List (CompiledInstruction Op)) → Fails IsExternal (estimate_all budget model cs)
  estimate_all-IsExternal [] = Fails-ok
  estimate_all-IsExternal (c ∷ cs) =
      Fails-bind {m = model.estimate_instruction c} (honest.instruction c) λ _ _.
        Fails-bind {m = estimate_all budget model cs} (estimate_all-IsExternal cs) λ _ _. Fails-ok

  try_range-IsExternal :
      (estimates : List InstructionEstimate) (start end : ℕ)
      → Fails IsExternal (try_range budget model.estimate_shard instructions estimates start end)
  unfolding try_range
  try_range-IsExternal estimates start end =
      Fails-bind {m = model.estimate_shard (slice start end instructions)}
        (honest.shard (slice start end instructions))
        λ c _.
          Fails-bind {m = range_exceeds budget (slice start end estimates) c}
            (range_exceeds-IsExternal budget (slice start end estimates) c) λ _ _. Fails-ok

  extend-IsExternal :
      (estimates : List InstructionEstimate) (n start end : ℕ) (accepted : Accepted)
      → Fails IsExternal
          (extend budget model.estimate_shard instructions estimates n start end accepted)
  unfolding extend
  extend-IsExternal estimates zero start end accepted = Fails-ok
  extend-IsExternal estimates (suc n) start end accepted =
      Fails-bind {m = try_range budget model.estimate_shard instructions estimates start (suc end)}
        (try_range-IsExternal estimates start (suc end))
        λ tried _.
          Fails-if tried.1 (λ _. Fails-ok)
            (λ _.
              extend-IsExternal estimates n start (suc end) (accepted ++ (suc end, tried.0) ∷ []))

  cut-IsExternal :
      (estimates : List InstructionEstimate) (start : ℕ)
      → start < length instructions
      → Fails IsExternal (cut budget model.estimate_shard instructions estimates start)
  unfolding cut
  cut-IsExternal estimates start l =
      Fails-bind
        {m = try_range budget model.estimate_shard instructions estimates start (suc start)}
        (try_range-IsExternal estimates start (suc start))
        λ single is.
          Fails-bind {m = guard (not single.1) _}
            (guard-IsExternal (not single.1) _ (external (λ h. cc) (λ h. cc) (λ h. cc) (λ h. cc)))
            λ _ fit.
              Fails-bind
                {m = extend budget model.estimate_shard instructions estimates
                  (length instructions - suc start) start (suc start) ((suc start, single.0) ∷ [])}
                (extend-IsExternal estimates (length instructions - suc start) start (suc start)
                  ((suc start, single.0) ∷ []))
                λ extended extends.
                  let end =
                    choose_end budget model.estimate_shard instructions estimates start
                      extended.0 in
                  let a =
                    (extend-IsAccepted budget model.estimate_shard instructions estimates
                        (length instructions - suc start) start (suc start)
                        ((suc start, single.0) ∷ []) (omega (arith, l))
                        (single-IsAccepted budget model.estimate_shard instructions estimates start
                          single l is (ground (arith, fit)))).at
                      extended extends in
                  let (lo, hi) =
                    choose_end-in budget model.estimate_shard instructions estimates start
                      extended.0 a.nonempty in
                  let (e, at, _) = a.each end lo hi in
                  Fails-bind {m = guard (ltb start end) empty_partition}
                    (guard_passes (ltb start end) empty_partition (ground (arith, lo)))
                    λ _ _.
                      Fails-bind {m = ok_or (estimate_at end extended.1) inconsistent_dag}
                        (rw at Fails-ok) λ _ _. Fails-ok

  plan_ranges-IsExternal :
      (estimates : List InstructionEstimate) (fuel start : ℕ)
      → Fails IsExternal (plan_ranges budget model.estimate_shard instructions estimates fuel start)
  unfolding plan_ranges
  plan_ranges-IsExternal estimates zero start = Fails-ok
  plan_ranges-IsExternal estimates (suc fuel) start =
      Fails-if (ltb start (length instructions))
        (λ more.
          Fails-bind {m = cut budget model.estimate_shard instructions estimates start}
            (cut-IsExternal estimates start (ground (arith, more)))
            λ shard _.
              Fails-bind
                {m = plan_ranges budget model.estimate_shard instructions estimates fuel shard.0}
                (plan_ranges-IsExternal estimates fuel shard.0) λ _ _. Fails-ok)
        (λ _. Fails-ok)

  pub ranges_of-IsExternal : Fails IsExternal (ranges_of budget model instructions)
  unfolding ranges_of
  ranges_of-IsExternal =
      Fails-bind {m = guard (not (length instructions == 0)) empty_program}
        (guard-IsExternal _ empty_program (external (λ h. cc) (λ h. cc) (λ h. cc) (λ h. cc)))
        λ _ _.
          Fails-bind {m = validate_virtual_references 0 instructions}
            (validate-IsExternal 0 instructions)
            λ _ _.
              Fails-bind {m = guard (not (str_eq model.identity "")) invalid_request}
                (guard-IsExternal _ invalid_request
                  (external (λ h. cc) (λ h. cc) (λ h. cc) (λ h. cc)))
                λ _ _.
                  Fails-bind
                    {m = guard
                      (all (λ h. ltb h.boundary (length instructions)) budget.boundary_hints)
                      invalid_hint}
                    (guard-IsExternal _ invalid_hint
                      (external (λ h. cc) (λ h. cc) (λ h. cc) (λ h. cc)))
                    λ _ _.
                      Fails-bind {m = estimate_all budget model instructions}
                        (estimate_all-IsExternal instructions)
                        λ estimates _.
                          Fails-bind
                            {m = plan_ranges budget model.estimate_shard instructions estimates
                              (length instructions) 0}
                            (plan_ranges-IsExternal estimates (length instructions) 0)
                            λ _ _. Fails-ok
