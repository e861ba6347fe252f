-- ===== src/Dag/Partition.antt =====
-- dag/partition.rs: the program is cut greedily into shards that keep to a budget of memory and of
-- circuit size. The cost model is a parameter; the sizes of a `Vec` are plain numbers.
pub mod Laws
pub mod Plans
pub mod Failures
use zk_ie.Common.{
  ℕ, zero, suc, ◌+◌, ◌-◌, ◌≡◌, Bool, true, false, not, ◌&&◌, ◌||◌, Option, none, some, List, [],
  ◌∷◌, ◌++◌, Result, ok, err, ◌>>=◌, ◌>>◌, guard, ok_or, String, if◌then◌else◌, ltb, leb, ◌==◌,
  length, take, drop, find, max, compare, Ordering, then_with, checked_add_u64, all,
}
use zk_ie.Common.Text.{cmp_str, str_eq}
use zk_ie.Dag.{CompiledInstruction, Range, Register}

pub record InstructionEstimate : Type 0 where
  pub ram_bytes : ℕ  -- u64
  pub required_k : ℕ  -- u32

pub record ShardEstimate : Type 0 where
  pub ram_bytes : ℕ  -- u64
  pub required_k : ℕ  -- u32

pub data PartitionError : Type 0 where
  zero_budget empty_program empty_partition : PartitionError
  invalid_request invalid_hint : PartitionError
  estimate_overflow : PartitionError
  unsplittable_instruction : ℕ → InstructionEstimate → PartitionError
  invalid_virtual_reference : ℕ → Register → PartitionError
  dag_failed inconsistent_dag : PartitionError
  -- The `expect` of `shard_of` in `build_dag`.
  panicked : PartitionError

pub record BoundaryHint : Type 0 where
  pub boundary : ℕ
  pub priority : ℕ  -- u32
  pub label : String

-- `PartitionRequest`, as far as the cuts depend on it.
pub record Budget : Type 0 where
  pub target_shard_ram_bytes : ℕ  -- u64
  pub max_k : ℕ  -- u32
  pub boundary_hints : List BoundaryHint

-- `validate_virtual_references`: every register is made by an earlier instruction.
abbrev pub is_prior : ℕ → Register → Bool
is_prior consumer (Register.virtual producer) = ltb producer consumer
is_prior consumer _ = true

abbrev pub check_inputs : ℕ → List Register → Result PartitionError (Unit {0})
check_inputs consumer [] = ok tt
check_inputs consumer (r ∷ rs) =
    guard (is_prior consumer r) (invalid_virtual_reference consumer r) >> check_inputs consumer rs

unfoldable pub validate_virtual_references :
    {Op : Type 0} → ℕ → List (CompiledInstruction Op) → Result PartitionError (Unit {0})
validate_virtual_references consumer [] = ok tt
validate_virtual_references consumer (c ∷ cs) =
    check_inputs consumer c.inputs >> validate_virtual_references (suc consumer) cs

-- The `try_fold` and the `max` of `range_exceeds`.
abbrev pub sum_ram : ℕ → List InstructionEstimate → Result PartitionError ℕ
sum_ram sum [] = ok sum
sum_ram sum (e ∷ es) = elim (checked_add_u64 sum e.ram_bytes) [
  | none ↦ err estimate_overflow
  | some total ↦ sum_ram total es
]

abbrev pub max_k_of : List InstructionEstimate → ℕ
max_k_of [] = 0
max_k_of (e ∷ es) = max e.required_k (max_k_of es)

unfoldable pub range_exceeds :
    Budget → List InstructionEstimate → ShardEstimate → Result PartitionError Bool
range_exceeds budget instructions shard = do
  instruction_ram ← sum_ram 0 instructions
  ok (
      ltb budget.target_shard_ram_bytes instruction_ram
      || ltb budget.max_k (max_k_of instructions)
      || ltb budget.target_shard_ram_bytes shard.ram_bytes
      || ltb budget.max_k shard.required_k)

-- By priority, then the later boundary, then the smaller label.
unfoldable pub compare_hint : BoundaryHint → BoundaryHint → Ordering
compare_hint left right =
    then_with (compare left.priority right.priority)
      (then_with (compare left.boundary right.boundary) (cmp_str right.label left.label))

abbrev pub in_range : ℕ → ℕ → BoundaryHint → Bool
in_range start end hint = ltb start hint.boundary && leb hint.boundary end

-- `filter(..).max_by(..)`: the last of the greatest ones.
unfoldable pub best_hint_from :
    Option BoundaryHint → List BoundaryHint → ℕ → ℕ → Option BoundaryHint
best_hint_from best [] start end = best
best_hint_from none (h ∷ hs) start end =
    let hit = best_hint_from (some h) hs start end in
    let miss = best_hint_from none hs start end in if in_range start end h then hit else miss
best_hint_from (some best) (h ∷ hs) start end =
    let hit =
      best_hint_from (some (elim (compare_hint best h) [ Ordering.gt ↦ best | _ ↦ h ])) hs start
        end in
    let miss = best_hint_from (some best) hs start end in if in_range start end h then hit else miss

abbrev pub best_hint : List BoundaryHint → ℕ → ℕ → Option BoundaryHint
best_hint hints start end = best_hint_from none hints start end

-- `xs[start..end]`.
abbrev pub slice {ℓ} : {A : Type ℓ} → ℕ → ℕ → List A → List A
slice start end xs = take (end - start) (drop start xs)

-- The boundaries that were accepted for the current start, each with its estimate.
abbrev pub Accepted : Type 0
Accepted = List (ℕ × ShardEstimate)

abbrev pub estimate_at : ℕ → Accepted → Option ShardEstimate
estimate_at end [] = none
estimate_at end (a ∷ accepted) = if a.0 == end then some a.1 else estimate_at end accepted

-- What `unsplittable_instruction` reports.
abbrev pub estimate_of : ℕ → List InstructionEstimate → InstructionEstimate
estimate_of start [] = record { ram_bytes = 0; required_k = 0 }
estimate_of zero (e ∷ es) = e
estimate_of (suc start) (e ∷ es) = estimate_of start es

module _ {Op : Type 0} (budget : Budget)
    (estimate_shard : List (CompiledInstruction Op) → Result PartitionError ShardEstimate)
    (instructions : List (CompiledInstruction Op)) (estimates : List InstructionEstimate) where
  -- Whether `instructions[start..end]` keeps to the budget, with its estimate.
  unfoldable pub try_range : ℕ → ℕ → Result PartitionError (ShardEstimate × Bool)
  try_range start end = do
    candidate ← estimate_shard (slice start end instructions)
    over ← range_exceeds budget (slice start end estimates) candidate
    ok (candidate, over)

  -- The inner `while end < len`; the first argument is `len - end`, so it is zero where the loop ends.
  unfoldable pub extend : ℕ → ℕ → ℕ → Accepted → Result PartitionError (ℕ × Accepted)
  extend zero start end accepted = ok (end, accepted)
  extend (suc n) start end accepted = try_range start (suc end) >>= λ tried.
      let more = extend n start (suc end) (accepted ++ (suc end, tried.0) ∷ []) in
      if tried.1 then ok (end, accepted) else more

  -- The end that the hints choose among the accepted ones.
  unfoldable pub choose_end : ℕ → ℕ → ℕ
  choose_end start end =
      if ltb end (length instructions)
      then (elim (best_hint budget.boundary_hints start end) [
        | some hint ↦ hint.boundary
        | none ↦ end
      ])
      else end

  -- One shard, from `start`.
  unfoldable pub cut : ℕ → Result PartitionError (ℕ × ShardEstimate)
  cut start = do
    single ← try_range start (suc start)
    guard (not single.1) (unsplittable_instruction start (estimate_of start estimates))
    extended ←
        extend (length instructions - suc start) start (suc start) ((suc start, single.0) ∷ [])
    let end = choose_end start extended.0
    guard (ltb start end) empty_partition
    estimate ← ok_or (estimate_at end extended.1) inconsistent_dag
    ok (end, estimate)

  -- The outer `while start < len`. A shard is never empty, so a round for each instruction is enough.
  unfoldable pub plan_ranges : ℕ → ℕ → Result PartitionError (List (Range × ShardEstimate))
  plan_ranges zero start = ok []
  plan_ranges (suc fuel) start =
      let planned = cut start >>= λ shard. plan_ranges fuel shard.0 >>= λ rest.
      ok ((record { start = start; end = shard.0 }, shard.1) ∷ rest) in
      if ltb start (length instructions) then planned else ok []

-- The trait `InstructionCostModel`.
pub record CostModel (Op : Type 0) : Type 0 where
  pub identity : String
  pub version : ℕ  -- u32
  pub estimate_instruction : CompiledInstruction Op → Result PartitionError InstructionEstimate
  pub estimate_shard : List (CompiledInstruction Op) → Result PartitionError ShardEstimate

module _ {Op : Type 0} (budget : Budget) (model : CostModel Op) where
  abbrev pub estimate_all :
      List (CompiledInstruction Op) → Result PartitionError (List InstructionEstimate)
  estimate_all [] = ok []
  estimate_all (c ∷ cs) =
      model.estimate_instruction c >>= λ e. estimate_all cs >>= λ es. ok (e ∷ es)

  -- The checks of `PartitionPlanner::plan`, its estimates and its ranges.
  unfoldable pub ranges_of :
      List (CompiledInstruction Op)
      → Result PartitionError (List InstructionEstimate × List (Range × ShardEstimate))
  ranges_of instructions = do
    guard (not (length instructions == 0)) empty_program
    validate_virtual_references 0 instructions
    guard (not (str_eq model.identity "")) invalid_request
    guard (all (λ h. ltb h.boundary (length instructions)) budget.boundary_hints) invalid_hint
    estimates ← estimate_all instructions
    ranges ← plan_ranges budget model.estimate_shard instructions estimates (length instructions) 0
    ok (estimates, ranges)
