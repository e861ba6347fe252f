-- ===== src/Dag/Planner.antt =====
-- dag/partition.rs, `PartitionPlanner::plan`: from the ranges to the checked graph and the shards.
-- The digests of a plan are left out: two are copied from the request, and one is a hash of the rest.
pub mod Laws
pub mod Plans
pub mod Failures
use zk_ie.Common.{
  ℕ, zero, suc, ◌+◌, ◌-◌, Bool, true, not, ◌||◌, List, [], ◌∷◌, Result, ok, err, ◌>>=◌, ◌>>◌, guard,
  String, leb, ◌==◌, length, any,
}
use zk_ie.Common.Text.{◌<>◌, decimal}
use zk_ie.Dag.{CompiledInstruction, Range, Shard, Edge, Graph}
use zk_ie.Dag.Partition.{
  InstructionEstimate, ShardEstimate, PartitionError, Budget, CostModel, slice, ranges_of,
  empty_partition, invalid_virtual_reference, dag_failed, inconsistent_dag, panicked,
}
use zk_ie.Dag.Build.{ShardSpec, BuildDagError, build_dag}

pub record PlannedShard : Type 0 where
  pub id : ℕ  -- u64
  pub name : String
  pub range : Range
  pub estimate : ShardEstimate
  pub instruction_estimates : List InstructionEstimate

pub record PartitionPlan (Op : Type 0) : Type 0 where
  pub shards : List PlannedShard
  pub dag : Graph
  pub program_snapshot : List (CompiledInstruction Op)

-- `format!("shard-{id}")`.
abbrev pub shard_name : ℕ → String
shard_name id = "shard-" <> decimal id

-- `ranges.iter().enumerate().map(..)`, counted from `id`.
abbrev pub specs_from : ℕ → List (Range × ShardEstimate) → List ShardSpec
specs_from id [] = []
specs_from id (cut ∷ cuts) =
    record { name = shard_name id; range = cut.0 } ∷ specs_from (suc id) cuts

abbrev pub planned_from :
    List InstructionEstimate → ℕ → List (Range × ShardEstimate) → List PlannedShard
planned_from estimates id [] = []
planned_from estimates id (cut ∷ cuts) =
    record {
      id = id;
      name = shard_name id;
      range = cut.0;
      estimate = cut.1;
      instruction_estimates = slice cut.0.start cut.0.end estimates;
    }
    ∷ planned_from estimates (suc id) cuts

abbrev pub map_dag_error : BuildDagError → PartitionError
map_dag_error (BuildDagError.unknown_register consumer register) =
    invalid_virtual_reference consumer register
map_dag_error (BuildDagError.forward_register consumer register) =
    invalid_virtual_reference consumer register
map_dag_error BuildDagError.panicked = panicked
map_dag_error _ = dag_failed

-- `build_dag(..).map_err(map_dag_error)`.
abbrev pub or_partition_error : {A : Type 0} → Result BuildDagError A → Result PartitionError A
or_partition_error (ok a) = ok a
or_partition_error (err e) = err (map_dag_error e)

-- The sum of the lengths of the ranges; `Range::len` of one that ends before it starts is zero.
abbrev pub covered : List Shard → ℕ
covered [] = 0
covered (s ∷ ss) = (s.range.end - s.range.start) + covered ss

abbrev pub is_misdirected : ℕ → Edge → Bool
is_misdirected count edge = leb edge.consumer edge.producer || leb count edge.consumer

unfoldable pub validate_dag : Graph → ℕ → Result PartitionError (Unit {0})
validate_dag dag instruction_count =
    guard
      (not (
        not (covered dag.shards == instruction_count)
        || any (is_misdirected (length dag.shards)) dag.edges))
      inconsistent_dag

-- `PartitionPlanner::plan`.
unfoldable pub plan :
    {Op : Type 0}
    → Budget
    → CostModel Op
    → List (CompiledInstruction Op)
    → Result PartitionError (PartitionPlan Op)
plan budget model program = do
  ranges ← ranges_of budget model program
  dag ← or_partition_error (build_dag program (specs_from 0 ranges.1))
  validate_dag dag (length program)
  let shards = planned_from ranges.0 0 ranges.1
  guard (not (length shards == 0)) empty_partition
  ok (record { shards = shards; dag = dag; program_snapshot = program })
