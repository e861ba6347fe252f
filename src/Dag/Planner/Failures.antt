-- ===== src/Dag/Planner/Failures.antt =====
-- Why a plan can fail: never by a check that the planner makes of its own work.
use zk_ie.Common.{
  ℕ, ◌≡◌, not, List, ok, guard, ◌==◌, length, arith, Fails, Fails-bind, Fails-ok, ap, ◌∙◌, false,
  any,
}
use zk_ie.Dag.{CompiledInstruction, Graph}
use zk_ie.Dag.Partition.{Budget, CostModel, ranges_of, empty_partition}
use zk_ie.Dag.Partition.Plans.{ranges_of-IsCuts}
use zk_ie.Dag.Partition.Failures.{IsExternal, IsHonest, guard_passes, ranges_of-IsExternal}
use zk_ie.Dag.Build.Total.{build_dag_total}
use zk_ie.Dag.Build.Edges.{build_dag-IsEdge}
use zk_ie.Dag.Planner.{
  specs_from, planned_from, or_partition_error, covered, is_misdirected, validate_dag, plan,
}
use zk_ie.Dag.Planner.Laws.{
  length-specs_from, length-planned_from, build_dag-covered, IsEdge-any, specs_from-contiguous,
  specs_from-Forward, specs_from-lengths, Follows-nonempty,
}

validate_dag-passes :
    (g : Graph) (count : ℕ)
    → covered g.shards ≡ count
    → any (is_misdirected (length g.shards)) g.edges ≡ false
    → validate_dag g count ≡ ok tt
unfolding validate_dag
validate_dag-passes g count c d = ground (arith, c, d)

-- Where the cost model does not report such an error itself, a plan never fails with an empty
-- partition, with an inconsistent graph or with another failure of build_dag than an invalid
-- reference, and never panics: the graph of its ranges is built and passes its check.
pub plan-IsExternal :
    {Op : Type 0} (budget : Budget) (model : CostModel Op) (program : List (CompiledInstruction Op))
    → IsHonest model
    → Fails IsExternal (plan budget model program)
unfolding plan
plan-IsExternal budget model program honest =
    Fails-bind {m = ranges_of budget model program}
      (ranges_of-IsExternal budget model program honest)
      λ ranges is.
        let c = (ranges_of-IsCuts budget model program).at ranges is in
        let specs = specs_from 0 ranges.1 in
        let some_cut =
          Follows-nonempty budget model.estimate_shard program ranges.0 ranges.1 c.nonempty
            c.covers in
        let contiguous =
          specs_from-contiguous budget model.estimate_shard program ranges.0 0 0 ranges.1
            c.covers in
        let forward =
          specs_from-Forward budget model.estimate_shard program ranges.0 0 0 ranges.1 c.covers in
        let (g, builds) =
          build_dag_total program specs (ground (arith, some_cut, length-specs_from 0 ranges.1))
            contiguous c.valid in
        let (total, count) = build_dag-covered program specs builds in
        let covers : covered g.shards ≡ length program = omega (
          arith,
          total,
          specs_from-lengths budget model.estimate_shard program ranges.0 0 0 ranges.1 c.covers,
        ) in
        let directed =
          ap (λ n. any (is_misdirected n) g.edges) count
          ∙ IsEdge-any program specs g.edges (build_dag-IsEdge program specs forward builds) in
        rw (ap or_partition_error builds) (
          rw (validate_dag-passes g (length program) covers directed) (
            Fails-bind
              {m = guard (not (length (planned_from ranges.0 0 ranges.1) == 0)) empty_partition}
              (guard_passes _ empty_partition
                (ground (arith, some_cut, length-planned_from ranges.0 0 ranges.1)))
              λ _ _. Fails-ok))
