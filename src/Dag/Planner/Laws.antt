-- ===== src/Dag/Planner/Laws.antt =====
-- The specs of ranges that follow one another: they are contiguous and go forward, and the shards of
-- their graph cover the program.
use zk_ie.Common.{
  ℕ, suc, ◌+◌, ◌-◌, ◌≡◌, ◌≢◌, refl, ap, false, List, [], ◌∷◌, Result, ok, length, arith, any, All,
  subst, >>=-eq-ok, ok-injective,
}
use zk_ie.Dag.{CompiledInstruction, Range, Edge, Graph}
use zk_ie.Dag.Partition.{InstructionEstimate, ShardEstimate, PartitionError, Budget}
use zk_ie.Dag.Partition.Laws.{IsPartition}
use zk_ie.Dag.Build.{ShardSpec, check_contiguous, Uses, shards_from, uses_of, edges_of, build_dag}
use zk_ie.Dag.Build.Order.{Forward}
use zk_ie.Dag.Build.Edges.{IsEdge}
use zk_ie.Dag.Planner.{specs_from, planned_from, covered, is_misdirected}

pub length-specs_from :
    (id : ℕ) (cuts : List (Range × ShardEstimate)) → length (specs_from id cuts) ≡ length cuts
length-specs_from id [] = refl
length-specs_from id (cut ∷ cuts) = ground (arith, length-specs_from (suc id) cuts)

pub length-planned_from :
    (estimates : List InstructionEstimate) (id : ℕ) (cuts : List (Range × ShardEstimate))
    → length (planned_from estimates id cuts) ≡ length cuts
length-planned_from estimates id [] = refl
length-planned_from estimates id (cut ∷ cuts) =
    ground (arith, length-planned_from estimates (suc id) cuts)

-- The shards of the graph of some specs.
abbrev pub spec_lengths : List ShardSpec → ℕ
spec_lengths [] = 0
spec_lengths (s ∷ ss) = (s.range.end - s.range.start) + spec_lengths ss

shards_from-covered :
    (specs : List ShardSpec) (m : Uses) (id : ℕ) (ss : List ShardSpec)
    → (covered (shards_from specs m id ss) ≡ spec_lengths ss)
      × (length (shards_from specs m id ss) ≡ length ss)
shards_from-covered specs m id [] = (refl, refl)
shards_from-covered specs m id (s ∷ ss) = ground (arith, shards_from-covered specs m (suc id) ss)

pub build_dag-covered :
    {Op : Type 0} (program : List (CompiledInstruction Op)) (specs : List ShardSpec) {g : Graph}
    → build_dag program specs ≡ ok g
    → (covered g.shards ≡ spec_lengths specs) × (length g.shards ≡ length specs)
unfolding build_dag
build_dag-covered program specs h =
    let (m, _, h1) = >>=-eq-ok (uses_of program specs) _ h in
    let (es, _, h2) = >>=-eq-ok (edges_of specs m) _ h1 in
    subst
      (λ (g : Graph). (covered g.shards ≡ spec_lengths specs) × (length g.shards ≡ length specs))
      (ok-injective h2) (shards_from-covered specs m 0 specs)

pub IsEdge-any :
    {Op : Type 0} (program : List (CompiledInstruction Op)) (specs : List ShardSpec)
    (es : List Edge)
    → All (IsEdge program specs) es
    → any (is_misdirected (length specs)) es ≡ false
IsEdge-any program specs [] a = refl
IsEdge-any program specs (e ∷ es) (i, a) =
    ground (arith, i.forward, i.in_range, IsEdge-any program specs es a)

module _ {Op : Type 0} (budget : Budget)
    (estimate_shard : List (CompiledInstruction Op) → Result PartitionError ShardEstimate)
    (instructions : List (CompiledInstruction Op)) (estimates : List InstructionEstimate) where
  abbrev Follows : ℕ → List (Range × ShardEstimate) → Type 0
  Follows start cuts = IsPartition budget estimate_shard instructions estimates start cuts

  pub specs_from-contiguous :
      (id start : ℕ) (cuts : List (Range × ShardEstimate))
      → Follows start cuts
      → check_contiguous id start (specs_from id cuts) ≡ ok (length instructions)
  unfolding check_contiguous
  specs_from-contiguous id start [] p = ap ok p
  specs_from-contiguous id start (cut ∷ cuts) (at, c, rest) =
      ground (arith, at, specs_from-contiguous (suc id) cut.0.end cuts rest)

  pub specs_from-Forward :
      (id start : ℕ) (cuts : List (Range × ShardEstimate))
      → Follows start cuts
      → Forward (specs_from id cuts)
  specs_from-Forward id start [] p = tt
  specs_from-Forward id start (cut ∷ cuts) (at, c, rest) =
      (omega (arith, at, c.grows), specs_from-Forward (suc id) cut.0.end cuts rest)

  pub specs_from-lengths :
      (id start : ℕ) (cuts : List (Range × ShardEstimate))
      → Follows start cuts
      → start + spec_lengths (specs_from id cuts) ≡ length instructions
  specs_from-lengths id start [] p = omega (arith, p)
  specs_from-lengths id start (cut ∷ cuts) (at, c, rest) =
      omega (arith, at, c.grows, specs_from-lengths (suc id) cut.0.end cuts rest)

  pub Follows-nonempty :
      (cuts : List (Range × ShardEstimate))
      → length instructions ≢ 0
      → Follows 0 cuts
      → length cuts ≢ 0
  Follows-nonempty [] any p = λ e. any (omega (arith, p))
  Follows-nonempty (cut ∷ cuts) any p = λ e. omega (arith, e)
