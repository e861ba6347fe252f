-- ===== src/Dag/Build.antt =====
-- dag/model.rs: the graph of the shards, by an analysis of which instruction reads what another makes.
-- A `HashMap` is an association list, whose keys the program sorts before it uses them.
pub mod Order
pub mod Uses
pub mod Edges
pub mod Covers
pub mod Total
use zk_ie.Common.{
  ℕ, zero, suc, ◌+◌, ◌-◌, Bool, true, false, not, ◌&&◌, Option, none, some, List, [], ◌∷◌, ◌++◌,
  Result, ok, err, ◌>>=◌, ◌>>◌, guard, ok_or, String, if◌then◌else◌, ltb, leb, ◌==◌, length, map,
  any, retain, compare, Ordering, then_with,
}
use zk_ie.Common.Sort.{sort_by}
use zk_ie.Common.Text.{◌<>◌, cmp_str, codes, decimal}
use zk_ie.Dag.{
  CompiledInstruction, Range, Register, graph_input, weight, virtual, Shard, Edge, EdgeKind,
  sequential, broadcast, Graph,
}

pub record ShardSpec : Type 0 where
  pub name : String
  pub range : Range

pub data BuildDagError : Type 0 where
  no_shards : BuildDagError
  not_contiguous : (expected_start got_start shard_index : ℕ) → BuildDagError
  unknown_register forward_register : (consumer : ℕ) → Register → BuildDagError
  -- The `expect` of `shard_of`.
  panicked : BuildDagError

-- The loop over the specs: where the next one has to start.
unfoldable pub check_contiguous : ℕ → ℕ → List ShardSpec → Result BuildDagError ℕ
check_contiguous index expected [] = ok expected
check_contiguous index expected (s ∷ ss) =
    if s.range.start == expected
    then check_contiguous (suc index) s.range.end ss
    else err (not_contiguous expected s.range.start index)

-- `Range::contains`.
abbrev pub contains : Range → ℕ → Bool
contains r i = leb r.start i && ltb i r.end

-- `specs.iter().position(..)`, counted from `index`.
unfoldable pub shard_from : ℕ → List ShardSpec → ℕ → Option ℕ
shard_from index [] i = none
shard_from index (s ∷ ss) i = if contains s.range i then some index else shard_from (suc index) ss i

unfoldable pub shard_of : List ShardSpec → ℕ → Result BuildDagError ℕ
shard_of specs i = ok_or (shard_from 0 specs i) panicked

-- `consumers_of`: the registers, by their instructions, each with the other shards that read it.
abbrev pub Uses : Type 0
Uses = List (ℕ × List ℕ)

abbrev pub push_new : ℕ → List ℕ → List ℕ
push_new c cs = if any (λ d. d == c) cs then cs else cs ++ c ∷ []

unfoldable pub add_use : ℕ → ℕ → Uses → Uses
add_use p c [] = (p, c ∷ []) ∷ []
add_use p c ((q, cs) ∷ m) = if q == p then (q, push_new c cs) ∷ m else (q, cs) ∷ add_use p c m

-- The loop over the inputs of one instruction, which stands in the shard `shard`.
unfoldable pub collect_inputs :
    List ShardSpec → ℕ → ℕ → ℕ → List Register → Uses → Result BuildDagError Uses
collect_inputs specs total consumer shard [] m = ok m
collect_inputs specs total consumer shard (graph_input _ ∷ rs) m =
    collect_inputs specs total consumer shard rs m
collect_inputs specs total consumer shard (weight _ ∷ rs) m =
    collect_inputs specs total consumer shard rs m
collect_inputs specs total consumer shard (virtual p ∷ rs) m = do
  guard (ltb p total) (unknown_register consumer (virtual p))
  guard (ltb p consumer) (forward_register consumer (virtual p))
  producer ← shard_of specs p
  collect_inputs specs total consumer shard rs (if producer == shard then m else add_use p shard m)

-- The loop over the instructions.
unfoldable pub collect :
    {Op : Type 0}
    → List ShardSpec
    → ℕ
    → ℕ
    → List (CompiledInstruction Op)
    → Uses
    → Result BuildDagError Uses
collect specs total consumer [] m = ok m
collect specs total consumer (c ∷ cs) m = do
  shard ← shard_of specs consumer
  uses ← collect_inputs specs total consumer shard c.inputs m
  collect specs total (suc consumer) cs uses

abbrev pub kind_of : ℕ → List ℕ → EdgeKind
kind_of producer (c ∷ []) = if c == producer + 1 then sequential else broadcast
kind_of producer _ = broadcast

abbrev pub edge_of : ℕ → ℕ → EdgeKind → ℕ → Edge
edge_of p producer kind consumer = record {
  id = "";
  producer = producer;
  consumer = consumer;
  register = virtual p;
  kind = kind;
}

-- The loop over the producers.
unfoldable pub edges_of : List ShardSpec → Uses → Result BuildDagError (List Edge)
edges_of specs [] = ok []
edges_of specs ((p, cs) ∷ m) = do
  producer ← shard_of specs p
  rest ← edges_of specs m
  ok (map (edge_of p producer (kind_of producer cs)) cs ++ rest)

-- `register_sort_key` of the virtual registers, which are the only ones on edges.
abbrev pub index_of : Register → ℕ
index_of (virtual i) = i
index_of _ = 0

unfoldable pub compare_edge : Edge → Edge → Ordering
compare_edge a b = then_with (compare a.producer b.producer) (
    then_with (compare a.consumer b.consumer) (compare (index_of a.register) (index_of b.register)))

-- `{n:020}`.
unfoldable pub zeros : ℕ → String
zeros zero = ""
zeros (suc n) = "0" <> zeros n

unfoldable pub padded : ℕ → String
padded n = zeros (20 - length (codes (decimal n))) <> decimal n

unfoldable pub named : Edge → Edge
named e = record e {
  id =
      "edge-v1:"
      <> (padded e.producer
          <> (":" <> (padded e.consumer <> (":virtual:" <> padded (index_of e.register)))));
}

-- The registers that a shard reads from others, and those that it makes for others.
abbrev pub inputs_of : ℕ → Uses → List Register
inputs_of id m = map (λ u. virtual u.0) (retain (λ (u : ℕ × List ℕ). any (λ d. d == id) u.1) m)

abbrev pub is_at : ℕ → Option ℕ → Bool
is_at id none = false
is_at id (some shard) = shard == id

abbrev pub outputs_of : List ShardSpec → ℕ → Uses → List Register
outputs_of specs id m =
    map (λ u. virtual u.0) (retain (λ (u : ℕ × List ℕ). is_at id (shard_from 0 specs u.0)) m)

abbrev pub shards_from : List ShardSpec → Uses → ℕ → List ShardSpec → List Shard
shards_from specs m id [] = []
shards_from specs m id (s ∷ ss) =
    record {
      id = id;
      name = s.name;
      range = s.range;
      inputs = inputs_of id m;
      outputs = outputs_of specs id m;
    }
    ∷ shards_from specs m (suc id) ss

-- The checks and the analysis: the uses by the order of their producers.
unfoldable pub uses_of :
    {Op : Type 0} → List (CompiledInstruction Op) → List ShardSpec → Result BuildDagError Uses
uses_of program specs = do
  guard (not (length specs == 0)) no_shards
  end ← check_contiguous 0 0 specs
  guard (end == length program) (not_contiguous (length program) end (length specs - 1))
  m ← collect specs (length program) 0 program []
  ok (sort_by (λ a b. compare a.0 b.0) m)

unfoldable pub build_dag :
    {Op : Type 0} → List (CompiledInstruction Op) → List ShardSpec → Result BuildDagError Graph
build_dag program specs = do
  m ← uses_of program specs
  edges ← edges_of specs m
  ok (record {
    shards = shards_from specs m 0 specs;
    edges = sort_by (λ a b. cmp_str a.id b.id) (map named (sort_by compare_edge edges));
  })
