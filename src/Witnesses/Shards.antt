-- ===== src/Witnesses/Shards.antt =====
-- The theorems on plans and links, at a program of three instructions.
use zk_ie.Common.{
  ◌*◌, ◌≡◌, ◌↔◌, refl, true, List, [], ◌∷◌, ok, All, length, ◌>>=◌, Ensures, Fails, Fails-ok,
}
use zk_ie.Dag.{Register, CompiledInstruction, Range, Shard, Edge, EdgeKind, Graph, register_eq}
use zk_ie.Dag.Linker.{
  ShardProof, link, IsLinkedShard, IsLinkedEdge, get_proof, link_edge, link_edges, link_shards,
}
use zk_ie.Dag.Linker.Laws.{link_iff}
use zk_ie.Dag.Partition.{
  Budget, CostModel, InstructionEstimate, ShardEstimate, ranges_of, best_hint_from, choose_end, cut,
  extend, plan_ranges, range_exceeds, try_range, validate_virtual_references,
}
use zk_ie.Dag.Partition.Failures.{IsExternal, IsHonest}
use zk_ie.Dag.Planner.{plan, validate_dag}
use zk_ie.Dag.Build.{
  build_dag, uses_of, check_contiguous, shard_from, shard_of, add_use, collect_inputs, collect,
  edges_of, compare_edge, named, padded, zeros,
}
use zk_ie.Common.Sort.{sort_by}
use zk_ie.Common.Text.{decimal}
use zk_ie.Dag.Planner.Plans.{IsPlan, plan-IsPlan}
use zk_ie.Dag.Planner.Failures.{plan-IsExternal}

abbrev pub add : List Register → CompiledInstruction (Unit {0})
add inputs = record { instruction = tt; inputs = inputs; output_name = "sum" }

abbrev pub program : List (CompiledInstruction (Unit {0}))
program =
    add (Register.graph_input "x" ∷ [])
    ∷ add (Register.virtual 0 ∷ [])
    ∷ add (Register.virtual 1 ∷ Register.virtual 0 ∷ [])
    ∷ []

-- Ten bytes for an instruction, in a shard too.
abbrev linear : CostModel (Unit {0})
linear = record {
  identity = "linear";
  version = 1;
  estimate_instruction = λ c. ok (record { ram_bytes = 10; required_k = 4 });
  estimate_shard = λ cs. ok (record { ram_bytes = 10 * length cs; required_k = 4 });
}

-- Two instructions fit, and a hint asks for the second one to begin a shard.
abbrev budget : Budget
budget = record {
  target_shard_ram_bytes = 25;
  max_k = 8;
  boundary_hints = record { boundary = 1; priority = 1; label = "layer" } ∷ [];
}

abbrev cuts : List (Range × ShardEstimate)
cuts =
    (record { start = 0; end = 1 }, record { ram_bytes = 10; required_k = 4 })
    ∷ (record { start = 1; end = 3 }, record { ram_bytes = 20; required_k = 4 })
    ∷ []

abbrev each : List InstructionEstimate
each =
    record { ram_bytes = 10; required_k = 4 }
    ∷ record { ram_bytes = 10; required_k = 4 }
    ∷ record { ram_bytes = 10; required_k = 4 }
    ∷ []

ranges_of_program : ranges_of budget linear program ≡ ok (each, cuts)
unfolding ranges_of validate_virtual_references plan_ranges cut try_range range_exceeds extend
    choose_end best_hint_from
ranges_of_program = refl

-- The plan has both shards and the one edge between them.
planned :
    (plan budget linear program >>= λ p. ok (length p.shards ∷ length p.dag.edges ∷ []))
    ≡ ok (2 ∷ 1 ∷ [])
unfolding plan ranges_of validate_virtual_references plan_ranges cut try_range range_exceeds extend
    choose_end best_hint_from validate_dag build_dag uses_of check_contiguous shard_from shard_of
    add_use collect_inputs collect edges_of compare_edge named padded zeros sort_by decimal
planned = refl

plan-IsPlan_example : Ensures (IsPlan budget linear program) (plan budget linear program)
plan-IsPlan_example = plan-IsPlan budget linear program

linear-IsHonest : IsHonest linear
linear-IsHonest = record { instruction = λ c. Fails-ok; shard = λ cs. Fails-ok }

plan-IsExternal_example : Fails IsExternal (plan budget linear program)
plan-IsExternal_example = plan-IsExternal budget linear program linear-IsHonest

abbrev shards : List Shard
shards =
    record {
      id = 0;
      name = "shard-0";
      range = record { start = 0; end = 1 };
      inputs = [];
      outputs = Register.virtual 0 ∷ [];
    }
    ∷ record {
      id = 1;
      name = "shard-1";
      range = record { start = 1; end = 3 };
      inputs = Register.virtual 0 ∷ [];
      outputs = [];
    }
    ∷ []

abbrev edges : List Edge
edges =
    record {
      id = "edge";
      producer = 0;
      consumer = 1;
      register = Register.virtual 0;
      kind = EdgeKind.sequential;
    }
    ∷ []

abbrev graph : Graph
graph = record { shards = shards; edges = edges }

abbrev proofs : List ShardProof
proofs =
    record {
      shard_id = 0;
      input_commitments = [];
      output_commitments = (Register.virtual 0, 7 ∷ 9 ∷ []) ∷ [];
      valid = true;
    }
    ∷ record {
      shard_id = 1;
      input_commitments = (Register.virtual 0, 7 ∷ 9 ∷ []) ∷ [];
      output_commitments = [];
      valid = true;
    }
    ∷ []

linked : link graph proofs ≡ ok tt
unfolding link link_shards get_proof link_edges link_edge register_eq
linked = refl

link_iff_example :
    (link graph proofs ≡ ok tt)
    ↔ (All (IsLinkedShard proofs) graph.shards × All (IsLinkedEdge proofs) graph.edges)
link_iff_example = link_iff graph proofs
