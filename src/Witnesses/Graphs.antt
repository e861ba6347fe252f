-- ===== src/Witnesses/Graphs.antt =====
-- The graph of a program of three instructions in two shards, and numbers scaled by 10 ^ 18.
use zk_ie.Common.{
  ℕ, ◌+◌, ◌*◌, ◌<◌, List, [], ◌∷◌, ok, ◌≡◌, ◌↔◌, refl, arith, All, tally, u64_size, inl,
}
use zk_ie.Common.Int.{pos, negsuc, pos_part, neg_part}
use zk_ie.Common.Sort.{sort_by}
use zk_ie.Common.Text.{decimal}
use zk_ie.Dag.{Register, Range, Graph, Edge}
use zk_ie.Dag.Partition.{validate_virtual_references}
use zk_ie.Dag.Build.{
  ShardSpec, build_dag, uses_of, check_contiguous, shard_from, shard_of, add_use, collect_inputs,
  collect, edges_of, compare_edge, named, padded, zeros,
}
use zk_ie.Dag.Build.Edges.{IsEdge, build_dag-IsEdge}
use zk_ie.Dag.Build.Covers.{brings, build_dag-covers}
use zk_ie.Dag.Build.Total.{build_dag_total}
use zk_ie.Fixed.{scale_18, requantize_mul, requantize_raw, ◌*ℤ◌, shifted}
use zk_ie.Fixed.Requantize.{IsI64, requantize_mul_iff}
use zk_ie.Fixed.Shift.{shifted_iff}
use zk_ie.Witnesses.Shards.{program, add}

abbrev specs : List ShardSpec
specs =
    record { name = "head"; range = record { start = 0; end = 1 } }
    ∷ record { name = "tail"; range = record { start = 1; end = 3 } }
    ∷ []

abbrev graph : Graph
graph = record {
  shards =
      record {
        id = 0;
        name = "head";
        range = record { start = 0; end = 1 };
        inputs = [];
        outputs = Register.virtual 0 ∷ [];
      }
      ∷ record {
        id = 1;
        name = "tail";
        range = record { start = 1; end = 3 };
        inputs = Register.virtual 0 ∷ [];
        outputs = [];
      }
      ∷ [];
  edges =
      record {
        id = "edge-v1:00000000000000000000:00000000000000000001:virtual:00000000000000000000";
        producer = 0;
        consumer = 1;
        register = Register.virtual 0;
        kind = zk_ie.Dag.EdgeKind.sequential;
      }
      ∷ [];
}

is_built : build_dag program specs ≡ ok graph
unfolding build_dag uses_of check_contiguous shard_from shard_of add_use collect_inputs collect
    edges_of compare_edge named padded zeros sort_by decimal
is_built = refl

build_dag-IsEdge_example : All (IsEdge program specs) graph.edges
build_dag-IsEdge_example = build_dag-IsEdge program specs (omega arith) is_built

build_dag-covers_example : 0 < tally (brings 0 1) graph.edges
unfolding shard_from
build_dag-covers_example =
    build_dag-covers program specs 1 0 0 1 (add (Register.virtual 0 ∷ [])) is_built refl (inl refl)
      refl refl (omega arith)

build_dag_total_example : (g : Graph) × (build_dag program specs ≡ ok g)
unfolding check_contiguous validate_virtual_references
build_dag_total_example = build_dag_total program specs (omega arith) refl refl

-- -2.5 * 0.5 is -1.25.
half_of_minus :
    requantize_mul (negsuc 2499999999999999999) (pos 500000000000000000)
    ≡ ok (negsuc 1249999999999999999, 0)
unfolding requantize_mul requantize_raw ◌*ℤ◌
half_of_minus = refl

requantize_mul_iff_example :
    (requantize_mul (negsuc 2) (pos 1) ≡ ok (negsuc 0, 999999999999999997)) ↔ (
      (pos_part (negsuc 2) * 1 + neg_part (negsuc 2) * 0 + 1 * scale_18
        ≡ pos_part (negsuc 2) * 0 + neg_part (negsuc 2) * 1 + 0 * scale_18 + 999999999999999997)
      × (999999999999999997 < scale_18)
      × IsI64 (negsuc 0))
requantize_mul_iff_example = requantize_mul_iff (negsuc 2) (pos 1) (negsuc 0) 999999999999999997

shifted_iff_example : IsI64 (negsuc 4) ↔ ((n : ℕ) × (shifted (negsuc 4) ≡ pos n) × (n < u64_size))
shifted_iff_example = shifted_iff (negsuc 4)
