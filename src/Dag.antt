-- ===== src/Dag.antt =====
-- crates/zkie-compiler/src/dag/: a compiled program cut into shards, and the links between their
-- proofs. The registers are those of graph_compiler.rs; what an instruction computes is a parameter.
pub mod Linker
pub mod Partition
pub mod Planner
pub mod Build
use zk_ie.Common.{ℕ, ◌<◌, ◌≡◌, ◌↔◌, Bool, true, false, ◌&&◌, String, List, arith, ◌==◌}
use zk_ie.Common.Text.{str_eq, eq_iff}

pub data Register : Type 0 where
  graph_input : String → Register
  weight : String → Register
  virtual : ℕ → Register

unfoldable pub register_eq : Register → Register → Bool
register_eq (graph_input a) (graph_input b) = str_eq a b
register_eq (weight a) (weight b) = str_eq a b
register_eq (virtual a) (virtual b) = a == b
register_eq _ _ = false

pub record CompiledInstruction (Op : Type 0) : Type 0 where
  pub instruction : Op
  pub inputs : List Register
  pub output_name : String

-- `Range<usize>`.
pub record Range : Type 0 where
  pub start : ℕ
  pub end : ℕ

pub record Shard : Type 0 where
  pub id : ℕ
  pub name : String
  pub range : Range
  pub inputs : List Register
  pub outputs : List Register

pub data EdgeKind : Type 0 where
  sequential broadcast : EdgeKind

pub record Edge : Type 0 where
  pub id : String
  pub producer : ℕ
  pub consumer : ℕ
  pub register : Register
  pub kind : EdgeKind

pub record Graph : Type 0 where
  pub shards : List Shard
  pub edges : List Edge
