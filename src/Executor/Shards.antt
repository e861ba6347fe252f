-- ===== src/Executor/Shards.antt =====
-- crates/zkie-prover/src/witness_cpu.rs, execute: the loop over the instructions of a shard, in which a
-- register has a value once it is read or computed. A map is an association list or a function.
pub mod Consistent
use zk_ie.Common.{
  ℕ, zero, suc, ◌+◌, ◌-◌, Bool, true, false, not, Option, none, some, List, [], ◌∷◌, ◌++◌, Result,
  ok, err, ◌>>=◌, ◌>>◌, guard, ok_or, if◌then◌else◌, ltb, leb, any, length, get_elem?, String,
  checked_add_u64,
}
use zk_ie.Common.Int.{ℤ}
use zk_ie.Dag.{CompiledInstruction, Register, graph_input, weight, virtual, register_eq, Shard}
use zk_ie.Executor.{
  Instruction, BackendError, resource, missing_register, forward_register, panicked, Scales,
  execute_instruction,
}

abbrev pub Registers : Type 0
Registers = List (Register × List ℤ)

-- `HashMap::get`.
unfoldable pub lookup : Register → Registers → Option (List ℤ)
lookup register [] = none
lookup register ((key, values) ∷ rest) =
    if register_eq key register then some values else lookup register rest

-- `CpuWitnessInputs`.
pub record Supplied : Type 0 where
  pub graph_inputs : String → Option (List ℤ)
  pub virtual_inputs : ℕ → Option (List ℤ)

-- What the loop reads of the backend.
pub record Backend : Type 0 where
  pub program : List (CompiledInstruction Instruction)
  pub shard : Shard
  pub scales : Scales
  pub weights : String → Option (List ℤ)
  pub values_per_tensor : ℕ
  pub total_artifact_values : ℕ

-- The local variables of the loop.
pub record Run : Type 0 where
  pub registers : Registers
  pub boundary_inputs : Registers
  pub virtuals : List (ℕ × List ℤ)
  pub generated_values : ℕ

abbrev pub empty_run : Run
empty_run = record { registers = []; boundary_inputs = []; virtuals = []; generated_values = 0 }

-- The operands of an instruction.
unfoldable pub operands_of : Registers → List Register → Result BackendError (List (List ℤ))
operands_of registers [] = ok []
operands_of registers (register ∷ rest) = do
  values ← ok_or (lookup register registers) missing_register
  others ← operands_of registers rest
  ok (values ∷ others)

module _ (backend : Backend) (supplied : Supplied) where
  unfoldable pub resolve_external : Register → ℕ → Result BackendError (List ℤ)
  resolve_external (graph_input name) instruction =
      ok_or (supplied.graph_inputs name) missing_register
  resolve_external (weight name) instruction = ok_or (backend.weights name) missing_register
  resolve_external (virtual index) instruction =
      if leb instruction index
      then err (forward_register instruction)
      else if ltb index backend.shard.range.start
      then (if any (λ r. register_eq r (virtual index)) backend.shard.inputs
          then ok_or (supplied.virtual_inputs index) missing_register
          else err missing_register)
      else err missing_register

  -- The loop over the inputs of an instruction.
  unfoldable pub resolve_inputs : ℕ → List Register → Run → Result BackendError Run
  resolve_inputs index [] run = ok run
  resolve_inputs index (register ∷ rest) run = elim (lookup register run.registers) [
    | some _ ↦ resolve_inputs index rest run
    | none ↦ do
      values ← resolve_external register index
      resolve_inputs index rest (record run {
        registers = (register, values) ∷ run.registers;
        boundary_inputs = (register, values) ∷ run.boundary_inputs;
      })
  ]

  -- The body of the loop.
  unfoldable pub run_instruction : ℕ → Run → Result BackendError Run
  run_instruction index run = do
    compiled ← ok_or (get_elem? backend.program index) panicked
    resolved ← resolve_inputs index compiled.inputs run
    operands ← operands_of resolved.registers compiled.inputs
    output ← execute_instruction backend.scales index compiled.instruction operands
    guard (not (ltb backend.values_per_tensor (length output))) resource
    generated ← ok_or (checked_add_u64 resolved.generated_values (length output)) resource
    guard (not (ltb backend.total_artifact_values generated)) resource
    ok (record {
      registers = (virtual index, output) ∷ resolved.registers;
      boundary_inputs = resolved.boundary_inputs;
      virtuals = resolved.virtuals ++ (index, output) ∷ [];
      generated_values = generated;
    })

  unfoldable pub run_range : ℕ → ℕ → Run → Result BackendError Run
  run_range zero index run = ok run
  run_range (suc left) index run = do
    next ← run_instruction index run
    run_range left (suc index) next

  unfoldable pub run_shard : Result BackendError Run
  run_shard =
      run_range (backend.shard.range.end - backend.shard.range.start) backend.shard.range.start
        empty_run
