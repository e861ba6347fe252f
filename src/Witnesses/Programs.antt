-- ===== src/Witnesses/Programs.antt =====
-- A program of two additions, run as one shard: x + w, and that + x.
use zk_ie.Common.{◌-◌, some, none, List, [], ◌∷◌, ok, err, ◌≡◌, refl, All, map, if◌then◌else◌}
use zk_ie.Common.Int.{pos}
use zk_ie.Common.Text.{str_eq}
use zk_ie.Fixed.{◌+ℤ◌, overflow}
use zk_ie.Dag.{CompiledInstruction, Register, graph_input, weight, virtual, register_eq}
use zk_ie.Worker.{count_up}
use zk_ie.Executor.{
  Instruction, eltwise_of, EltwiseOp, execute_instruction, eltwise, eltwise_at, checked_add_i64,
  collect_from, expect_operands,
}
use zk_ie.Executor.Shards.{
  Supplied, Backend, Run, empty_run, lookup, operands_of, resolve_external, resolve_inputs,
  run_instruction, run_range, run_shard,
}
use zk_ie.Executor.Shards.Consistent.{Computed, run_shard-Computed}

abbrev adding : List Register → CompiledInstruction Instruction
adding inputs = record {
  instruction = eltwise_of EltwiseOp.add;
  inputs = inputs;
  output_name = "y";
}

abbrev backend : Backend
backend = record {
  program =
      adding (graph_input "x" ∷ weight "w" ∷ []) ∷ adding (virtual 0 ∷ graph_input "x" ∷ []) ∷ [];
  shard = record {
    id = 0;
    name = "shard-0";
    range = record { start = 0; end = 2 };
    inputs = [];
    outputs = [];
  };
  scales = record {
    reciprocal = λ dim. err overflow;
    thousandths = λ n. err overflow;
    rms_norm_tables = λ dim n. none;
  };
  weights = λ name. if str_eq name "w" then some (pos 10 ∷ []) else none;
  values_per_tensor = 4;
  total_artifact_values = 100;
}

abbrev supplied : Supplied
supplied = record {
  graph_inputs = λ name. some (pos 1 ∷ pos 2 ∷ []);
  virtual_inputs = λ index. none;
}

abbrev finished : Run
finished = elim (run_shard backend supplied) [ ok run ↦ run | err _ ↦ empty_run ]

run_shard-Computed_example :
    All (Computed backend supplied finished.registers) finished.virtuals
    × (map (λ e. e.0) finished.virtuals ≡ count_up (2 - 0) 0)
unfolding run_shard run_range run_instruction resolve_inputs resolve_external lookup operands_of
    register_eq execute_instruction eltwise eltwise_at checked_add_i64 collect_from expect_operands
    ◌+ℤ◌
run_shard-Computed_example = run_shard-Computed backend supplied {out = finished} refl

-- The values: the weight is broadcast.
is_finished : finished.virtuals ≡ (0, pos 11 ∷ pos 12 ∷ []) ∷ (1, pos 12 ∷ pos 14 ∷ []) ∷ []
unfolding run_shard run_range run_instruction resolve_inputs resolve_external lookup operands_of
    register_eq execute_instruction eltwise eltwise_at checked_add_i64 collect_from expect_operands
    ◌+ℤ◌
is_finished = refl
