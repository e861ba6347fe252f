-- ===== src/Executor/Shards/Consistent.antt =====
-- crates/zkie-prover/src/witness_cpu.rs, execute: the values of the registers fit one another.
use zk_ie.Common.{
  ℕ, zero, suc, ◌+◌, ◌-◌, ◌≤◌, true, false, not, none, some, List, [], ◌∷◌, ◌++◌, ok, guard, ok_or,
  ok_or-some, ltb, leb, length, get_elem?, All, All-append, ◌≡◌, refl, sym, ap, ◌∙◌, subst, arith,
  >>=-eq-ok, ok-injective, checked_add_u64, Bool-cases, Option-cases, inl, inr, map,
}
use zk_ie.Common.Int.{ℤ}
use zk_ie.Common.Text.{eq_iff}
use zk_ie.Dag.{CompiledInstruction, Register, graph_input, weight, virtual, register_eq}
use zk_ie.Executor.{Instruction, resource, missing_register, panicked, execute_instruction}
use zk_ie.Worker.{count_up}
use zk_ie.Executor.Shards.{
  Registers, lookup, Supplied, Backend, Run, empty_run, resolve_external, resolve_inputs,
  operands_of, run_instruction, run_range, run_shard,
}

register_eq_sound : (a b : Register) → register_eq a b ≡ true → a ≡ b
unfolding register_eq
register_eq_sound (graph_input a) (graph_input b) h = ap graph_input ((eq_iff a b).0 h)
register_eq_sound (graph_input a) (weight b) h = ground arith
register_eq_sound (graph_input a) (virtual b) h = ground arith
register_eq_sound (weight a) (graph_input b) h = ground arith
register_eq_sound (weight a) (weight b) h = ap weight ((eq_iff a b).0 h)
register_eq_sound (weight a) (virtual b) h = ground arith
register_eq_sound (virtual a) (graph_input b) h = ground arith
register_eq_sound (virtual a) (weight b) h = ground arith
register_eq_sound (virtual a) (virtual b) h = ground arith

-- What has a value keeps it.
abbrev Extends : Registers → Registers → Type 0
Extends m n = (r : Register) (v : List ℤ) → lookup r m ≡ some v → lookup r n ≡ some v

-- No register of an instruction from `index` on has a value.
abbrev Fresh : ℕ → Registers → Type 0
Fresh index m = (i : ℕ) → index ≤ i → lookup (virtual i) m ≡ none

insert-Extends :
    (key : Register) (v : List ℤ) (m : Registers) → lookup key m ≡ none → Extends m ((key, v) ∷ m)
unfolding lookup
insert-Extends key v m absent r w h = elim (Bool-cases (register_eq key r)) [
  | inl same ↦
      let e : lookup r m ≡ none =
        subst (λ (x : Register). lookup x m ≡ none) (register_eq_sound key r same) absent in
      ground (arith, e, h)
  | inr other ↦ rw other h
]

insert-Fresh :
    (index : ℕ) (key : Register) (v : List ℤ) (m : Registers)
    → ((i : ℕ) → index ≤ i → register_eq key (virtual i) ≡ false)
    → Fresh index m
    → Fresh index ((key, v) ∷ m)
unfolding lookup
insert-Fresh index key v m apart f i l = rw (apart i l) (f i l)

virtual_lt-apart : (i j : ℕ) → suc i ≤ j → register_eq (virtual i) (virtual j) ≡ false
unfolding register_eq
virtual_lt-apart i j l = ground arith

lookup_own : (i : ℕ) (v : List ℤ) (m : Registers) → lookup (virtual i) ((virtual i, v) ∷ m) ≡ some v
unfolding lookup register_eq
lookup_own i v m = ground arith

module _ (backend : Backend) (supplied : Supplied) where
  resolve_external-apart :
      (key : Register) (index : ℕ) {v : List ℤ}
      → resolve_external backend supplied key index ≡ ok v
      → (i : ℕ) → index ≤ i
      → register_eq key (virtual i) ≡ false
  unfolding resolve_external register_eq
  resolve_external-apart (graph_input name) index h i l = refl
  resolve_external-apart (weight name) index h i l = refl
  resolve_external-apart (virtual j) index h i l = elim (Bool-cases (leb index j)) [
    | inl ahead ↦ ground (arith, h, ahead)
    | inr before ↦ ground (arith, before)
  ]

  -- What reading the inputs of an instruction leaves.
  record Kept (index : ℕ) (run out : Run) : Type 0 where
    extends : Extends run.registers out.registers
    fresh : Fresh index out.registers
    virtuals : out.virtuals ≡ run.virtuals

  resolve_inputs-Kept :
      (index : ℕ) (rs : List Register) (run : Run) {out : Run}
      → Fresh index run.registers
      → resolve_inputs backend supplied index rs run ≡ ok out
      → Kept index run out
  unfolding resolve_inputs
  resolve_inputs-Kept index [] run f h =
      subst (Kept index run) (ok-injective h)
        (record { extends = λ r v e. e; fresh = f; virtuals = refl })
  resolve_inputs-Kept index (r ∷ rs) run {out} f h = elim (Option-cases (lookup r run.registers)) [
    | inr (v, e) ↦ resolve_inputs-Kept index rs run f (rw (e, resolve_inputs) at h)
    | inl e ↦
        let (v, found, h1) =
          >>=-eq-ok (resolve_external backend supplied r index) _ (rw (e, resolve_inputs) at h) in
        let k =
          resolve_inputs-Kept index rs _
            (insert-Fresh index r v run.registers (resolve_external-apart r index found) f) h1 in
        record {
          extends = λ x w g. k.extends x w (insert-Extends r v run.registers e x w g);
          fresh = k.fresh;
          virtuals = k.virtuals;
        }
  ]

  operands_of-Extends :
      (m n : Registers) (rs : List Register) {os : List (List ℤ)}
      → Extends m n
      → operands_of m rs ≡ ok os
      → operands_of n rs ≡ ok os
  unfolding operands_of
  operands_of-Extends m n [] x h = h
  operands_of-Extends m n (r ∷ rs) x h =
      let (v, found, h1) = >>=-eq-ok (ok_or (lookup r m) missing_register) _ h in
      let (os, rest, h2) = >>=-eq-ok (operands_of m rs) _ h1 in
      rw (x r v (ok_or-some (lookup r m) missing_register found))
        (rw (operands_of-Extends m n rs x rest) h2)

  -- An entry of what is computed: the value that its instruction makes of the values of its inputs.
  pub record Computed (m : Registers) (entry : ℕ × List ℤ) : Type 0 where
    pub compiled : CompiledInstruction Instruction
    pub operands : List (List ℤ)
    pub stands : get_elem? backend.program entry.0 ≡ some compiled
    pub reads : operands_of m compiled.inputs ≡ ok operands
    pub makes :
        execute_instruction backend.scales entry.0 compiled.instruction operands ≡ ok entry.1
    pub held : lookup (virtual entry.0) m ≡ some entry.1

  Computed-Extends :
      (m n : Registers) (entries : List (ℕ × List ℤ))
      → Extends m n
      → All (Computed m) entries
      → All (Computed n) entries
  Computed-Extends m n [] x a = tt
  Computed-Extends m n (e ∷ es) x (a, as') = (
    record {
      compiled = a.compiled;
      operands = a.operands;
      stands = a.stands;
      reads = operands_of-Extends m n a.compiled.inputs x a.reads;
      makes = a.makes;
      held = x (virtual e.0) e.1 a.held;
    },
    Computed-Extends m n es x as',
  )

  record IsConsistent (index : ℕ) (run : Run) : Type 0 where
    fresh : Fresh index run.registers
    computed : All (Computed run.registers) run.virtuals

  -- What a body of the loop leaves.
  record Stepped (index : ℕ) (run out : Run) : Type 0 where
    consistent : IsConsistent (suc index) out
    output : List ℤ
    adds : out.virtuals ≡ run.virtuals ++ (index, output) ∷ []

  run_instruction-Stepped :
      (index : ℕ) (run : Run) {out : Run}
      → IsConsistent index run
      → run_instruction backend supplied index run ≡ ok out
      → Stepped index run out
  unfolding run_instruction
  run_instruction-Stepped index run {out} c h =
      let (compiled, e1, h1) = >>=-eq-ok (ok_or (get_elem? backend.program index) panicked) _ h in
      let (resolved, e2, h2) =
        >>=-eq-ok (resolve_inputs backend supplied index compiled.inputs run) _ h1 in
      let (operands, e3, h3) = >>=-eq-ok (operands_of resolved.registers compiled.inputs) _ h2 in
      let (output, e4, h4) =
        >>=-eq-ok (execute_instruction backend.scales index compiled.instruction operands) _ h3 in
      let (_, _, h5) =
        >>=-eq-ok (guard (not (ltb backend.values_per_tensor (length output))) resource) _ h4 in
      let (generated, _, h6) =
        >>=-eq-ok (ok_or (checked_add_u64 resolved.generated_values (length output)) resource) _
          h5 in
      let (_, _, h7) =
        >>=-eq-ok (guard (not (ltb backend.total_artifact_values generated)) resource) _ h6 in
      let k = resolve_inputs-Kept index compiled.inputs run c.fresh e2 in
      let last = (virtual index, output) ∷ resolved.registers in
      let grown =
        insert-Extends (virtual index) output resolved.registers (k.fresh index (omega arith)) in
      subst (Stepped index run) (ok-injective h7) (record {
        consistent = record {
          fresh =
              insert-Fresh (suc index) (virtual index) output resolved.registers
                (virtual_lt-apart index) (λ i l. k.fresh i (omega arith));
          computed =
              All-append (Computed last) resolved.virtuals ((index, output) ∷ [])
                (subst (All (Computed last)) (sym k.virtuals) (
                  Computed-Extends run.registers last run.virtuals
                    (λ r v g. grown r v (k.extends r v g)) c.computed))
                (
                  record {
                    compiled = compiled;
                    operands = operands;
                    stands = ok_or-some _ panicked e1;
                    reads = operands_of-Extends resolved.registers last compiled.inputs grown e3;
                    makes = e4;
                    held = lookup_own index output resolved.registers;
                  },
                  tt,
                );
        };
        output = output;
        adds = ap (λ (l : List (ℕ × List ℤ)). l ++ (index, output) ∷ []) k.virtuals;
      })

  abbrev indices : List (ℕ × List ℤ) → List ℕ
  indices entries = map (λ e. e.0) entries

  indices-append :
      (a : List (ℕ × List ℤ)) (i : ℕ) (v : List ℤ) (rest : List ℕ)
      → indices (a ++ (i, v) ∷ []) ++ rest ≡ indices a ++ i ∷ rest
  indices-append [] i v rest = refl
  indices-append (e ∷ a) i v rest = ap (λ (l : List ℕ). e.0 ∷ l) (indices-append a i v rest)

  indices-nil : (a : List (ℕ × List ℤ)) → indices a ≡ indices a ++ []
  indices-nil [] = refl
  indices-nil (e ∷ a) = ap (λ (l : List ℕ). e.0 ∷ l) (indices-nil a)

  run_range-IsConsistent :
      (left index : ℕ) (run : Run) {out : Run}
      → IsConsistent index run
      → run_range backend supplied left index run ≡ ok out
      → All (Computed out.registers) out.virtuals
        × (indices out.virtuals ≡ indices run.virtuals ++ count_up left index)
  unfolding run_range count_up
  run_range-IsConsistent zero index run {out} c h =
      subst
        (λ (o : Run).
          All (Computed o.registers) o.virtuals × (indices o.virtuals ≡ indices run.virtuals ++ []))
        (ok-injective h) (c.computed, indices-nil run.virtuals)
  run_range-IsConsistent (suc left) index run {out} c h =
      let (next, e, h1) = >>=-eq-ok (run_instruction backend supplied index run) _ h in
      let s = run_instruction-Stepped index run c e in
      let (computed, covers) = run_range-IsConsistent left (suc index) next s.consistent h1 in
      let up : suc index ≡ index + 1 = omega arith in
      (
        computed,
        covers
            ∙ ap (λ (l : List (ℕ × List ℤ)). indices l ++ count_up left (suc index)) s.adds
            ∙ indices-append run.virtuals index s.output (count_up left (suc index))
            ∙ ap (λ (i : ℕ). indices run.virtuals ++ index ∷ count_up left i) up,
      )

  -- After the loop over the instructions of a shard, where it ends without an error, there is one
  -- value for each instruction of the range, in its order, and it is what the instruction makes of
  -- the values that its input registers have in the end, one that its own register has in the end.
  pub run_shard-Computed :
      {out : Run}
      → run_shard backend supplied ≡ ok out
      → All (Computed out.registers) out.virtuals
        × (map (λ e. e.0) out.virtuals
            ≡ count_up
                (backend.shard.range.end - backend.shard.range.start)
                backend.shard.range.start)
  unfolding run_shard lookup
  run_shard-Computed h =
      run_range-IsConsistent (backend.shard.range.end - backend.shard.range.start)
        backend.shard.range.start empty_run (record { fresh = λ i l. refl; computed = tt }) h
