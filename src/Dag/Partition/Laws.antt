-- ===== src/Dag/Partition/Laws.antt =====
-- What the ranges of a plan are: they follow each other from the first instruction to the last, each
-- within the budget by the cost model's own estimate.
use zk_ie.Common.{
  ℕ, zero, suc, ◌+◌, ◌-◌, ◌≤◌, ◌<◌, ◌≡◌, refl, inl, inr, Bool, true, false, not, Option, none, some,
  List, [], ◌∷◌, ◌++◌, Result, ok, guard, ok_or, ltb, leb, ◌==◌, length, arith, Option-cases,
  Bool-cases, Ordering, Ensures, Ensures-bind, Ensures-pure, Ensures-if,
}
use zk_ie.Dag.{CompiledInstruction, Range}
use zk_ie.Dag.Partition.{
  InstructionEstimate, ShardEstimate, PartitionError, BoundaryHint, Budget, in_range, compare_hint,
  best_hint_from, best_hint, Accepted, estimate_at, try_range, extend, choose_end, cut, plan_ranges,
  empty_partition, inconsistent_dag,
}

best_hint_from_in :
    (best : Option BoundaryHint) (hs : List BoundaryHint) (start end : ℕ) {h : BoundaryHint}
    → ((b : BoundaryHint) → best ≡ some b → in_range start end b ≡ true)
    → best_hint_from best hs start end ≡ some h
    → in_range start end h ≡ true
unfolding best_hint_from
best_hint_from_in best [] start end {h} k e = k h e
best_hint_from_in none (x ∷ hs) start end {h} k e = elim (Bool-cases (in_range start end x)) [
  | inl hit ↦
      best_hint_from_in (some x) hs start end {h = h} (λ b is. ground (arith, is, hit))
        (rw (hit, best_hint_from) at e)
  | inr miss ↦
      best_hint_from_in none hs start end {h = h} (λ b is. cc) (rw (miss, best_hint_from) at e)
]
best_hint_from_in (some best) (x ∷ hs) start end {h} k e =
    elim (Bool-cases (in_range start end x)) [
      | inl hit ↦
          best_hint_from_in (some (elim (compare_hint best x) [ Ordering.gt ↦ best | _ ↦ x ])) hs
            start end {h = h} (λ b is. ground (arith, is, hit, k best))
            (rw (hit, best_hint_from) at e)
      | inr miss ↦
          best_hint_from_in (some best) hs start end {h = h} k (rw (miss, best_hint_from) at e)
    ]

estimate_at-append :
    (b : ℕ) (accepted more : Accepted) {e : ShardEstimate}
    → estimate_at b accepted ≡ some e
    → estimate_at b (accepted ++ more) ≡ some e
estimate_at-append b [] more h = cc
estimate_at-append b (a ∷ accepted) more {e} h = elim (Bool-cases (a.0 == b)) [
  | inl hit ↦ ground (arith, h, hit)
  | inr miss ↦
      let rest = estimate_at-append b accepted more {e = e} (ground (arith, h, miss)) in
      ground (arith, rest, miss)
]

estimate_at-last :
    (b : ℕ) (accepted : Accepted) (e : ShardEstimate)
    → estimate_at b accepted ≡ none
    → estimate_at b (accepted ++ (b, e) ∷ []) ≡ some e
estimate_at-last b [] e h = ground arith
estimate_at-last b (a ∷ accepted) e h = ground (arith, h, estimate_at-last b accepted e)

estimate_at-other :
    (b c : ℕ) (accepted : Accepted) (e : ShardEstimate)
    → estimate_at b accepted ≡ none
    → c < b
    → estimate_at b (accepted ++ (c, e) ∷ []) ≡ none
estimate_at-other b c [] e h l = ground arith
estimate_at-other b c (a ∷ accepted) e h l = ground (arith, h, l, estimate_at-other b c accepted e)

module _ {Op : Type 0} (budget : Budget)
    (estimate_shard : List (CompiledInstruction Op) → Result PartitionError ShardEstimate)
    (instructions : List (CompiledInstruction Op)) (estimates : List InstructionEstimate) where
  abbrev pub try_it : ℕ → ℕ → Result PartitionError (ShardEstimate × Bool)
  try_it start end = try_range budget estimate_shard instructions estimates start end

  -- The accepted boundaries are those up to `end`, each with the estimate that the budget accepts.
  pub record IsAccepted (start end : ℕ) (accepted : Accepted) : Type 0 where
    pub nonempty : start < end
    pub inside : end ≤ length instructions
    pub each :
        (b : ℕ)
        → start < b
        → b ≤ end
        → (e : ShardEstimate) × (estimate_at b accepted ≡ some e) × (try_it start b ≡ ok (e, false))
    pub beyond : (b : ℕ) → end < b → estimate_at b accepted ≡ none

  IsAccepted-suc :
      (start end : ℕ) (accepted : Accepted) (e : ShardEstimate)
      → IsAccepted start end accepted
      → suc end ≤ length instructions
      → try_it start (suc end) ≡ ok (e, false)
      → IsAccepted start (suc end) (accepted ++ (suc end, e) ∷ [])
  IsAccepted-suc start end accepted e a l t = record {
    nonempty = omega (arith, a.nonempty);
    inside = l;
    each = λ b lo hi. elim (Bool-cases (leb b end)) [
      | inl old ↦
          let (x, at, is) = a.each b lo (ground (arith, old)) in
          (x, estimate_at-append b accepted ((suc end, e) ∷ []) at, is)
      | inr fresh ↦
          let same : b ≡ suc end = ground (arith, fresh, hi) in
          rw same (e, estimate_at-last (suc end) accepted e (a.beyond (suc end) (omega arith)), t)
    ];
    beyond = λ b hi. estimate_at-other b (suc end) accepted e (a.beyond b (omega (arith, hi))) hi;
  }

  -- The inner loop ends with accepted boundaries, whatever the number of turns that is left.
  pub extend-IsAccepted :
      (n start end : ℕ) (accepted : Accepted)
      → end + n ≡ length instructions
      → IsAccepted start end accepted
      → Ensures
          (λ out. IsAccepted start out.0 out.1)
          (extend budget estimate_shard instructions estimates n start end accepted)
  unfolding extend
  extend-IsAccepted zero start end accepted l a = Ensures-pure a
  extend-IsAccepted (suc n) start end accepted l a =
      Ensures-bind {m = try_it start (suc end)} λ tried is.
        Ensures-if tried.1 (λ _. Ensures-pure a)
          (λ kept.
            extend-IsAccepted n start (suc end) (accepted ++ (suc end, tried.0) ∷ [])
              (omega (arith, l))
              (IsAccepted-suc start end accepted tried.0 a (omega (arith, l)) (rw (← kept) is)))

  pub choose_end-in :
      (start end : ℕ)
      → start < end
      → (start < choose_end budget estimate_shard instructions estimates start end)
        × (choose_end budget estimate_shard instructions estimates start end ≤ end)
  unfolding choose_end
  choose_end-in start end l = elim (Option-cases (best_hint budget.boundary_hints start end)) [
    | inl is ↦ ground (arith, is, l)
    | inr (hint, is) ↦ ground (
      arith,
      is,
      l,
      best_hint_from_in none budget.boundary_hints start end {h = hint} (λ b e. cc) is,
    )
  ]

  -- One shard from `start`: its end and its estimate.
  pub record IsCut (start : ℕ) (out : ℕ × ShardEstimate) : Type 0 where
    pub grows : start < out.0
    pub inside : out.0 ≤ length instructions
    pub estimated : try_it start out.0 ≡ ok (out.1, false)

  -- Before the inner loop the first boundary is accepted.
  pub single-IsAccepted :
      (start : ℕ) (single : ShardEstimate × Bool)
      → start < length instructions
      → try_it start (suc start) ≡ ok single
      → single.1 ≡ false
      → IsAccepted start (suc start) ((suc start, single.0) ∷ [])
  single-IsAccepted start single l is kept = record {
    nonempty = omega arith;
    inside = l;
    each = λ b lo hi.
        let same : b ≡ suc start = omega (arith, lo, hi) in
        rw same (single.0, ground arith, rw (← kept) is);
    beyond = λ b hi. ground (arith, hi);
  }

  pub cut-IsCut :
      (start : ℕ)
      → start < length instructions
      → Ensures (IsCut start) (cut budget estimate_shard instructions estimates start)
  unfolding cut
  cut-IsCut start l = Ensures-bind {m = try_it start (suc start)} λ single is.
      Ensures-bind {m = guard (not single.1) _} λ _ fit.
        Ensures-bind
          {m = extend budget estimate_shard instructions estimates (length instructions - suc start)
            start (suc start) ((suc start, single.0) ∷ [])}
          λ extended extends.
            let end = choose_end budget estimate_shard instructions estimates start extended.0 in
            let a =
              (extend-IsAccepted (length instructions - suc start) start (suc start)
                  ((suc start, single.0) ∷ []) (omega (arith, l))
                  (single-IsAccepted start single l is (ground (arith, fit)))).at
                extended extends in
            let (lo, hi) = choose_end-in start extended.0 a.nonempty in
            Ensures-bind {m = guard (ltb start end) empty_partition} λ _ _.
              Ensures-bind {m = ok_or (estimate_at end extended.1) inconsistent_dag}
                λ estimate found.
                  let (e, at, tried) = a.each end lo hi in
                  let same : e ≡ estimate = ground (arith, at, found) in
                  Ensures-pure (record {
                    grows = lo;
                    inside = omega (arith, hi, a.inside);
                    estimated = rw same at tried;
                  })

  -- Shards from `start` to the last instruction, one after the other, none empty and each with the
  -- estimate that the budget accepts.
  abbrev pub IsPartition : ℕ → List (Range × ShardEstimate) → Type 0
  IsPartition start [] = start ≡ length instructions
  IsPartition start (shard ∷ shards) =
      (shard.0.start ≡ start) × IsCut start (shard.0.end, shard.1) × IsPartition shard.0.end shards

  pub plan_ranges-IsPartition :
      (fuel start : ℕ)
      → start ≤ length instructions
      → length instructions ≤ start + fuel
      → Ensures
          (IsPartition start)
          (plan_ranges budget estimate_shard instructions estimates fuel start)
  unfolding plan_ranges
  plan_ranges-IsPartition zero start l enough = Ensures-pure (omega (arith, l, enough))
  plan_ranges-IsPartition (suc fuel) start l enough =
      Ensures-if (ltb start (length instructions))
        (λ more.
          Ensures-bind {m = cut budget estimate_shard instructions estimates start} λ shard is.
            let c = (cut-IsCut start (ground (arith, more))).at shard is in
            Ensures-bind {m = plan_ranges budget estimate_shard instructions estimates fuel shard.0}
              λ rest planned. Ensures-pure (
                refl,
                c,
                (plan_ranges-IsPartition fuel shard.0 c.inside (omega (arith, c.grows, enough))).at
                    rest planned,
              ))
        (λ stop. Ensures-pure (ground (arith, stop, l)))
