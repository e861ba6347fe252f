-- ===== src/Queue/Runs.antt =====
-- crates/zkie-runtime/src/queue.rs, run_queue: the invariants of a run hold after the engine, however it
-- ends.
use zk_ie.Common.{
  ℕ, zero, suc, ◌+◌, List, [], ◌∷◌, Result, ok, String, ◌≡◌, refl, sym, ap, subst, ◌⊎◌, inl, inr,
  Result-cases, Option-cases, get_elem?, All,
}
use zk_ie.Common.Int.{ℤ}
use zk_ie.Common.Text.{cmp_str}
use zk_ie.Common.Sort.{sort_by}
use zk_ie.Resource.{ResourceCapacity}
use zk_ie.Monitor.{MemoryAction}
use zk_ie.Db.Tables.{RunDb}
use zk_ie.Db.Readiness.{refresh_readiness, recover_interrupted, recover_from, open_rows, ActiveRow}
use zk_ie.Db.Steps.{Planned, refreshed, recovered, Reached, planned, step}
use zk_ie.Db.Steps.Reachable.{Planned-closed}
use zk_ie.Scheduler.{
  SchedulerConfig, SchedulableJob, first_duplicate, decide, decide_with_memory, new_config,
}
use zk_ie.Queue.{QueuePlan, QueueError, Runtime, Engine, ◌>>=◌, transact}
use zk_ie.Queue.Plans.{Ids, ensure_planned}
use zk_ie.Queue.Rounds.{position, run_selected, decide_step, select, unless_idle, drive, run_queue}
use zk_ie.Queue.Planning.{IsKnown, ensure_planned_again}
use zk_ie.Queue.Kept.{
  Keeps, Keeps-bind, Keeps-pure, Keeps-transact, Keeps-reads, ensure_planned-Planned,
  run_one-Reached,
}

decide-Reached :
    (config : SchedulerConfig) (db : RunDb) (candidates : List SchedulableJob)
    (available : ResourceCapacity) (now_ms : ℕ) (now : ℤ)
    → Reached db
    → Reached (decide config db candidates available now_ms now).0
unfolding decide
decide-Reached config db candidates available now_ms now r =
    elim (Option-cases (first_duplicate [] candidates)) [
      | inr (id, e) ↦ rw (e, decide) r
      | inl e ↦ elim (Result-cases (refresh_readiness db now_ms)) [
        | inr (x, f) ↦ rw (e, decide) (rw f r)
        | inl (out, f) ↦ rw (e, decide) (rw f (step db out.0 r (refreshed now_ms out.1 out.0 f)))
      ]
    ]

decide_with_memory-Reached :
    (config : SchedulerConfig) (db : RunDb) (candidates : List SchedulableJob)
    (available : ResourceCapacity) (memory : MemoryAction) (now_ms : ℕ) (now : ℤ)
    → Reached db
    → Reached (decide_with_memory config db candidates available memory now_ms now).0
unfolding decide_with_memory
decide_with_memory-Reached config db candidates available MemoryAction.admit now_ms now r =
    decide-Reached config db candidates available now_ms now r
decide_with_memory-Reached config db candidates available _ now_ms now r = r

unless_idle-Keeps :
    {P : RunDb → Type 0} (rounds : ℕ) (selected : List String) {later : Engine ℕ}
    → Keeps P later
    → Keeps P (unless_idle rounds selected later)
unfolding unless_idle
unless_idle-Keeps rounds [] k = Keeps-pure
unless_idle-Keeps rounds (_ ∷ _) k = k

-- What holds after the first part and after the second, from there.
bind-at :
    {A B : Type 0} (P : RunDb → Type 0) (m : Engine A) (f : A → Engine B) (db : RunDb)
    → P (m db).0
    → ((a : A) → P (f a (m db).0).0)
    → P ((m >>= f) db).0
unfolding ◌>>=◌
bind-at P m f db p k = elim (Result-cases (m db).1) [
  | inl (a, e) ↦ rw (e, ◌>>=◌) (k a)
  | inr (x, e) ↦ rw (e, ◌>>=◌) p
]

recover-Planned : {db : RunDb} (now : ℕ) → Planned db → recover_interrupted db now ≡ ok (db, 0)
unfolding recover_interrupted sort_by
recover-Planned {db} now p =
    ap
      (λ (rows : List ActiveRow).
        recover_from (sort_by (λ a b. cmp_str a.attempt_id b.attempt_id) rows) now db 0)
      (ap (open_rows db.jobs) (Planned-closed p))

module _ (rt : Runtime) where
  decide_step-Reached :
      (candidates : List SchedulableJob) → Keeps Reached (decide_step rt candidates)
  unfolding decide_step
  decide_step-Reached candidates = record {
    at = λ db r.
        decide_with_memory-Reached (new_config rt.capacity) db candidates rt.capacity (rt.action db)
          (rt.clock_ms db) (rt.clock_seconds db) r;
  }

  run_selected-Reached :
      (plan : QueuePlan) (ids : Ids) (selected : List String)
      → Keeps Reached (run_selected rt plan ids selected)
  unfolding run_selected
  run_selected-Reached plan ids [] = Keeps-pure
  run_selected-Reached plan ids (id ∷ rest) = record {
    at = λ db r. elim (Option-cases (position rt id ids)) [
      | inl e ↦ rw (e, run_selected) r
      | inr (index, e) ↦ elim (Option-cases (get_elem? plan.jobs index)) [
        | inl f ↦ rw (e, run_selected) (rw f r)
        | inr (job, f) ↦
            rw (e, run_selected)
              (rw f (
                (Keeps-bind (run_one-Reached rt plan job id)
                    (λ _. run_selected-Reached plan ids rest)).at
                  db r))
      ]
    ];
  }

  select-Reached : (candidates : List SchedulableJob) → Keeps Reached (select rt candidates)
  unfolding select
  select-Reached [] = Keeps-pure
  select-Reached (c ∷ cs) = Keeps-bind (decide_step-Reached (c ∷ cs)) (λ d. Keeps-pure)

  drive-Reached :
      (left rounds : ℕ) (plan : QueuePlan) (ids : Ids)
      → Keeps Reached (drive rt left rounds plan ids)
  unfolding drive
  drive-Reached zero rounds plan ids = record { at = λ db r. r }
  drive-Reached (suc left) rounds plan ids =
      Keeps-bind
        (Keeps-transact (λ db db' a h r. step db db' r (refreshed (rt.clock_ms db) a db' h)))
        (λ _. Keeps-bind (Keeps-reads _) (λ candidates.
          Keeps-bind (select-Reached candidates) (λ selected. unless_idle-Keeps rounds selected (
            Keeps-bind (run_selected-Reached plan ids selected)
              (λ _. drive-Reached left (rounds + 1) plan ids)))))

  -- The run after the recovery with which the engine begins.
  abbrev pub resumed : RunDb → RunDb
  resumed db = (transact (λ d. recover_interrupted d (rt.clock_ms d)) db).0

  -- A run that may be driven: it was planned only, or it knows every job of the plan.
  abbrev pub IsDrivable : QueuePlan → RunDb → Type 0
  IsDrivable plan db = Planned db ⊎ All (IsKnown (resumed db)) plan.jobs

  resumed-Planned : (db : RunDb) → Planned db → resumed db ≡ db
  unfolding transact
  resumed-Planned db p = rw (recover-Planned (rt.clock_ms db) p, resumed) refl

  resumed-Reached : (db : RunDb) → Reached db → Reached (resumed db)
  resumed-Reached db r =
      (Keeps-transact {P = Reached} {op = λ d. recover_interrupted d (rt.clock_ms d)}
          (λ d d' a h q. step d d' q (recovered (rt.clock_ms d) a d' h))).at
        db r

  ensure_planned-Reached :
      (plan : QueuePlan) (db : RunDb)
      → Reached (resumed db)
      → IsDrivable plan db
      → Reached (ensure_planned plan (resumed db)).0
  ensure_planned-Reached plan db r (inl p) =
      planned _ (
        (ensure_planned-Planned plan).at (resumed db)
          (subst Planned (sym (resumed-Planned db p)) p))
  ensure_planned-Reached plan db r (inr k) =
      let (ids, e) = ensure_planned_again plan (resumed db) k in
      subst Reached (sym (ap (λ (out : RunDb × Result QueueError Ids). out.0) e)) r

  -- However the engine ends, and whatever the worker, the verifier, the store and the monitor
  -- answer, a run that the operations of Db.Steps reach is left as one that they reach, where it
  -- was planned only or where every job of the plan is known to it after the recovery; so the
  -- properties of such runs hold of it.
  pub run_queue-Reached :
      (plan : QueuePlan) (db : RunDb)
      → Reached db
      → IsDrivable plan db
      → Reached (run_queue rt plan db).0
  unfolding run_queue
  run_queue-Reached plan db r drivable =
      let start = resumed-Reached db r in
      bind-at Reached (transact (λ d. recover_interrupted d (rt.clock_ms d))) _ db start (λ _.
        bind-at Reached (ensure_planned plan) _ (resumed db)
          (ensure_planned-Reached plan db start drivable)
          (λ ids.
            (Keeps-bind (drive-Reached rt.max_rounds 0 plan ids) (λ rounds. Keeps-reads _)).at _
              (ensure_planned-Reached plan db start drivable)))
