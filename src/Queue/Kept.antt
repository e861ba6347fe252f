-- ===== src/Queue/Kept.antt =====
-- crates/zkie-runtime/src/queue.rs: what the engine does to a run is a sequence of the operations of
-- the database, whatever the workers, the verifier, the store and the monitor answer.
use zk_ie.Common.{
  none, List, [], ◌∷◌, Result, ok, String, ◌≡◌, ap, ◌∙◌, inl, inr, arith, Result-cases,
  Option-cases, Bool-cases,
}
use zk_ie.State.{JobKind, JobState, JobEvent}
use zk_ie.Db.Tables.{RunDb, DbError}
use zk_ie.Db.Jobs.{insert_job, add_dependency}
use zk_ie.Db.Steps.{
  Planned, inserted, depending, Step, began, progressed, accepted, published, keyed, Reached, step,
}
use zk_ie.Worker.{WorkerSpec, WorkerOutcome}
use zk_ie.Queue.{
  PlannedJob, QueuePlan, QueueError, Runtime, JobBinding, proof, key, Published, Engine, ◌>>=◌,
  pure, transact, reads,
}
use zk_ie.Queue.Plans.{existing, create_jobs, Ids, id_of, add_edges, connect, ensure_planned, edge}
use zk_ie.Queue.Rounds.{
  start_event, verified_of, commit, progress, commit_of, finish_of, finish_success, settle, run_one,
}

-- What the engine does keeps `P`.
pub record Keeps {A : Type 0} (P : RunDb → Type 0) (m : Engine A) : Type 0 where
  pub at : (db : RunDb) → P db → P (m db).0

module _ {P : RunDb → Type 0} where
  pub Keeps-bind :
      {A B : Type 0} {m : Engine A} {f : A → Engine B}
      → Keeps P m
      → ((a : A) → Keeps P (f a))
      → Keeps P (m >>= f)
  unfolding ◌>>=◌
  Keeps-bind {m} {f} k l = record {
    at = λ db p. elim (Result-cases (m db).1) [
      | inl (a, e) ↦ rw (e, ◌>>=◌) ((l a).at (m db).0 (k.at db p))
      | inr (x, e) ↦ rw (e, ◌>>=◌) (k.at db p)
    ];
  }

  pub Keeps-pure : {A : Type 0} {a : A} → Keeps P (pure a)
  Keeps-pure = record { at = λ db p. p }

  pub Keeps-transact :
      {A : Type 0} {op : RunDb → Result DbError (RunDb × A)}
      → ((db db' : RunDb) (a : A) → op db ≡ ok (db', a) → P db → P db')
      → Keeps P (transact op)
  unfolding transact
  Keeps-transact {op} k = record {
    at = λ db p. elim (Result-cases (op db)) [
      | inl (out, e) ↦ rw (e, transact) (k db out.0 out.1 e p)
      | inr (x, e) ↦ rw (e, transact) p
    ];
  }

  pub Keeps-reads : {A : Type 0} (f : RunDb → Result QueueError A) → Keeps P (reads f)
  unfolding reads
  Keeps-reads f = record { at = λ db p. p }

  pub Keeps-then :
      {A : Type 0} {op : RunDb → Result DbError (RunDb × A)}
      → ((db db' : RunDb) (a : A) → op db ≡ ok (db', a) → P db → P db')
      → Keeps P (transact op >>= λ _. pure (tt {0}))
  Keeps-then k = Keeps-bind (Keeps-transact k) (λ a. Keeps-pure)

-- The planning of a run.
create_jobs-Planned : (jobs : List PlannedJob) → Keeps Planned (create_jobs jobs)
unfolding create_jobs
create_jobs-Planned [] = Keeps-pure
create_jobs-Planned (job ∷ rest) = record {
  at = λ db p. elim (Option-cases (existing db job.logical_id)) [
    | inr (id, e) ↦
        rw (e, create_jobs) ((Keeps-bind (create_jobs-Planned rest) (λ a. Keeps-pure)).at db p)
    | inl e ↦
        rw (e, create_jobs)
          ((Keeps-bind
              (Keeps-transact {op = λ d. insert_job d job.logical_id job.kind}
                (λ d d' id h q. inserted d d' job.logical_id id job.kind q h))
              (λ id. Keeps-bind (create_jobs-Planned rest) (λ a. Keeps-pure))).at
            db p)
  ];
}

edge-Planned :
    (predecessor successor : String) (d d' : RunDb) (u : Unit {0})
    → edge predecessor successor d ≡ ok (d', u)
    → Planned d
    → Planned d'
edge-Planned predecessor successor d d' u h q =
    elim (Result-cases (add_dependency d predecessor successor)) [
      | inl (x, e) ↦ depending d d' predecessor successor q (e ∙ ap ok (ground (arith, e, h)))
      | inr (x, e) ↦ absurd (ground (arith, e, h))
    ]

add_edges-Planned :
    (ids : Ids) (job successor : String) (names : List String)
    → Keeps Planned (add_edges ids job successor names)
unfolding add_edges
add_edges-Planned ids job successor [] = Keeps-pure
add_edges-Planned ids job successor (name ∷ rest) = record {
  at = λ db p. elim (Option-cases (id_of name ids)) [
    | inl e ↦ rw (e, add_edges) p
    | inr (predecessor, e) ↦
        rw (e, add_edges)
          ((Keeps-bind
              (Keeps-transact {op = edge predecessor successor}
                (edge-Planned predecessor successor))
              (λ _. add_edges-Planned ids job successor rest)).at
            db p)
  ];
}

connect-Planned :
    (ids : Ids) (jobs : List PlannedJob) (rows : Ids) → Keeps Planned (connect ids jobs rows)
unfolding connect
connect-Planned ids [] rows = Keeps-pure
connect-Planned ids (job ∷ rest) [] = record { at = λ db p. p }
connect-Planned ids (job ∷ rest) (row ∷ rows) = elim (Bool-cases row.2) [
  | inl e ↦ rw e (
      Keeps-bind (add_edges-Planned ids job.logical_id row.1 job.depends_on)
        (λ _. connect-Planned ids rest rows))
  | inr e ↦ rw e (connect-Planned ids rest rows)
]

pub ensure_planned-Planned : (plan : QueuePlan) → Keeps Planned (ensure_planned plan)
unfolding ensure_planned
ensure_planned-Planned plan =
    Keeps-bind (create_jobs-Planned plan.jobs)
      (λ ids. Keeps-bind (connect-Planned ids plan.jobs ids) (λ a. Keeps-pure))

-- The operations of the engine.
module _ (rt : Runtime) where
  commit_of-Reached :
      (job : PlannedJob) (id attempt : String) (p : Published) (b : JobBinding) (db db' : RunDb)
      (next : JobState)
      → commit_of rt job id attempt p b db ≡ ok (db', next)
      → Reached db
      → Reached db'
  unfolding commit_of
  commit_of-Reached job id attempt p proof db db' next h r =
      step db db' r (published (verified_of db job id attempt p) (rt.clock_ms db) next db' h)
  commit_of-Reached job id attempt p key db db' next h r =
      step db db' r
        (keyed (verified_of db job id attempt p) p.identity_digest (rt.clock_ms db) next db' h)

  commit-Reached :
      (job : PlannedJob) (id attempt : String) → Keeps Reached (commit rt job id attempt)
  unfolding commit
  commit-Reached job id attempt =
      Keeps-bind (Keeps-reads _) (λ p. Keeps-then (commit_of-Reached job id attempt p job.binding))

  progress-Reached :
      (id attempt : String) (event : JobEvent) → Keeps Reached (progress rt id attempt event)
  unfolding progress
  progress-Reached id attempt event =
      Keeps-then
        (λ db db' a h r. step db db' r (progressed id attempt event (rt.clock_ms db) a db' h))

  finish_of-Reached :
      (job : PlannedJob) (id attempt : String) (kind : JobKind)
      → Keeps Reached (finish_of rt job id attempt kind)
  unfolding finish_of
  finish_of-Reached job id attempt JobKind.leaf_verification = Keeps-then (λ db db' a h r.
      step db db' r (accepted id attempt "independent-verifier" (rt.clock_ms db) a db' h))
  finish_of-Reached job id attempt JobKind.witness =
      Keeps-bind (progress-Reached id attempt JobEvent.witness_completed)
        (λ _. commit-Reached job id attempt)
  finish_of-Reached job id attempt JobKind.prepare =
      Keeps-bind (progress-Reached id attempt JobEvent.preparation_completed)
        (λ _. commit-Reached job id attempt)
  finish_of-Reached job id attempt JobKind.leaf_proof =
      Keeps-bind (progress-Reached id attempt JobEvent.proof_produced)
        (λ _. commit-Reached job id attempt)
  finish_of-Reached job id attempt JobKind.native_aggregate = commit-Reached job id attempt

  settle-Reached :
      (job : PlannedJob) (id attempt : String) (spec : WorkerSpec) (o : WorkerOutcome)
      → Keeps Reached (settle rt job id attempt spec o)
  unfolding settle finish_success
  settle-Reached job id attempt spec WorkerOutcome.succeeded =
      Keeps-bind (Keeps-reads _) (λ _. finish_of-Reached job id attempt job.kind)
  settle-Reached job id attempt spec (WorkerOutcome.failed code) =
      Keeps-then
        (λ db db' a h r. step db db' r (Step.failed id attempt _ none (rt.clock_ms db) a db' h))

  pub run_one-Reached :
      (plan : QueuePlan) (job : PlannedJob) (id : String) → Keeps Reached (run_one rt plan job id)
  unfolding run_one
  run_one-Reached plan job id =
      Keeps-bind
        (Keeps-transact (λ db db' a h r.
          step db db' r (began id a (start_event job.kind) (rt.clock_ms db) db' h)))
        (λ attempt. Keeps-bind (Keeps-reads _) (λ _. Keeps-bind (Keeps-reads _) (λ spec.
          Keeps-bind (Keeps-reads _)
            (λ result. settle-Reached job id attempt spec result.outcome))))
