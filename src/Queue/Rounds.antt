-- ===== src/Queue/Rounds.antt =====
-- crates/zkie-runtime/src/queue.rs, run_one and run_queue: the attempts of the jobs, one at a time.
use zk_ie.Common.{
  ℕ, zero, suc, ◌+◌, Bool, false, Option, none, some, List, [], ◌∷◌, ◌++◌, Result, ok, err, String,
  if◌then◌else◌, get_elem?, ◌==◌,
}
use mathlib.Core.Option
use zk_ie.Common.Text.{str_eq, codes}
use zk_ie.Common.Chars.{Chars}
use zk_ie.State.{JobKind, JobState, JobEvent, FailureKind, FailureStage, FailureCode, new_failure}
use zk_ie.Db.Tables.{RunDb, DbError}
use zk_ie.Db.Attempts.{begin_attempt, apply_attempt_event}
use zk_ie.Db.Failures.{handle_attempt_failure, complete_verification}
use zk_ie.Db.Commits.{Verified, commit_verified_artifact, commit_verified_key}
use zk_ie.Db.Readiness.{refresh_readiness, recover_interrupted}
use zk_ie.Scheduler.{SchedulableJob, SchedulerDecision, decide_with_memory, new_config}
use zk_ie.Worker.{
  ProtocolError, WorkerSpec, WorkerOutcome, succeeded, failed, worker_spec, is_absolute,
}
use zk_ie.Queue.{
  Engine, JobBinding, PlannedJob, Published, QueueError, QueueOutcome, QueuePlan, Runtime,
  index_out_of_range, io_failed, key, missing_staged, proof, protocol, pure, reads, scheduler,
  stalled, transact, verification_rejected, ◌>>=◌, ◌>>◌,
}
use zk_ie.Queue.Plans.{Ids, ensure_planned, jobs_of, ready_candidates, summarize_rows}

unfoldable pub start_event : JobKind → JobEvent
start_event JobKind.witness = JobEvent.start_witnessing
start_event JobKind.prepare = JobEvent.start_preparing
start_event JobKind.leaf_proof = JobEvent.start_proving
start_event JobKind.leaf_verification = JobEvent.start_verification
start_event JobKind.native_aggregate = JobEvent.start_verification

unfoldable pub stage_for : JobKind → FailureStage
stage_for JobKind.witness = FailureStage.witness
stage_for JobKind.prepare = FailureStage.prepare
stage_for JobKind.leaf_proof = FailureStage.prove
stage_for JobKind.leaf_verification = FailureStage.verify
stage_for JobKind.native_aggregate = FailureStage.verify

-- `Path::join` with a relative path; an absolute one replaces the root.
abbrev ends_with_slash : Chars → Bool
ends_with_slash [] = false
ends_with_slash (c ∷ []) = c == 47
ends_with_slash (_ ∷ d ∷ cs) = ends_with_slash (d ∷ cs)

unfoldable pub join : Chars → Chars → Chars
join root path =
    if is_absolute path
    then path
    else if ends_with_slash root
    then root ++ path
    else root ++ 47 ∷ path

-- What the trusted identity of an object binds.
abbrev pub verified_of : RunDb → PlannedJob → String → String → Published → Verified
verified_of db planned job attempt p = record {
  run_id = db.run_id;
  job_id = job;
  attempt_id = attempt;
  job_kind = planned.kind;
  verifier = p.verifier;
  artifact_id = p.artifact_id;
  is_artifact = p.is_artifact;
  object_digest = p.object_digest;
  durable = p.durable;
  pinned = p.pinned;
}

-- The loop ends where nothing is selected.
unfoldable pub unless_idle : ℕ → List String → Engine ℕ → Engine ℕ
unless_idle rounds [] later = pure rounds
unless_idle rounds (_ ∷ _) later = later

module _ (rt : Runtime) where
  -- The transaction of `commit_proof` or of `commit_key`.
  unfoldable pub commit_of :
      PlannedJob
      → String
      → String
      → Published
      → JobBinding
      → RunDb
      → Result DbError (RunDb × JobState)
  commit_of planned job attempt p proof db =
      commit_verified_artifact db (verified_of db planned job attempt p) (rt.clock_ms db)
  commit_of planned job attempt p key db =
      commit_verified_key db (verified_of db planned job attempt p) p.identity_digest
        (rt.clock_ms db)

  -- `commit_proof` and `commit_key`.
  unfoldable pub commit : PlannedJob → String → String → Engine (Unit {0})
  commit planned job attempt = do
    published ← reads (λ db. rt.publish db planned attempt)
    _ ← transact (commit_of planned job attempt published planned.binding)
    pure tt

  unfoldable pub progress : String → String → JobEvent → Engine (Unit {0})
  progress job attempt event = do
    _ ← transact (λ db. apply_attempt_event db job attempt event (rt.clock_ms db))
    pure tt

  -- What is recorded of a job of this kind after its verification.
  unfoldable pub finish_of : PlannedJob → String → String → JobKind → Engine (Unit {0})
  finish_of planned job attempt JobKind.leaf_verification = do
    _ ←
        transact
          (λ db. complete_verification db job attempt "independent-verifier" (rt.clock_ms db))
    pure tt
  finish_of planned job attempt JobKind.witness = do
    progress job attempt JobEvent.witness_completed
    commit planned job attempt
  finish_of planned job attempt JobKind.prepare = do
    progress job attempt JobEvent.preparation_completed
    commit planned job attempt
  finish_of planned job attempt JobKind.leaf_proof = do
    progress job attempt JobEvent.proof_produced
    commit planned job attempt
  finish_of planned job attempt JobKind.native_aggregate = commit planned job attempt

  unfoldable pub finish_success : PlannedJob → String → String → WorkerSpec → Engine (Unit {0})
  finish_success planned job attempt spec = do
    reads (λ db. if rt.verifies db planned spec then ok tt else err (verification_rejected attempt))
    finish_of planned job attempt planned.kind

  -- The error of a fallible part that is no database operation.
  abbrev pub protocol_of : {A : Type 0} → Result ProtocolError A → Result QueueError A
  protocol_of (ok a) = ok a
  protocol_of (err e) = err (protocol e)

  abbrev pub staging_of : String → Chars
  staging_of attempt = join rt.staging_root (codes attempt)

  -- The `match` on the outcome of a worker.
  unfoldable pub settle :
      PlannedJob → String → String → WorkerSpec → WorkerOutcome → Engine (Unit {0})
  settle planned job attempt spec succeeded = finish_success planned job attempt spec
  settle planned job attempt spec (failed _) = do
    _ ← transact (λ db.
        handle_attempt_failure db job attempt
          (new_failure FailureKind.execution (stage_for planned.kind) FailureCode.worker_exit) none
          (rt.clock_ms db))
    pure tt

  unfoldable pub run_one : QueuePlan → PlannedJob → String → Engine (Unit {0})
  run_one plan planned job = do
    attempt ← transact (λ db. begin_attempt db job (start_event planned.kind) (rt.clock_ms db))
    reads (λ db. if rt.makes_dir db (staging_of attempt) then ok tt else err io_failed)
    spec ← reads (λ db. protocol_of (
        worker_spec plan.run_digest (codes job) (codes attempt) planned.job (staging_of attempt)
          planned.request))
    result ← reads (λ db. protocol_of (rt.launch db spec))
    settle planned job attempt spec result.outcome

  -- The index of the first row with the id.
  unfoldable pub position : String → Ids → Option ℕ
  position id [] = none
  position id (row ∷ rest) =
      let later = Option.map suc (position id rest) in if str_eq row.1 id then some 0 else later

  -- The loop over the jobs that are selected.
  unfoldable pub run_selected : QueuePlan → Ids → List String → Engine (Unit {0})
  run_selected plan ids [] = pure tt
  run_selected plan ids (id ∷ rest) = λ db. elim (position id ids) [
    | none ↦ (db, err (missing_staged "" id))
    | some index ↦ elim (get_elem? plan.jobs index) [
      | none ↦ (db, err index_out_of_range)
      | some planned ↦ (run_one plan planned id >>= λ _. run_selected plan ids rest) db
    ]
  ]

  unfoldable pub decide_step : List SchedulableJob → Engine SchedulerDecision
  decide_step candidates db =
      let out =
        decide_with_memory (new_config rt.capacity) db candidates rt.capacity (rt.action db)
          (rt.clock_ms db) (rt.clock_seconds db) in
      (out.0, elim out.1 [ ok d ↦ ok d | err e ↦ err (scheduler e) ])

  -- The jobs that a round runs: none where there is no candidate.
  unfoldable pub select : List SchedulableJob → Engine (List String)
  select [] = pure []
  select (c ∷ cs) = do decision ← decide_step (c ∷ cs); pure decision.selected

  -- The loop of `run_queue`, on the rounds that are left of `max_rounds`: the number of rounds before
  -- the one that found nothing to run.
  unfoldable pub drive : ℕ → ℕ → QueuePlan → Ids → Engine ℕ
  drive zero rounds plan ids = λ db. (db, err (stalled rt.max_rounds))
  drive (suc left) rounds plan ids = do
    _ ← transact (λ db. refresh_readiness db (rt.clock_ms db))
    candidates ← reads (λ db. ready_candidates db plan.jobs ids)
    selected ← select candidates
    unless_idle rounds selected
        (run_selected plan ids selected >>= λ _. drive left (rounds + 1) plan ids)

  unfoldable pub run_queue : QueuePlan → Engine QueueOutcome
  run_queue plan = do
    _ ← transact (λ db. recover_interrupted db (rt.clock_ms db))
    ids ← ensure_planned plan
    rounds ← drive rt.max_rounds 0 plan ids
    reads (λ db. ok (record (summarize_rows (jobs_of db)) { rounds = rounds }))
