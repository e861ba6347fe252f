-- ===== src/Db/Readiness.antt =====
-- db/engine.rs: which waiting jobs become ready, and which are blocked; and the recovery of the
-- attempts that a restart interrupted.
pub mod Laws
pub mod Unlocked
use zk_ie.Common.{
  ℕ, suc, ◌+◌, Bool, true, false, ◌||◌, Option, none, some, List, [], ◌∷◌, Result, ok, err, ◌>>=◌,
  ok_or, String, if◌then◌else◌, all, find,
}
use zk_ie.Common.Sort.{sort_by}
use zk_ie.Common.Text.{str_eq, cmp_str}
use zk_ie.State.{JobState, JobEvent, FailureKind, FailureStage, FailureCode, new_failure, is_active}
use zk_ie.Db.Tables.{
  JobRow, AttemptRow, RunDb, DependencyRow, DbError, job_not_found, find_job, is_none,
}
use zk_ie.Db.Apply.{apply_event_tx}
use zk_ie.Db.Blocking.{awaits}

-- `FROM dependencies d JOIN jobs j ON j.job_id=d.predecessor_job_id WHERE d.successor_job_id=?`.
abbrev pub predecessor_rows : String → List JobRow → List DependencyRow → List JobRow
predecessor_rows job jobs [] = []
predecessor_rows job jobs (d ∷ ds) =
    let rest = predecessor_rows job jobs ds in
    if str_eq d.successor job
    then (elim (find_job d.predecessor jobs) [ none ↦ rest | some r ↦ r ∷ rest ])
    else rest

-- `ORDER BY j.job_id`.
unfoldable pub predecessor_states : RunDb → String → List JobRow
predecessor_states db job =
    sort_by (λ a b. cmp_str a.job_id b.job_id) (predecessor_rows job db.jobs db.dependencies)

abbrev pub is_verified : JobState → Bool
is_verified JobState.verified = true
is_verified _ = false

abbrev pub is_verified_row : JobRow → Bool
is_verified_row r = is_verified r.state

-- `*terminal || matches!(state, VerificationFailed | Blocked)`.
abbrev pub has_failed : JobRow → Bool
has_failed r =
    r.terminal_failure
    || elim r.state [ JobState.verification_failed ↦ true | JobState.blocked ↦ true | _ ↦ false ]

unfoldable pub required_predecessors_verified : RunDb → String → Result DbError Bool
required_predecessors_verified db job = do
  row ← ok_or (find_job job db.jobs) (job_not_found job)
  ok (all is_verified_row (predecessor_rows job db.jobs db.dependencies))

-- The body of the loop of `refresh_readiness`: the database and how many jobs it made ready.
unfoldable pub refresh_one : RunDb → String → ℕ → Result DbError (RunDb × ℕ)
refresh_one db job now =
    if all is_verified_row (predecessor_states db job)
    then (apply_event_tx db job none JobEvent.dependencies_satisfied none now >>= λ applied.
        ok (applied.0, 1))
    else (elim (find has_failed (predecessor_states db job)) [
      | none ↦ ok (db, 0)
      | some p ↦
          apply_event_tx db job none (JobEvent.dependency_blocked p.job_id) none now >>= λ applied.
          ok (applied.0, 0)
    ])

unfoldable pub refresh_from : List String → ℕ → RunDb → ℕ → Result DbError (RunDb × ℕ)
refresh_from [] now db ready = ok (db, ready)
refresh_from (job ∷ jobs) now db ready =
    refresh_one db job now >>= λ out. refresh_from jobs now out.0 (ready + out.1)

abbrev pub awaiting_ids : List JobRow → List String
awaiting_ids [] = []
awaiting_ids (r ∷ rows) = if awaits r.state then r.job_id ∷ awaiting_ids rows else awaiting_ids rows

-- The candidates are listed once, in the order of their ids.
unfoldable pub refresh_readiness : RunDb → ℕ → Result DbError (RunDb × ℕ)
unfolding refresh_from
refresh_readiness db now = refresh_from (sort_by cmp_str (awaiting_ids db.jobs)) now db 0

-- `SELECT a.attempt_id,a.job_id,j.state … WHERE a.finished_at_unix_ms IS NULL ORDER BY a.attempt_id`.
pub record ActiveRow : Type 0 where
  pub attempt_id : String
  pub job_id : String
  pub state : JobState

abbrev pub open_rows : List JobRow → List AttemptRow → List ActiveRow
open_rows jobs [] = []
open_rows jobs (a ∷ as') =
    let rest = open_rows jobs as' in
    if is_none a.finished_at
    then (elim (find_job a.job_id jobs) [
      | none ↦ rest
      | some r ↦ record { attempt_id = a.attempt_id; job_id = a.job_id; state = r.state } ∷ rest
    ])
    else rest

abbrev pub interruption : JobEvent
interruption =
    JobEvent.interrupted
      (new_failure FailureKind.interrupted FailureStage.scheduler FailureCode.scheduler_restart)

-- `UPDATE attempts SET state='interrupted' … WHERE attempt_id=? AND finished_at_unix_ms IS NULL`.
abbrev pub close_attempt : String → ℕ → List AttemptRow → List AttemptRow
close_attempt attempt now [] = []
close_attempt attempt now (a ∷ as') =
    elim a.finished_at [
      | none ↦
          if str_eq a.attempt_id attempt
          then record a { state = JobState.interrupted; finished_at = some now }
          else a
      | some _ ↦ a
    ]
    ∷ close_attempt attempt now as'

unfoldable pub recover_from : List ActiveRow → ℕ → RunDb → ℕ → Result DbError (RunDb × ℕ)
recover_from [] now db recovered = ok (db, recovered)
recover_from (a ∷ rows) now db recovered =
    let skip = recover_from rows now db recovered in
    let recover =
      apply_event_tx db a.job_id (some a.attempt_id) interruption none now >>= λ stopped.
      apply_event_tx stopped.0 a.job_id (some a.attempt_id) JobEvent.recovery_requeue none now
      >>= λ queued.
          recover_from rows now
            (record queued.0 { attempts = close_attempt a.attempt_id now queued.0.attempts })
            (suc recovered) in
    if is_active a.state then recover else skip

unfoldable pub recover_interrupted : RunDb → ℕ → Result DbError (RunDb × ℕ)
unfolding recover_from
recover_interrupted db now =
    recover_from
      (sort_by (λ a b. cmp_str a.attempt_id b.attempt_id) (open_rows db.jobs db.attempts)) now db 0
