-- ===== src/Db/Apply.antt =====
-- `apply_event_tx` of db.rs: one event moves one job, in one transaction with its audit row.
-- `now` is the reading of the clock.
pub mod Laws
use zk_ie.Common.{
  ℕ, Bool, true, false, not, ◌&&◌, ◌||◌, Option, none, some, List, [], ◌∷◌, ◌++◌, Result, ok, err,
  ◌>>=◌, ◌>>◌, guard, String, if◌then◌else◌,
}
use zk_ie.State.{
  JobState, JobEvent, FailureKind, FailureStage, FailureCode, FailureRecord, summary, failure_of,
  blocking_predecessor, verification_record, is_active, next_state,
}
use zk_ie.Db.Tables.{
  JobRow, RunDb, EventRow, DbError, transition, job_not_found, sql, find_job, update_job,
  finish_attempts, set_attempt_state, has_job, has_attempt, has_verification,
}

unfoldable pub current_state : RunDb → String → Result DbError JobState
current_state db job = elim (find_job job db.jobs) [
  | some r ↦ ok r.state
  | none ↦ err (job_not_found job)
]

-- `current.transition(event)?`.
unfoldable pub next_of : JobState → JobEvent → Result DbError JobState
next_of current event = elim (next_state current event) [
  | some next ↦ ok next
  | none ↦ err (transition current event)
]

abbrev pub or_else {ℓ} : {A : Type ℓ} → Option A → A → A
or_else none d = d
or_else (some a) d = a

-- The `UPDATE jobs` of an event that carries a failure.
abbrev with_failure : FailureRecord → JobRow → JobRow
with_failure f r = record r {
  failure_kind = some f.kind;
  failure_stage = some f.stage;
  failure_code = some f.code;
  failure_summary = some f.summary;
  blocking_predecessor_id = none;
}

-- The one of a blocked dependency.
abbrev with_blocker : String → JobRow → JobRow
with_blocker predecessor r = record r {
  failure_kind = some FailureKind.dependency;
  failure_stage = some FailureStage.scheduler;
  failure_code = some FailureCode.predecessor_failed;
  failure_summary = some (summary FailureKind.dependency);
  blocking_predecessor_id = some predecessor;
}

-- The one of `DependenciesSatisfied`, which clears them.
abbrev without_failure : JobRow → JobRow
without_failure r = record r {
  failure_kind = none;
  failure_stage = none;
  failure_code = none;
  failure_summary = none;
  blocking_predecessor_id = none;
}

abbrev with_event : JobEvent → JobRow → JobRow
with_event (JobEvent.execution_failed f) r = with_failure f r
with_event (JobEvent.verification_failed f) r = with_failure f r
with_event (JobEvent.resource_exceeded f) r = with_failure f r
with_event (JobEvent.interrupted f) r = with_failure f r
with_event (JobEvent.dependency_blocked p) r = with_blocker p r
with_event JobEvent.dependencies_satisfied r = without_failure r
with_event _ r = r

-- What the event writes to its job.
unfoldable pub job_after : JobEvent → JobState → Option ℕ → JobRow → JobRow
job_after event next attempt_count r =
    let w = with_event event r in
    record w { state = next; attempt_count = or_else attempt_count r.attempt_count }

-- The foreign keys of the audit row.
unfoldable pub references_ok : RunDb → String → Option String → JobEvent → Bool
references_ok db job attempt event =
    elim attempt [ none ↦ true | some a ↦ has_attempt job a db.attempts ]
    && elim (blocking_predecessor event) [ none ↦ true | some p ↦ has_job p db.jobs ]
    && elim (verification_record event) [
      | none ↦ true
      | some r ↦ has_verification job r db.verification_records
    ]

-- The `UPDATE attempts` at the end.
unfoldable pub attempts_after : RunDb → String → Option String → JobState → ℕ → RunDb
attempts_after db job attempt next now =
    if not (is_active next)
    then record db { attempts = finish_attempts job next now db.attempts }
    else elim attempt [
      | some a ↦ record db { attempts = set_attempt_state a next db.attempts }
      | none ↦ db
    ]

-- The audit row and the `UPDATE jobs`.
unfoldable pub audited :
    RunDb → String → Option String → JobEvent → Option ℕ → ℕ → JobState → JobState → RunDb
audited db job attempt event attempt_count now current next = record db {
  state_events =
      db.state_events
      ++ record {
        job_id = job;
        attempt_id = attempt;
        from_state = current;
        to_state = next;
        event = event;
        created_at = now;
      }
        ∷ [];
  jobs = update_job job (job_after event next attempt_count) db.jobs;
}

unfoldable pub apply_event_tx :
    RunDb → String → Option String → JobEvent → Option ℕ → ℕ → Result DbError (RunDb × JobState)
apply_event_tx db job attempt event attempt_count now = do
  current ← current_state db job
  next ← next_of current event
  guard (references_ok db job attempt event) sql
  ok (
    attempts_after (audited db job attempt event attempt_count now current next) job attempt next
        now,
    next,
  )
