-- ===== src/Db/Attempts.antt =====
-- db/engine.rs: an attempt is begun by a start event of the job's kind and moved by its own events.
pub mod Begun
pub mod Laws
use zk_ie.Common.{
  ℕ, suc, ◌+◌, Bool, true, false, not, ◌&&◌, ◌||◌, Option, none, some, List, [], ◌∷◌, ◌++◌, Result,
  ok, err, ◌>>=◌, ◌>>◌, guard, ok_or, String, if◌then◌else◌, ltb, ◌==◌, u32_size, any, length,
}
use zk_ie.Common.Text.{str_eq, ◌<>◌, decimal}
use zk_ie.State.{JobKind, JobState, JobEvent, is_active, starts_attempt, is_identifier}
use zk_ie.Db.Tables.{
  JobRow, AttemptRow, RunDb, DbError, sql, state, job_not_found, attempt_not_open_for_job,
  not_attempt_start, attempt_start_requires_begin, attempt_event_requires_attempt,
  controlled_event_required, open_attempt_conflict, attempt_count_exhausted,
  wrong_start_for_job_kind, find_job, count_open, open_attempts,
}
use zk_ie.Db.Apply.{current_state, next_of, apply_event_tx}

unfoldable pub start_matches_kind : JobKind → JobEvent → Bool
start_matches_kind JobKind.witness JobEvent.start_witnessing = true
start_matches_kind JobKind.prepare JobEvent.start_preparing = true
start_matches_kind JobKind.leaf_proof JobEvent.start_proving = true
start_matches_kind JobKind.leaf_verification JobEvent.start_verification = true
start_matches_kind JobKind.native_aggregate JobEvent.start_verification = true
start_matches_kind _ _ = false

-- `open.len() == 1 && open[0] == attempt`.
abbrev is_only : List String → String → Bool
is_only (a ∷ []) attempt = str_eq a attempt
is_only _ attempt = false

unfoldable pub require_unique_open_attempt : RunDb → String → String → Result DbError (Unit {0})
require_unique_open_attempt db job attempt =
    guard (is_only (open_attempts job db.attempts) attempt) (attempt_not_open_for_job attempt job)

-- The `INSERT INTO attempts`, with its primary key and the index of one open attempt for a job.
unfoldable pub insert_attempt : RunDb → AttemptRow → Result DbError RunDb
insert_attempt db a =
    if any (λ b. str_eq b.attempt_id a.attempt_id) db.attempts
      || not (count_open a.job_id db.attempts == 0)
    then err sql
    else ok (record db { attempts = db.attempts ++ a ∷ [] })

abbrev pub attempt_name : String → ℕ → String
attempt_name job n = job <> (":attempt:" <> decimal n)

-- The row that a begun attempt inserts.
abbrev pub attempt_row : String → String → JobState → ℕ → AttemptRow
attempt_row job attempt next now = record {
  attempt_id = attempt;
  job_id = job;
  state = next;
  started_at = now;
  finished_at = none;
}

-- `begin_attempt`: the database after it and the id of the new attempt.
unfoldable pub begin_attempt : RunDb → String → JobEvent → ℕ → Result DbError (RunDb × String)
begin_attempt db job event now = do
  guard (starts_attempt event) not_attempt_start
  row ← ok_or (find_job job db.jobs) (job_not_found job)
  guard (start_matches_kind row.kind event) (wrong_start_for_job_kind row.kind event)
  guard (count_open job db.attempts == 0) (open_attempt_conflict job)
  guard (ltb (row.attempt_count + 1) u32_size) (attempt_count_exhausted job)
  let attempt = attempt_name job (row.attempt_count + 1)
  guard (is_identifier attempt) state
  current ← current_state db job
  next ← next_of current event
  db₁ ← insert_attempt db (attempt_row job attempt next now)
  applied ← apply_event_tx db₁ job (some attempt) event (some (row.attempt_count + 1)) now
  ok (applied.0, attempt)

-- The events that a worker reports for its own attempt.
abbrev pub is_attempt_event : JobEvent → Bool
is_attempt_event JobEvent.witness_completed = true
is_attempt_event JobEvent.preparation_completed = true
is_attempt_event JobEvent.proof_produced = true
is_attempt_event (JobEvent.interrupted _) = true
is_attempt_event _ = false

unfoldable pub apply_attempt_event :
    RunDb → String → String → JobEvent → ℕ → Result DbError (RunDb × JobState)
apply_attempt_event db job attempt event now = do
  guard (is_attempt_event event) controlled_event_required
  require_unique_open_attempt db job attempt
  apply_event_tx db job (some attempt) event none now

-- The public `apply_event` refuses every event, and says which operation takes it.
unfoldable pub apply_event : RunDb → String → JobEvent → Result DbError JobState
apply_event db job JobEvent.start_witnessing = err attempt_start_requires_begin
apply_event db job JobEvent.start_preparing = err attempt_start_requires_begin
apply_event db job JobEvent.start_proving = err attempt_start_requires_begin
apply_event db job JobEvent.start_verification = err attempt_start_requires_begin
apply_event db job JobEvent.witness_completed = err attempt_event_requires_attempt
apply_event db job JobEvent.preparation_completed = err attempt_event_requires_attempt
apply_event db job JobEvent.proof_produced = err attempt_event_requires_attempt
apply_event db job (JobEvent.execution_failed _) = err attempt_event_requires_attempt
apply_event db job (JobEvent.resource_exceeded _) = err attempt_event_requires_attempt
apply_event db job (JobEvent.interrupted _) = err attempt_event_requires_attempt
apply_event db job _ = err controlled_event_required
