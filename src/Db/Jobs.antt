-- ===== src/Db/Jobs.antt =====
-- db/core.rs: the jobs of a run and the dependencies between them, written when a run is planned.
use zk_ie.Common.{false, not, ◌||◌, ◌&&◌, none, [], ◌∷◌, ◌++◌, Result, ok, ◌>>◌, guard, String, any}
use zk_ie.Common.Text.{str_eq, ◌<>◌}
use zk_ie.State.{JobKind, JobState, is_identifier}
use zk_ie.Db.Tables.{JobRow, RunDb, DbError, sql, state, job_not_found, has_job}

-- A new handle on a new run.
abbrev pub empty_run : String → RunDb
empty_run run_id = record {
  run_id = run_id;
  jobs = [];
  dependencies = [];
  attempts = [];
  verification_records = [];
  state_events = [];
  resource_history = [];
  artifacts = [];
  key_artifacts = [];
}

abbrev pub new_job : String → String → JobKind → JobRow
new_job id logical kind = record {
  job_id = id;
  logical_job_id = logical;
  kind = kind;
  state = JobState.pending;
  failure_kind = none;
  failure_stage = none;
  failure_code = none;
  failure_summary = none;
  attempt_count = 0;
  execution_retries = 0;
  resource_requeues = 0;
  terminal_failure = false;
  blocking_predecessor_id = none;
}

-- The `INSERT INTO jobs`, with its keys.
unfoldable pub insert_job : RunDb → String → JobKind → Result DbError (RunDb × String)
insert_job db logical kind = do
  guard (is_identifier logical) state
  let id = db.run_id <> (":" <> logical)
  guard (is_identifier id) state
  guard (not (any (λ r. str_eq r.job_id id || str_eq r.logical_job_id logical) db.jobs)) sql
  ok (record db { jobs = db.jobs ++ new_job id logical kind ∷ [] }, id)

-- The `INSERT INTO dependencies`, with its primary key and the check that a job is not its own
-- predecessor.
unfoldable pub add_dependency : RunDb → String → String → Result DbError RunDb
add_dependency db predecessor successor = do
  guard (has_job predecessor db.jobs) (job_not_found predecessor)
  guard (has_job successor db.jobs) (job_not_found successor)
  guard
      (not (
        str_eq predecessor successor
        || any (λ d. str_eq d.predecessor predecessor && str_eq d.successor successor)
            db.dependencies))
      sql
  ok (record db {
    dependencies =
        db.dependencies ++ record { predecessor = predecessor; successor = successor } ∷ [];
  })
