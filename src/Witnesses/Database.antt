-- ===== src/Witnesses/Database.antt =====
-- The theorems on the database of a run, at the run of two jobs.
use zk_ie.Common.{
  ◌<◌, ◌≡◌, ◌>>=◌, List, map, refl, none, some, ok, if◌then◌else◌, i64_size, [], ◌∷◌, err, Ensures,
}
use zk_ie.State.{JobState, JobEvent, is_identifier, next_state}
use zk_ie.Db.Jobs.{insert_job, add_dependency}
use zk_ie.Db.Tables.{JobRow, RunDb, ReservationKey, find_job, update_job}
use zk_ie.Db.Apply.{
  apply_event_tx, current_state, next_of, references_ok, attempts_after, audited, job_after,
}
use zk_ie.Db.Apply.Laws.{IsConsistent, Applied, apply_event_tx-Applied}
use zk_ie.Common.Sort.{sort_by}
use zk_ie.Common.Text.{decimal}
use zk_ie.Db.Readiness.{refresh_readiness, refresh_one, predecessor_states}
use zk_ie.Db.Attempts.{
  begin_attempt, start_matches_kind, insert_attempt, require_unique_open_attempt,
}
use zk_ie.Db.Attempts.Begun.{Began, begin_attempt-Began}
use zk_ie.Db.Blocking.{
  block_descendants_fueled, done, block_descendants_tx, drain, block_successors, successors,
}
use zk_ie.Db.Blocking.Laws.{block_descendants_done}
use zk_ie.Db.Failures.{is_resource, handle_attempt_failure}
use zk_ie.Db.Failures.Retries.{IsDecision, handle_attempt_failure-IsDecision}
use zk_ie.Db.Peaks.{
  key_eq, exact_peak_to_sql, upsert_peak, record_resource_peak_tx, max_observed_peak_bytes, raised,
  record_resource_peak_lem,
}
use zk_ie.Db.Readiness.Unlocked.{IsUnlocked}
use zk_ie.Db.Steps.Reachable.{Reached-IsConsistent, Reached-IsUnlocked}
use zk_ie.Witnesses.Runs.{
  plan, ready_run, begun_run, crash, failed_run, unlocked_run, failed_run-Reached,
  unlocked_run-Reached, is_begun,
}

Reached-IsConsistent_example : IsConsistent failed_run
Reached-IsConsistent_example = Reached-IsConsistent failed_run-Reached

Reached-IsUnlocked_example : IsUnlocked unlocked_run
Reached-IsUnlocked_example = Reached-IsUnlocked unlocked_run-Reached

-- The begun job has used both retries, so its next failure ends it and blocks the job that waits.
abbrev spend : JobRow → JobRow
spend r = record r { execution_retries = 2 }

abbrev spent_run : RunDb
spent_run = record begun_run { jobs = update_job "r:v" spend begun_run.jobs }

abbrev states : RunDb → List JobState
states db = map (λ (r : JobRow). r.state) db.jobs

ended :
    (handle_attempt_failure spent_run "r:v" "r:v:attempt:1" crash none 3 >>= λ out.
    ok (states out.0))
    ≡ ok (JobState.execution_failed ∷ JobState.blocked ∷ [])
unfolding insert_job add_dependency is_identifier refresh_readiness sort_by refresh_one
    predecessor_states apply_event_tx current_state next_of next_state references_ok attempts_after
    audited job_after begin_attempt start_matches_kind decimal insert_attempt handle_attempt_failure
    require_unique_open_attempt block_descendants_tx block_descendants_fueled drain block_successors
    successors
ended = refl

handle_attempt_failure-IsDecision_example :
    Ensures
      (λ out.
        (row : JobRow) × (find_job "r:v" spent_run.jobs ≡ some row)
        × IsDecision "r:v" (is_resource crash) spent_run row out.0 out.1)
      (handle_attempt_failure spent_run "r:v" "r:v:attempt:1" crash none 3)
handle_attempt_failure-IsDecision_example =
    handle_attempt_failure-IsDecision spent_run "r:v" "r:v:attempt:1" crash none 3

begin_attempt-Began_example :
    Began ready_run "r:v" JobEvent.start_verification begun_run "r:v:attempt:1"
begin_attempt-Began_example =
    begin_attempt-Began ready_run "r:v" JobEvent.start_verification 2 is_begun

block_descendants_done_example :
    block_descendants_fueled plan "r:v" 3 ≡ done (block_descendants_tx plan "r:v" 3)
block_descendants_done_example = block_descendants_done plan "r:v" 3

abbrev key : ReservationKey
key = record {
  circuit_digest = "c0";
  k = 17;
  proof_flavor = "kzg";
  execution_backend = "cpu";
  hardware_profile = "h0";
}

abbrev measured_run : RunDb
measured_run = record plan {
  resource_history = record { key = key; max_observed_peak_bytes = 4096 } ∷ [];
}

record_resource_peak_lem_example :
    (4096 < i64_size)
    × (max_observed_peak_bytes measured_run key ≡ (
        if key_eq key key
        then some (raised (max_observed_peak_bytes plan key) 4096)
        else max_observed_peak_bytes plan key))
unfolding record_resource_peak_tx exact_peak_to_sql upsert_peak key_eq insert_job add_dependency
    is_identifier
record_resource_peak_lem_example =
    record_resource_peak_lem plan key key 4096 {db' = measured_run} refl

-- The event that makes the first job ready.
abbrev made_ready : RunDb
made_ready = elim (apply_event_tx plan "r:v" none JobEvent.dependencies_satisfied none 1) [
  | ok out ↦ out.0
  | err _ ↦ plan
]

apply_event_tx-Applied_example :
    Applied plan "r:v" none JobEvent.dependencies_satisfied none made_ready JobState.ready
unfolding insert_job add_dependency is_identifier apply_event_tx current_state next_of next_state
    references_ok attempts_after audited job_after
apply_event_tx-Applied_example =
    apply_event_tx-Applied plan "r:v" none JobEvent.dependencies_satisfied none 1 {db' = made_ready}
      {next = JobState.ready} refl
