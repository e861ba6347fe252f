-- ===== src/Witnesses/Runs.antt =====
-- A run of two verification jobs, the second of which depends on the first, and where it leads.
use zk_ie.Common.{◌≡◌, refl, none, Result, ok, err}
use zk_ie.State.{
  JobKind, JobState, JobEvent, FailureKind, FailureStage, FailureCode, FailureRecord, new_failure,
  is_identifier, next_state,
}
use zk_ie.Common.Sort.{sort_by}
use zk_ie.Db.Apply.{
  apply_event_tx, attempts_after, audited, current_state, job_after, next_of, references_ok,
}
use zk_ie.Common.Text.{decimal}
use zk_ie.Db.Tables.{RunDb, DbError, RetryDecision}
use zk_ie.Db.Jobs.{empty_run, insert_job, add_dependency}
use zk_ie.Db.Attempts.{
  begin_attempt, insert_attempt, require_unique_open_attempt, start_matches_kind,
}
use zk_ie.Db.Failures.{
  handle_attempt_failure, complete_verification, insert_verification, require_verification_source,
}
use zk_ie.Db.Readiness.{refresh_readiness, predecessor_states, refresh_one}
use zk_ie.Db.Steps.{
  Planned, Reached, empty, inserted, depending, began, failed, accepted, refreshed, planned, step,
}

-- The database that a result leaves; a failure leaves the one before.
abbrev pub after : {A : Type 0} → RunDb → Result DbError (RunDb × A) → RunDb
after db (ok (db', _)) = db'
after db (err _) = db

abbrev one_job : RunDb
one_job = after (empty_run "r") (insert_job (empty_run "r") "v" JobKind.leaf_verification)

abbrev two_jobs : RunDb
two_jobs = after one_job (insert_job one_job "w" JobKind.leaf_verification)

abbrev pub plan : RunDb
plan = elim (add_dependency two_jobs "r:v" "r:w") [ ok db ↦ db | err _ ↦ two_jobs ]

abbrev pub ready_run : RunDb
ready_run = after plan (refresh_readiness plan 1)

abbrev pub begun_run : RunDb
begun_run = after ready_run (begin_attempt ready_run "r:v" JobEvent.start_verification 2)

abbrev pub crash : FailureRecord
crash = new_failure FailureKind.execution FailureStage.verify FailureCode.worker_exit

abbrev pub failed_run : RunDb
failed_run = after begun_run (handle_attempt_failure begun_run "r:v" "r:v:attempt:1" crash none 3)

abbrev pub verified_run : RunDb
verified_run = after begun_run (complete_verification begun_run "r:v" "r:v:attempt:1" "native" 4)

abbrev pub unlocked_run : RunDb
unlocked_run = after verified_run (refresh_readiness verified_run 5)

pub plan-Planned : Planned plan
unfolding insert_job add_dependency is_identifier
plan-Planned =
    depending two_jobs plan "r:v" "r:w"
      (inserted one_job two_jobs "w" "r:w" JobKind.leaf_verification
        (inserted (empty_run "r") one_job "v" "r:v" JobKind.leaf_verification (empty "r") refl)
        refl)
      refl

pub is_ready_run : refresh_readiness plan 1 ≡ ok (ready_run, 1)
unfolding insert_job add_dependency is_identifier refresh_readiness sort_by refresh_one
    predecessor_states apply_event_tx current_state next_of next_state references_ok attempts_after
    audited job_after
is_ready_run = refl

pub is_begun :
    begin_attempt ready_run "r:v" JobEvent.start_verification 2 ≡ ok (begun_run, "r:v:attempt:1")
unfolding insert_job add_dependency is_identifier refresh_readiness sort_by refresh_one
    predecessor_states apply_event_tx current_state next_of next_state references_ok attempts_after
    audited job_after begin_attempt start_matches_kind decimal insert_attempt
is_begun = refl

pub is_failed :
    handle_attempt_failure begun_run "r:v" "r:v:attempt:1" crash none 3
    ≡ ok (failed_run, RetryDecision.requeued)
unfolding insert_job add_dependency is_identifier refresh_readiness sort_by refresh_one
    predecessor_states apply_event_tx current_state next_of next_state references_ok attempts_after
    audited job_after begin_attempt start_matches_kind decimal insert_attempt handle_attempt_failure
    require_unique_open_attempt
is_failed = refl

pub is_verified_run :
    complete_verification begun_run "r:v" "r:v:attempt:1" "native" 4
    ≡ ok (verified_run, JobState.verified)
unfolding insert_job add_dependency is_identifier refresh_readiness sort_by refresh_one
    predecessor_states apply_event_tx current_state next_of next_state references_ok attempts_after
    audited job_after begin_attempt start_matches_kind decimal insert_attempt complete_verification
    require_unique_open_attempt require_verification_source insert_verification
is_verified_run = refl

pub is_unlocked : refresh_readiness verified_run 5 ≡ ok (unlocked_run, 1)
unfolding insert_job add_dependency is_identifier refresh_readiness sort_by refresh_one
    predecessor_states apply_event_tx current_state next_of next_state references_ok attempts_after
    audited job_after begin_attempt start_matches_kind decimal insert_attempt complete_verification
    require_unique_open_attempt require_verification_source insert_verification
is_unlocked = refl

pub begun_run-Reached : Reached begun_run
begun_run-Reached =
    step ready_run begun_run
      (step plan ready_run (planned plan plan-Planned) (refreshed 1 1 ready_run is_ready_run))
      (began "r:v" "r:v:attempt:1" JobEvent.start_verification 2 begun_run is_begun)

pub failed_run-Reached : Reached failed_run
failed_run-Reached =
    step begun_run failed_run begun_run-Reached
      (failed "r:v" "r:v:attempt:1" crash none 3 RetryDecision.requeued failed_run is_failed)

pub unlocked_run-Reached : Reached unlocked_run
unlocked_run-Reached =
    step verified_run unlocked_run
      (step begun_run verified_run begun_run-Reached
        (accepted "r:v" "r:v:attempt:1" "native" 4 JobState.verified verified_run is_verified_run))
      (refreshed 5 1 unlocked_run is_unlocked)
