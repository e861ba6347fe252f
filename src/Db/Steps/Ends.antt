-- ===== src/Db/Steps/Ends.antt =====
-- The operations that end an attempt keep jobs behind their dependencies.
use zk_ie.Common.{
  ℕ, suc, ◌≡◌, refl, ◌≢◌, Bool, true, false, Option, none, some, List, [], ◌∷◌, ok, Ensures-bind,
  Ensures-pure, Ensures-if, String, arith, ok_or, guard, ltb,
}
use zk_ie.Common.Text.{cmp_str}
use zk_ie.Common.Sort.{sort_by}
use zk_ie.State.{JobEvent, FailureRecord, is_active, is_identifier}
use zk_ie.Db.Tables.{
  RunDb, ReservationKey, sql, state, job_not_found, controlled_event_required,
  invalid_failure_observation, find_job, update_job,
}
use zk_ie.Db.Apply.{apply_event_tx}
use zk_ie.Db.Attempts.{require_unique_open_attempt}
use zk_ie.Db.Blocking.{set_terminal, block_descendants_tx}
use zk_ie.Db.Failures.{
  is_resource, failure_event, retries_of, retry_limit, count_retry, retry_event, retry_or_end,
  record_observation, handle_attempt_failure, require_verification_source, fail_verification,
  verification_row, record_name, is_leaf_verification, insert_verification, record_verification,
  complete_verification,
}
use zk_ie.Db.Failures.Laws.{count_retry-KeepsState}
use zk_ie.Db.Peaks.{record_resource_peak_tx}
use zk_ie.Db.Readiness.{
  ActiveRow, close_attempt, interruption, recover_from, recover_interrupted, open_rows,
}
use zk_ie.Db.Readiness.Unlocked.{IsUnlocked}
use zk_ie.Db.Steps.Unlocked.{
  SameRows, IsUnlocked-SameRows, event-IsUnlocked, update_job-IsUnlocked, Keeps,
  set_terminal-IsUnlocked, block_descendants-IsUnlocked,
}

retry_or_end-IsUnlocked :
    (db : RunDb) (job attempt : String) (resource : Bool) (now : ℕ)
    → IsUnlocked db
    → Keeps (retry_or_end db job attempt resource now)
unfolding retry_or_end
retry_or_end-IsUnlocked db job attempt resource now u =
    Ensures-bind {m = ok_or (find_job job db.jobs) sql} λ row _.
      Ensures-if (ltb (retries_of resource row) (retry_limit resource))
        (λ _.
          Ensures-bind
            {m = apply_event_tx counted_db job (some attempt) (retry_event resource) none now}
            λ applied is. Ensures-pure (
              event-IsUnlocked counted_db job (some attempt) (retry_event resource) none now is
                (retry_event_other resource)
                (update_job-IsUnlocked db job (count_retry resource)
                  (count_retry-KeepsState resource) u)))
        (λ _. Ensures-bind {m = block_descendants_tx (set_terminal db job) job now} λ db' is.
          Ensures-pure (
            block_descendants-IsUnlocked (set_terminal db job) job now is
              (set_terminal-IsUnlocked db job u)))
  where
    counted_db : RunDb
    counted_db = record db { jobs = update_job job (count_retry resource) db.jobs }

    retry_event_other : (b : Bool) → retry_event b ≢ JobEvent.dependencies_satisfied
    retry_event_other true = λ e. cc
    retry_event_other false = λ e. cc

observation_rows :
    (db : RunDb) (o : Option (ReservationKey × ℕ)) {db' : RunDb}
    → record_observation db o ≡ ok db'
    → SameRows db db'
unfolding record_resource_peak_tx
observation_rows db none h = record { jobs = ground arith; dependencies = ground arith }
observation_rows db (some (key, peak)) h = record {
  jobs = ground arith;
  dependencies = ground arith;
}

pub handle_attempt_failure-IsUnlocked :
    (db : RunDb) (job attempt : String) (f : FailureRecord) (o : Option (ReservationKey × ℕ))
    (now : ℕ)
    → IsUnlocked db
    → Keeps (handle_attempt_failure db job attempt f o now)
unfolding handle_attempt_failure
handle_attempt_failure-IsUnlocked db job attempt f o now u =
    Ensures-bind {m = guard _ invalid_failure_observation} λ _ _.
      Ensures-bind {m = require_unique_open_attempt db job attempt} λ _ _.
        Ensures-bind {m = record_observation db o} λ observed is.
          Ensures-bind {m = apply_event_tx observed job (some attempt) (failure_event f) none now}
            λ out applies. retry_or_end-IsUnlocked out.0 job attempt (is_resource f) now (
              event-IsUnlocked observed job (some attempt) (failure_event f) none now applies
                (λ e. ground (arith, e))
                (IsUnlocked-SameRows db observed (observation_rows db o is) u))

pub fail_verification-IsUnlocked :
    (db : RunDb) (job source : String) (f : FailureRecord) (now : ℕ)
    → IsUnlocked db
    → Keeps (fail_verification db job source f now)
unfolding fail_verification
fail_verification-IsUnlocked db job source f now u =
    Ensures-bind {m = require_verification_source db job source} λ _ _.
      Ensures-bind
        {m = apply_event_tx db job (some source) (JobEvent.verification_failed f) none now}
        λ out applies.
          Ensures-bind {m = block_descendants_tx (set_terminal out.0 job) job now} λ db' blocks.
            Ensures-pure (
              block_descendants-IsUnlocked (set_terminal out.0 job) job now blocks (
                set_terminal-IsUnlocked out.0 job (
                  event-IsUnlocked db job (some source) (JobEvent.verification_failed f) none now
                    applies (λ e. cc) u)))

insertion_rows :
    (db : RunDb) (job attempt verifier id : String) {db' : RunDb}
    → insert_verification db (verification_row job attempt verifier id) ≡ ok db'
    → SameRows db db'
unfolding insert_verification
insertion_rows db job attempt verifier id h = record {
  jobs = ground arith;
  dependencies = ground arith;
}

pub complete_verification-IsUnlocked :
    (db : RunDb) (job attempt verifier : String) (now : ℕ)
    → IsUnlocked db
    → Keeps (complete_verification db job attempt verifier now)
unfolding complete_verification record_verification
complete_verification-IsUnlocked db job attempt verifier now u =
    let id = record_name job db.verification_records in
    Ensures-bind {m = guard (is_identifier verifier) state} λ _ _.
      Ensures-bind {m = ok_or (find_job job db.jobs) (job_not_found job)} λ row _.
        Ensures-bind {m = guard (is_leaf_verification row.kind) controlled_event_required} λ _ _.
          Ensures-bind {m = require_verification_source db job attempt} λ _ _.
            Ensures-bind {m = guard (is_identifier id) state} λ _ _.
              Ensures-bind {m = insert_verification db (verification_row job attempt verifier id)}
                λ recorded is. record {
                  at = λ out e.
                      event-IsUnlocked recorded job (some attempt)
                        (JobEvent.verification_succeeded (some id)) none now e (λ e. cc)
                        (IsUnlocked-SameRows db recorded
                          (insertion_rows db job attempt verifier id is) u);
                }

recover_from-IsUnlocked :
    (rows : List ActiveRow) (now : ℕ) (db : RunDb) (count : ℕ)
    → IsUnlocked db
    → Keeps (recover_from rows now db count)
unfolding recover_from
recover_from-IsUnlocked [] now db count u = Ensures-pure u
recover_from-IsUnlocked (a ∷ rows) now db count u =
    Ensures-if (is_active a.state)
      (λ _.
        Ensures-bind {m = apply_event_tx db a.job_id (some a.attempt_id) interruption none now}
          λ stopped stops.
            Ensures-bind
              {m = apply_event_tx stopped.0 a.job_id (some a.attempt_id) JobEvent.recovery_requeue
                none now}
              λ queued queues.
                recover_from-IsUnlocked rows now (closed_after queued.0) (suc count) (
                  IsUnlocked-SameRows queued.0 (closed_after queued.0)
                    (record { jobs = refl; dependencies = refl })
                    (event-IsUnlocked stopped.0 a.job_id (some a.attempt_id)
                      JobEvent.recovery_requeue none now queues (λ e. cc)
                      (event-IsUnlocked db a.job_id (some a.attempt_id) interruption none now stops
                        (λ e. cc) u))))
      (λ _. recover_from-IsUnlocked rows now db count u)
  where
    closed_after : RunDb → RunDb
    closed_after db' = record db' { attempts = close_attempt a.attempt_id now db'.attempts }

pub recover_interrupted-IsUnlocked :
    (db : RunDb) (now : ℕ) → IsUnlocked db → Keeps (recover_interrupted db now)
unfolding recover_interrupted
recover_interrupted-IsUnlocked db now u =
    let rows =
      sort_by (λ (a b : ActiveRow). cmp_str a.attempt_id b.attempt_id)
        (open_rows db.jobs db.attempts) in
    recover_from-IsUnlocked rows now db 0 u

pub record_resource_peak-IsUnlocked :
    (db : RunDb) (key : ReservationKey) (peak : ℕ) {db' : RunDb}
    → record_resource_peak_tx db key peak ≡ ok db'
    → IsUnlocked db
    → IsUnlocked db'
record_resource_peak-IsUnlocked db key peak {db'} h =
    IsUnlocked-SameRows db db' (observation_rows db (some (key, peak)) h)
