-- ===== src/Db/Failures/Laws.antt =====
-- However an attempt ends, the invariant of open attempts is kept.
use zk_ie.Common.{
  ℕ, ◌≡◌, refl, Bool, true, false, Option, none, some, Result, ok, ok_or, guard, Ensures,
  Ensures-bind, Ensures-pure, Ensures-if, String, arith, ltb,
}
use zk_ie.State.{JobState, JobEvent, FailureRecord, starts_attempt, is_identifier}
use zk_ie.Db.Tables.{
  RunDb, DbError, state, job_not_found, controlled_event_required, invalid_failure_observation, sql,
  ReservationKey, VerificationRow, update_job, find_job,
}
use zk_ie.Db.Apply.{apply_event_tx}
use zk_ie.Db.Apply.Laws.{
  IsConsistent, IsConsistent-of_rows, apply_event_tx-IsConsistent, update_job-IsConsistent,
  KeepsState,
}
use zk_ie.Db.Attempts.{require_unique_open_attempt}
use zk_ie.Db.Blocking.{as_terminal, set_terminal, block_descendants_tx}
use zk_ie.Db.Blocking.Laws.{block_descendants-IsConsistent}
use zk_ie.Db.Peaks.{record_resource_peak_tx}
use zk_ie.Db.Failures.{
  is_resource, failure_event, retries_of, retry_limit, count_retry, retry_event, retry_or_end,
  record_observation, handle_attempt_failure, require_verification_source, fail_verification,
  verification_row, record_name, is_leaf_verification, insert_verification, record_verification,
  complete_verification,
}

-- The result's database is consistent.
abbrev Sound : {A : Type 0} → Result DbError (RunDb × A) → Type 0
Sound = Ensures (λ out. IsConsistent out.0)

pub count_retry-KeepsState : (resource : Bool) → KeepsState (count_retry resource)
count_retry-KeepsState true r = (refl, refl)
count_retry-KeepsState false r = (refl, refl)

retry_event-quiet : (resource : Bool) → starts_attempt (retry_event resource) ≡ false
retry_event-quiet true = refl
retry_event-quiet false = refl

failure_event-quiet : (f : FailureRecord) → starts_attempt (failure_event f) ≡ false
failure_event-quiet f = ground arith

set_terminal-IsConsistent :
    (db : RunDb) (job : String) → IsConsistent db → IsConsistent (set_terminal db job)
set_terminal-IsConsistent db job c =
    update_job-IsConsistent db job as_terminal (λ r. (refl, refl)) c

retry_or_end-Sound :
    (db : RunDb) (job attempt : String) (resource : Bool) (now : ℕ)
    → IsConsistent db
    → Sound (retry_or_end db job attempt resource now)
unfolding retry_or_end
retry_or_end-Sound db job attempt resource now c =
    Ensures-bind {m = ok_or (find_job job db.jobs) sql} λ row _.
      Ensures-if (ltb (retries_of resource row) (retry_limit resource))
        (λ _. Ensures-bind {m = retried} λ applied is. Ensures-pure (
          apply_event_tx-IsConsistent counted job (some attempt) (retry_event resource) none now is
            (retry_event-quiet resource)
            (update_job-IsConsistent db job (count_retry resource) (count_retry-KeepsState resource)
              c)))
        (λ _. Ensures-bind {m = block_descendants_tx (set_terminal db job) job now} λ db' is.
          Ensures-pure (
            block_descendants-IsConsistent (set_terminal db job) job now is
              (set_terminal-IsConsistent db job c)))
  where
    counted : RunDb
    counted = record db { jobs = update_job job (count_retry resource) db.jobs }

    retried : Result DbError (RunDb × JobState)
    retried = apply_event_tx counted job (some attempt) (retry_event resource) none now

pub record_observation-rows :
    (db : RunDb) (o : Option (ReservationKey × ℕ)) {db' : RunDb}
    → record_observation db o ≡ ok db'
    → (db'.jobs ≡ db.jobs) × (db'.attempts ≡ db.attempts)
unfolding record_resource_peak_tx
record_observation-rows db none h = ground arith
record_observation-rows db (some (key, peak)) h = ground arith

-- A failed attempt, retried or not, leaves the database consistent.
pub handle_attempt_failure-Sound :
    (db : RunDb) (job attempt : String) (f : FailureRecord) (o : Option (ReservationKey × ℕ))
    (now : ℕ)
    → IsConsistent db
    → Ensures (λ out. IsConsistent out.0) (handle_attempt_failure db job attempt f o now)
unfolding handle_attempt_failure
handle_attempt_failure-Sound db job attempt f o now c =
    Ensures-bind {m = guard _ invalid_failure_observation} λ _ _.
      Ensures-bind {m = require_unique_open_attempt db job attempt} λ _ _.
        Ensures-bind {m = record_observation db o} λ observed is.
          Ensures-bind {m = apply_event_tx observed job (some attempt) (failure_event f) none now}
            λ failed applies.
              let rows = record_observation-rows db o is in
              retry_or_end-Sound failed.0 job attempt (is_resource f) now (
                apply_event_tx-IsConsistent observed job (some attempt) (failure_event f) none now
                  applies (failure_event-quiet f)
                  (IsConsistent-of_rows db observed rows.0 rows.1 c))

pub fail_verification-Sound :
    (db : RunDb) (job source : String) (f : FailureRecord) (now : ℕ)
    → IsConsistent db
    → Ensures (λ out. IsConsistent out.0) (fail_verification db job source f now)
unfolding fail_verification
fail_verification-Sound db job source f now c =
    Ensures-bind {m = require_verification_source db job source} λ _ _.
      Ensures-bind
        {m = apply_event_tx db job (some source) (JobEvent.verification_failed f) none now}
        λ failed applies.
          Ensures-bind {m = block_descendants_tx (set_terminal failed.0 job) job now} λ db' blocks.
            Ensures-pure (
              block_descendants-IsConsistent (set_terminal failed.0 job) job now blocks (
                set_terminal-IsConsistent failed.0 job (
                  apply_event_tx-IsConsistent db job (some source) (JobEvent.verification_failed f)
                    none now applies refl c)))

pub insert_verification-rows :
    (db : RunDb) (v : VerificationRow) {db' : RunDb}
    → insert_verification db v ≡ ok db'
    → (db'.jobs ≡ db.jobs) × (db'.attempts ≡ db.attempts)
unfolding insert_verification
insert_verification-rows db v h = ground arith

record_verification-Sound :
    (db : RunDb) (job attempt verifier : String) (now : ℕ)
    → IsConsistent db
    → Sound (record_verification db job attempt verifier now)
unfolding record_verification
record_verification-Sound db job attempt verifier now c =
    let id = record_name job db.verification_records in
    Ensures-bind {m = guard (is_identifier id) state} λ _ _.
      Ensures-bind {m = insert_verification db (verification_row job attempt verifier id)}
        λ recorded is.
          let rows = insert_verification-rows db (verification_row job attempt verifier id) is in
          record {
            at = λ out e.
                apply_event_tx-IsConsistent recorded job (some attempt)
                  (JobEvent.verification_succeeded (some id)) none now e refl
                  (IsConsistent-of_rows db recorded rows.0 rows.1 c);
          }

pub complete_verification-Sound :
    (db : RunDb) (job attempt verifier : String) (now : ℕ)
    → IsConsistent db
    → Ensures (λ out. IsConsistent out.0) (complete_verification db job attempt verifier now)
unfolding complete_verification
complete_verification-Sound db job attempt verifier now c =
    Ensures-bind {m = guard (is_identifier verifier) state} λ _ _.
      Ensures-bind {m = ok_or (find_job job db.jobs) (job_not_found job)} λ row _.
        Ensures-bind {m = guard (is_leaf_verification row.kind) controlled_event_required} λ _ _.
          Ensures-bind {m = require_verification_source db job attempt}
            λ _ _. record_verification-Sound db job attempt verifier now c
