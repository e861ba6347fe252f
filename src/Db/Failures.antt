-- ===== src/Db/Failures.antt =====
-- db/engine.rs and db/artifacts.rs: how an attempt ends: a failure with its retries, a rejected
-- verification, or a verification that is recorded.
pub mod Ended
pub mod Laws
pub mod Retries
use zk_ie.Common.{
  ℕ, suc, ◌+◌, Bool, true, false, not, ◌&&◌, ◌||◌, Option, none, some, List, [], ◌∷◌, ◌++◌, Result,
  ok, err, ◌>>=◌, ◌>>◌, guard, ok_or, String, if◌then◌else◌, ltb, ne_bool, any,
}
use zk_ie.Common.Text.{str_eq, ◌<>◌, decimal}
use zk_ie.State.{
  JobKind, JobState, JobState-discrete, JobEvent, FailureKind, FailureRecord, is_kind,
  is_identifier,
}
use mathlib.Core.Bool.{decide}
use zk_ie.Db.Tables.{
  JobRow, AttemptRow, RunDb, DbError, RetryDecision, ReservationKey, VerificationRow, sql, state,
  job_not_found, controlled_event_required, invalid_verification_source,
  invalid_failure_observation, find_job, update_job, is_none, has_attempt,
}
use zk_ie.Db.Apply.{apply_event_tx}
use zk_ie.Db.Attempts.{require_unique_open_attempt}
use zk_ie.Db.Blocking.{set_terminal, block_descendants_tx}
use zk_ie.Db.Peaks.{record_resource_peak_tx}

abbrev pub is_resource : FailureRecord → Bool
is_resource f = is_kind f.kind FailureKind.resource_exceeded

abbrev pub failure_event : FailureRecord → JobEvent
failure_event f =
    if is_resource f then JobEvent.resource_exceeded f else JobEvent.execution_failed f

-- `counter_column` and `retry_limit`, by whether the failure is one of resources.
abbrev pub retries_of : Bool → JobRow → ℕ
retries_of true r = r.resource_requeues
retries_of false r = r.execution_retries

abbrev pub retry_limit : Bool → ℕ
retry_limit true = 3
retry_limit false = 2

abbrev pub count_retry : Bool → JobRow → JobRow
count_retry true r = record r { resource_requeues = r.resource_requeues + 1 }
count_retry false r = record r { execution_retries = r.execution_retries + 1 }

abbrev pub retry_event : Bool → JobEvent
retry_event true = JobEvent.retry_resource_exceeded
retry_event false = JobEvent.retry_execution

-- The decision, after the failure has been written.
unfoldable pub retry_or_end :
    RunDb → String → String → Bool → ℕ → Result DbError (RunDb × RetryDecision)
retry_or_end db job attempt resource now = do
  row ← ok_or (find_job job db.jobs) sql
  if ltb (retries_of resource row) (retry_limit resource)
      then (apply_event_tx (record db { jobs = update_job job (count_retry resource) db.jobs }) job
            (some attempt) (retry_event resource) none now
          >>= λ applied. ok (applied.0, RetryDecision.requeued))
      else (block_descendants_tx (set_terminal db job) job now >>= λ db'.
          ok (db', RetryDecision.terminal))

abbrev pub record_observation : RunDb → Option (ReservationKey × ℕ) → Result DbError RunDb
record_observation db none = ok db
record_observation db (some (key, peak)) = record_resource_peak_tx db key peak

unfoldable pub handle_attempt_failure :
    RunDb
    → String
    → String
    → FailureRecord
    → Option (ReservationKey × ℕ)
    → ℕ
    → Result DbError (RunDb × RetryDecision)
unfolding retry_or_end
handle_attempt_failure db job attempt failure observation now = do
  guard
      (not (
        ne_bool (is_resource failure) (not (is_none observation))
        || not (is_kind failure.kind FailureKind.execution || is_resource failure)))
      invalid_failure_observation
  require_unique_open_attempt db job attempt
  observed ← record_observation db observation
  failed ← apply_event_tx observed job (some attempt) (failure_event failure) none now
  retry_or_end failed.0 job attempt (is_resource failure) now

abbrev state_eq : JobState → JobState → Bool
state_eq a b = decide (JobState-discrete a b)

-- `ORDER BY rowid DESC LIMIT 1`: the row of the job that was inserted last.
abbrev latest_attempt : String → Option AttemptRow → List AttemptRow → Option AttemptRow
latest_attempt job found [] = found
latest_attempt job found (a ∷ as') =
    latest_attempt job (if str_eq a.job_id job then some a else found) as'

abbrev awaits_verdict : JobKind → JobState → Bool
awaits_verdict JobKind.leaf_verification JobState.verifying = true
awaits_verdict JobKind.native_aggregate JobState.verifying = true
awaits_verdict _ _ = false

abbrev has_output : JobKind → JobState → Bool
has_output JobKind.witness JobState.witness_ready = true
has_output JobKind.prepare JobState.prepared = true
has_output JobKind.leaf_proof JobState.proved = true
has_output _ _ = false

-- The last attempt of the job is this one, it has finished, and in the job's own state.
abbrev is_source : String → JobState → Option AttemptRow → Bool
is_source attempt s none = false
is_source attempt s (some a) =
    not (is_none a.finished_at) && str_eq a.attempt_id attempt && state_eq a.state s

unfoldable pub require_verification_source : RunDb → String → String → Result DbError (Unit {0})
unfolding require_unique_open_attempt
require_verification_source db job attempt = do
  row ← ok_or (find_job job db.jobs) (job_not_found job)
  if awaits_verdict row.kind row.state
      then require_unique_open_attempt db job attempt
      else (guard
          (has_output row.kind row.state
            && is_source attempt row.state (latest_attempt job none db.attempts))
          (invalid_verification_source attempt job))

unfoldable pub fail_verification :
    RunDb → String → String → FailureRecord → ℕ → Result DbError (RunDb × JobState)
fail_verification db job source failure now = do
  require_verification_source db job source
  failed ← apply_event_tx db job (some source) (JobEvent.verification_failed failure) none now
  db' ← block_descendants_tx (set_terminal failed.0 job) job now
  ok (db', failed.1)

abbrev count_records : String → List VerificationRow → ℕ
count_records job [] = 0
count_records job (v ∷ vs) =
    let rest = count_records job vs in if str_eq v.job_id job then suc rest else rest

abbrev pub record_name : String → List VerificationRow → String
record_name job vs = job <> (":verification:" <> decimal (count_records job vs + 1))

abbrev pub verification_row : String → String → String → String → VerificationRow
verification_row job attempt verifier id = record {
  record_id = id;
  job_id = job;
  attempt_id = attempt;
  verifier = verifier;
}

-- The `INSERT INTO verification_records`, with its key and the foreign key to the attempt.
unfoldable pub insert_verification : RunDb → VerificationRow → Result DbError RunDb
insert_verification db v =
    if any (λ w. str_eq w.record_id v.record_id) db.verification_records
      || not (has_attempt v.job_id v.attempt_id db.attempts)
    then err sql
    else ok (record db { verification_records = db.verification_records ++ v ∷ [] })

-- The part of a successful verification that its three operations share: the record and the event.
unfoldable pub record_verification :
    RunDb → String → String → String → ℕ → Result DbError (RunDb × JobState)
record_verification db job attempt verifier now = do
  let id = record_name job db.verification_records
  guard (is_identifier id) state
  recorded ← insert_verification db (verification_row job attempt verifier id)
  apply_event_tx recorded job (some attempt) (JobEvent.verification_succeeded (some id)) none now

abbrev pub is_leaf_verification : JobKind → Bool
is_leaf_verification JobKind.leaf_verification = true
is_leaf_verification _ = false

unfoldable pub complete_verification :
    RunDb → String → String → String → ℕ → Result DbError (RunDb × JobState)
unfolding record_verification
complete_verification db job attempt verifier now = do
  guard (is_identifier verifier) state
  row ← ok_or (find_job job db.jobs) (job_not_found job)
  guard (is_leaf_verification row.kind) controlled_event_required
  require_verification_source db job attempt
  record_verification db job attempt verifier now
