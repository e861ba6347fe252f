-- ===== src/Db/Steps.antt =====
-- The operations of a run as one relation: a run is planned, and then its operations are applied in
-- any order.
pub mod Unlocked
pub mod Ends
pub mod Reachable
use zk_ie.Common.{ℕ, ◌≡◌, Option, Result, ok, String}
use zk_ie.State.{JobKind, JobState, JobEvent, FailureRecord}
use zk_ie.Db.Tables.{RunDb, RetryDecision, ReservationKey}
use zk_ie.Db.Jobs.{empty_run, insert_job, add_dependency}
use zk_ie.Db.Attempts.{begin_attempt, apply_attempt_event}
use zk_ie.Db.Failures.{handle_attempt_failure, fail_verification, complete_verification}
use zk_ie.Db.Commits.{Verified, commit_verified_artifact, commit_verified_key}
use zk_ie.Db.Peaks.{record_resource_peak_tx}
use zk_ie.Db.Readiness.{refresh_readiness, recover_interrupted}

-- The databases that `insert_job` and `add_dependency` make of an empty run.
pub data Planned : RunDb → Type 0 where
  empty : (run_id : String) → Planned (empty_run run_id)
  inserted :
      (db db' : RunDb) (logical id : String) (kind : JobKind)
      → Planned db
      → insert_job db logical kind ≡ ok (db', id)
      → Planned db'
  depending :
      (db db' : RunDb) (predecessor successor : String)
      → Planned db
      → add_dependency db predecessor successor ≡ ok db'
      → Planned db'

-- One operation that succeeded; one that fails rolls its transaction back.
pub data Step (db : RunDb) : RunDb → Type 0 where
  began :
      (job attempt : String) (event : JobEvent) (now : ℕ) (db' : RunDb)
      → begin_attempt db job event now ≡ ok (db', attempt)
      → Step db db'
  progressed :
      (job attempt : String) (event : JobEvent) (now : ℕ) (next : JobState) (db' : RunDb)
      → apply_attempt_event db job attempt event now ≡ ok (db', next)
      → Step db db'
  failed :
      (job attempt : String) (f : FailureRecord) (o : Option (ReservationKey × ℕ)) (now : ℕ)
      (d : RetryDecision) (db' : RunDb)
      → handle_attempt_failure db job attempt f o now ≡ ok (db', d)
      → Step db db'
  rejected :
      (job attempt : String) (f : FailureRecord) (now : ℕ) (next : JobState) (db' : RunDb)
      → fail_verification db job attempt f now ≡ ok (db', next)
      → Step db db'
  accepted :
      (job attempt verifier : String) (now : ℕ) (next : JobState) (db' : RunDb)
      → complete_verification db job attempt verifier now ≡ ok (db', next)
      → Step db db'
  published :
      (v : Verified) (now : ℕ) (next : JobState) (db' : RunDb)
      → commit_verified_artifact db v now ≡ ok (db', next)
      → Step db db'
  keyed :
      (v : Verified) (id : String) (now : ℕ) (next : JobState) (db' : RunDb)
      → commit_verified_key db v id now ≡ ok (db', next)
      → Step db db'
  refreshed :
      (now ready : ℕ) (db' : RunDb) → refresh_readiness db now ≡ ok (db', ready) → Step db db'
  recovered :
      (now count : ℕ) (db' : RunDb) → recover_interrupted db now ≡ ok (db', count) → Step db db'
  measured :
      (key : ReservationKey) (peak : ℕ) (db' : RunDb)
      → record_resource_peak_tx db key peak ≡ ok db'
      → Step db db'

-- What a planned run comes to.
pub data Reached : RunDb → Type 0 where
  planned : (db : RunDb) → Planned db → Reached db
  step : (db db' : RunDb) → Reached db → Step db db' → Reached db'
