-- ===== src/Db/Tables.antt =====
-- The tables of db.rs (schema version 3) and the SQL statements over them.
-- A `RunDb` holds the rows of the handle's own run, in the order of insertion. A column that stores
-- the text of an enumeration holds the value: the texts are read back exactly (State/Names). The
-- times of creation and update that no statement reads are left out.
use zk_ie.Common.{
  ℕ, suc, Bool, true, false, not, ◌&&◌, Option, none, some, List, [], ◌∷◌, String, any,
  if◌then◌else◌,
}
use zk_ie.Common.Text.{str_eq}
use zk_ie.State.{JobKind, JobState, FailureKind, FailureStage, FailureCode, JobEvent}

-- A row of `jobs`, read as a `JobRecord`.
pub record JobRow : Type 0 where
  pub job_id : String
  pub logical_job_id : String
  pub kind : JobKind
  pub state : JobState
  pub failure_kind : Option FailureKind
  pub failure_stage : Option FailureStage
  pub failure_code : Option FailureCode
  pub failure_summary : Option String
  pub attempt_count : ℕ  -- u32
  pub execution_retries : ℕ  -- u32
  pub resource_requeues : ℕ  -- u32
  pub terminal_failure : Bool
  pub blocking_predecessor_id : Option String

-- A row of `attempts`, read as an `AttemptRecord`.
pub record AttemptRow : Type 0 where
  pub attempt_id : String
  pub job_id : String
  pub state : JobState
  pub started_at : ℕ
  pub finished_at : Option ℕ

-- A row of `state_events`. Its failure and blocker columns are those of the event.
pub record EventRow : Type 0 where
  pub job_id : String
  pub attempt_id : Option String
  pub from_state : JobState
  pub to_state : JobState
  pub event : JobEvent
  pub created_at : ℕ

pub record DependencyRow : Type 0 where
  pub predecessor : String
  pub successor : String

pub record VerificationRow : Type 0 where
  pub record_id : String
  pub job_id : String
  pub attempt_id : String
  pub verifier : String

-- A row of `artifacts` or of `key_artifacts`; the other columns are read back only to open an object.
pub record ArtifactRow : Type 0 where
  pub artifact_id : String
  pub job_id : String
  pub logical_job_id : String
  pub attempt_id : String
  pub object_digest : String

-- `ReservationKey`; a digest is its hexadecimal text.
pub record ReservationKey : Type 0 where
  pub circuit_digest : String
  pub k : ℕ  -- u32
  pub proof_flavor : String
  pub execution_backend : String
  pub hardware_profile : String

pub record PeakRow : Type 0 where
  pub key : ReservationKey
  pub max_observed_peak_bytes : ℕ  -- a non-negative i64

pub record RunDb : Type 0 where
  pub run_id : String
  pub jobs : List JobRow
  pub dependencies : List DependencyRow
  pub attempts : List AttemptRow
  pub verification_records : List VerificationRow
  pub state_events : List EventRow
  pub resource_history : List PeakRow
  pub artifacts : List ArtifactRow
  pub key_artifacts : List ArtifactRow

-- The errors of the operations that are modelled. `sql` is a constraint that SQLite refuses.
pub data DbError : Type 0 where
  sql : DbError
  state : DbError
  transition : JobState → JobEvent → DbError
  job_not_found : String → DbError
  not_attempt_start attempt_start_requires_begin attempt_event_requires_attempt : DbError
  controlled_event_required : DbError
  attempt_not_open_for_job : (attempt job : String) → DbError
  open_attempt_conflict : String → DbError
  attempt_count_exhausted : String → DbError
  invalid_verification_source : (attempt job : String) → DbError
  wrong_start_for_job_kind : JobKind → JobEvent → DbError
  verified_artifact_run_mismatch artifact_publication_required : DbError
  verified_identity_job_kind_mismatch store : DbError
  resource_peak_out_of_range invalid_failure_observation : DbError

pub data RetryDecision : Type 0 where
  requeued terminal : RetryDecision

-- `SELECT … FROM jobs WHERE job_id=?`.
abbrev pub find_job : String → List JobRow → Option JobRow
find_job id [] = none
find_job id (r ∷ rs) = if str_eq r.job_id id then some r else find_job id rs

-- `UPDATE jobs SET … WHERE job_id=?`.
abbrev pub update_job : String → (JobRow → JobRow) → List JobRow → List JobRow
update_job id f [] = []
update_job id f (r ∷ rs) = (if str_eq r.job_id id then f r else r) ∷ update_job id f rs

abbrev pub is_none {ℓ} : {A : Type ℓ} → Option A → Bool
is_none none = true
is_none (some _) = false

-- `WHERE job_id=? AND finished_at_unix_ms IS NULL`.
abbrev pub is_open_for : String → AttemptRow → Bool
is_open_for job a = str_eq a.job_id job && is_none a.finished_at

-- `SELECT COUNT(*) FROM attempts WHERE job_id=? AND finished_at_unix_ms IS NULL`.
abbrev pub count_open : String → List AttemptRow → ℕ
count_open job [] = 0
count_open job (a ∷ as') =
    let rest = count_open job as' in if is_open_for job a then suc rest else rest

-- The ids of the open attempts of a job.
abbrev pub open_attempts : String → List AttemptRow → List String
open_attempts job [] = []
open_attempts job (a ∷ as') =
    if is_open_for job a then a.attempt_id ∷ open_attempts job as' else open_attempts job as'

-- `UPDATE attempts SET state=?, finished_at=… WHERE job_id=? AND finished_at_unix_ms IS NULL`.
abbrev pub finish_attempts : String → JobState → ℕ → List AttemptRow → List AttemptRow
finish_attempts job next now [] = []
finish_attempts job next now (a ∷ as') =
    (if is_open_for job a then record a { state = next; finished_at = some now } else a)
    ∷ finish_attempts job next now as'

-- `UPDATE attempts SET state=? WHERE attempt_id=?`.
abbrev pub set_attempt_state : String → JobState → List AttemptRow → List AttemptRow
set_attempt_state attempt next [] = []
set_attempt_state attempt next (a ∷ as') =
    (if str_eq a.attempt_id attempt then record a { state = next } else a)
    ∷ set_attempt_state attempt next as'

-- The targets of the foreign keys.
abbrev pub has_job : String → List JobRow → Bool
has_job id rows = not (is_none (find_job id rows))

abbrev pub has_attempt : String → String → List AttemptRow → Bool
has_attempt job attempt = any (λ a. str_eq a.attempt_id attempt && str_eq a.job_id job)

abbrev pub has_verification : String → String → List VerificationRow → Bool
has_verification job r = any (λ v. str_eq v.record_id r && str_eq v.job_id job)
