-- ===== src/Queue.antt =====
-- crates/zkie-runtime/src/queue.rs: the engine that plans a run, picks its jobs, runs them and records
-- what comes of them. It is the place where the database, the scheduler and the workers meet.
-- The worker, the verifier, the store of objects, the memory monitor, the clocks and the directories
-- are parameters: what they answer may depend on the state of the run, and so on all that was done.
-- A function gives the database that it leaves, also where it fails.
pub mod Plans
pub mod Rounds
pub mod Planning
pub mod Kept
pub mod Runs
pub mod Verdicts
use zk_ie.Common.{
  ℕ, zero, suc, ◌+◌, ◌-◌, Bool, true, false, not, ◌&&◌, Option, none, some, List, [], ◌∷◌, ◌++◌,
  Result, ok, err, String, if◌then◌else◌, get_elem?, find, length, ◌==◌,
}
use mathlib.Core.Option
use zk_ie.Common.Int.{ℤ}
use zk_ie.Common.Text.{str_eq, codes, cmp_str}
use zk_ie.Common.Sort.{sort_by}
use zk_ie.Common.Chars.{Chars}
use zk_ie.Identity.{Digest32}
use zk_ie.Resource.{ResourceRequest, ResourceCapacity}
use zk_ie.Monitor.{MemoryAction}
use zk_ie.State.{
  JobKind, JobState, JobEvent, FailureKind, FailureStage, FailureCode, FailureRecord, new_failure,
}
use zk_ie.Db.Tables.{JobRow, RunDb, DbError, RetryDecision, job_not_found, find_job}
use zk_ie.Db.Jobs.{insert_job, add_dependency}
use zk_ie.Db.Attempts.{begin_attempt, apply_attempt_event}
use zk_ie.Db.Failures.{handle_attempt_failure, complete_verification}
use zk_ie.Db.Commits.{Verified, commit_verified_artifact, commit_verified_key}
use zk_ie.Db.Readiness.{refresh_readiness, recover_interrupted}
use zk_ie.Scheduler.{
  SchedulableJob, SchedulerDecision, SchedulerError, decide_with_memory, new_config, is_ready,
}
use zk_ie.Worker.{
  ProtocolError, WorkerJob, WorkerSpec, WorkerResult, WorkerOutcome, succeeded, failed, worker_spec,
  is_absolute,
}

-- Which object a job publishes; the digests that it binds go into the identity of the object, which
-- the store's parameter makes of the job.
pub data JobBinding : Type 0 where
  proof key : JobBinding

pub record PlannedJob : Type 0 where
  pub logical_id : String
  pub kind : JobKind
  pub depends_on : List String
  pub request : ResourceRequest
  pub job : WorkerJob
  pub binding : JobBinding

pub record QueuePlan : Type 0 where
  pub run_digest : Digest32
  pub jobs : List PlannedJob

pub data QueueError : Type 0 where
  database : DbError → QueueError
  protocol : ProtocolError → QueueError
  store_failed : QueueError
  scheduler : SchedulerError → QueueError
  stalled : ℕ → QueueError
  unknown_predecessor : (job predecessor : String) → QueueError
  missing_staged : (attempt logical_id : String) → QueueError
  verification_rejected : (attempt : String) → QueueError
  io_failed : QueueError
  -- An index out of range, at which the program panics.
  index_out_of_range : QueueError

-- What staging and publishing an object gives, and what the later checks of the object find.
pub record Published : Type 0 where
  pub verifier : String
  pub artifact_id : Option String
  pub is_artifact : Bool
  pub object_digest : String
  pub identity_digest : String
  pub durable : Bool
  pub pinned : Bool

pub record Runtime : Type 0 where
  pub launch : RunDb → WorkerSpec → Result ProtocolError WorkerResult
  pub verifies : RunDb → PlannedJob → WorkerSpec → Bool
  pub publish : RunDb → PlannedJob → String → Result QueueError Published
  pub action : RunDb → MemoryAction
  pub makes_dir : RunDb → Chars → Bool
  pub clock_ms : RunDb → ℕ
  pub clock_seconds : RunDb → ℤ
  pub staging_root : Chars
  pub capacity : ResourceCapacity
  pub max_rounds : ℕ  -- u32

pub record QueueOutcome : Type 0 where
  pub verified : List String
  pub terminal : List String
  pub blocked : List String
  pub rounds : ℕ  -- u32

-- `QueueOutcome::is_complete`.
unfoldable pub is_complete : QueueOutcome → Bool
is_complete o = elim o.terminal [
  | _ ∷ _ ↦ false
  | [] ↦ elim o.blocked [ _ ∷ _ ↦ false | [] ↦ true ]
]

-- A step of the engine on the database, and `?` between two of them.
abbrev pub Engine : Type 0 → Type 0
Engine A = RunDb → RunDb × Result QueueError A

infixl 5 ◌>>=◌ ◌>>◌
unfoldable pub ◌>>=◌ : {A B : Type 0} → Engine A → (A → Engine B) → Engine B
◌>>=◌ m f db = let out = m db in elim out.1 [ ok a ↦ f a out.0 | err e ↦ (out.0, err e) ]

abbrev pub ◌>>◌ : {A B : Type 0} → Engine A → Engine B → Engine B
◌>>◌ m k = m >>= λ _. k

abbrev pub pure : {A : Type 0} → A → Engine A
pure a db = (db, ok a)

-- An operation of the database: a transaction that fails changes nothing.
unfoldable pub transact : {A : Type 0} → (RunDb → Result DbError (RunDb × A)) → Engine A
transact op db = elim (op db) [ ok out ↦ (out.0, ok out.1) | err e ↦ (db, err (database e)) ]

-- A step that reads the database, or none.
unfoldable pub reads : {A : Type 0} → (RunDb → Result QueueError A) → Engine A
reads f db = (db, f db)
