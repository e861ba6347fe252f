-- ===== src/State.antt =====
-- crates/zkie-runtime/src/state.rs: identifiers, the job state machine and its events.
-- A `JobId`, an `AttemptId` and a `VerificationRecordId` are the texts that they wrap.
pub mod Names
pub mod FailureNames
pub mod Transition
use zk_ie.Common.{
  ℕ, List, Bool, true, false, not, ◌&&◌, ◌||◌, Option, none, some, Result, ok, err, String, ltb,
  leb, ◌==◌, if◌then◌else◌, length, any, all,
}
use zk_ie.Common.Text.{codes}

abbrev pub max_id_bytes : ℕ
max_id_bytes = 256

pub data StateError : Type 0 where
  invalid_identifier : StateError

-- `char::is_control` of an ASCII character.
abbrev pub is_control : ℕ → Bool
is_control c = ltb c 32 || c == 127

-- The tests of `JobId::new` and its like. The program counts bytes; a text with a character outside
-- ASCII is refused by another test, and for the others a byte is a character.
unfoldable pub is_identifier_codes : List ℕ → Bool
is_identifier_codes value = not (
    length value == 0
    || ltb max_id_bytes (length value)
    || not (all (λ c. ltb c 128) value)
    || any is_control value)

unfoldable pub is_identifier : String → Bool
unfolding is_identifier_codes
is_identifier value = is_identifier_codes (codes value)

unfoldable pub new_id : String → Result StateError String
unfolding is_identifier
new_id value = if is_identifier value then ok value else err invalid_identifier

pub data JobKind : Type 0 where
  witness prepare leaf_proof leaf_verification native_aggregate : JobKind

pub data JobState : Type 0 where
  pending ready witnessing witness_ready preparing prepared proving proved : JobState
  verifying verified execution_failed verification_failed resource_exceeded : JobState
  interrupted requeued blocked : JobState

pub data FailureKind : Type 0 where
  execution verification resource_exceeded dependency interrupted : FailureKind

pub data FailureStage : Type 0 where
  witness prepare prove verify aggregate scheduler : FailureStage

pub data FailureCode : Type 0 where
  worker_exit invalid_result resource_limit predecessor_failed scheduler_restart : FailureCode

pub JobState-discrete : Discrete JobState
JobState-discrete = hlevel

abbrev pub summary : FailureKind → String
summary FailureKind.execution = "execution failed"
summary FailureKind.verification = "verification failed"
summary FailureKind.resource_exceeded = "resource limit exceeded"
summary FailureKind.dependency = "dependency failed"
summary FailureKind.interrupted = "interrupted"

pub record FailureRecord : Type 0 where
  pub kind : FailureKind
  pub stage : FailureStage
  pub code : FailureCode
  pub summary : String

-- `FailureRecord::new`.
abbrev pub new_failure : FailureKind → FailureStage → FailureCode → FailureRecord
new_failure kind stage code = record {
  kind = kind;
  stage = stage;
  code = code;
  summary = summary kind;
}

-- `FailureRecord::from_untrusted_message`: the message is dropped.
unfoldable pub from_untrusted_message :
    FailureKind → FailureStage → FailureCode → String → FailureRecord
from_untrusted_message kind stage code _ = record {
  kind = kind;
  stage = stage;
  code = code;
  summary = "[REDACTED]";
}

pub data JobEvent : Type 0 where
  dependencies_satisfied : JobEvent
  dependency_blocked : (predecessor : String) → JobEvent
  start_witnessing witness_completed start_preparing preparation_completed : JobEvent
  start_proving proof_produced start_verification : JobEvent
  verification_succeeded : (verification_record : Option String) → JobEvent
  execution_failed verification_failed resource_exceeded interrupted : FailureRecord → JobEvent
  retry_execution retry_resource_exceeded recovery_requeue : JobEvent

-- `JobEvent::failure`.
abbrev pub failure_of : JobEvent → Option FailureRecord
failure_of (JobEvent.execution_failed f) = some f
failure_of (JobEvent.verification_failed f) = some f
failure_of (JobEvent.resource_exceeded f) = some f
failure_of (JobEvent.interrupted f) = some f
failure_of _ = none

abbrev pub blocking_predecessor : JobEvent → Option String
blocking_predecessor (JobEvent.dependency_blocked predecessor) = some predecessor
blocking_predecessor _ = none

abbrev pub verification_record : JobEvent → Option String
verification_record (JobEvent.verification_succeeded r) = r
verification_record _ = none

abbrev pub starts_attempt : JobEvent → Bool
starts_attempt JobEvent.start_witnessing = true
starts_attempt JobEvent.start_preparing = true
starts_attempt JobEvent.start_proving = true
starts_attempt JobEvent.start_verification = true
starts_attempt _ = false

abbrev pub is_permanent_failure : JobState → Bool
is_permanent_failure JobState.verification_failed = true
is_permanent_failure JobState.blocked = true
is_permanent_failure _ = false

abbrev pub is_active : JobState → Bool
is_active JobState.witnessing = true
is_active JobState.preparing = true
is_active JobState.proving = true
is_active JobState.verifying = true
is_active _ = false

pub record TransitionError : Type 0 where
  pub from : JobState
  pub event : JobEvent

-- The guards `failure.kind == FailureKind::…`.
abbrev pub is_kind : FailureKind → FailureKind → Bool
is_kind FailureKind.execution FailureKind.execution = true
is_kind FailureKind.verification FailureKind.verification = true
is_kind FailureKind.resource_exceeded FailureKind.resource_exceeded = true
is_kind FailureKind.dependency FailureKind.dependency = true
is_kind FailureKind.interrupted FailureKind.interrupted = true
is_kind _ _ = false

-- The failure arms of `transition`: from an active state by a failure of the matching kind.
abbrev fail_active : JobState → Bool → JobState → Option JobState
fail_active s matches target = if is_active s && matches then some target else none

-- The states in which a verification may end.
abbrev pub is_verifiable : JobState → Bool
is_verifiable JobState.witness_ready = true
is_verifiable JobState.prepared = true
is_verifiable JobState.proved = true
is_verifiable JobState.verifying = true
is_verifiable _ = false

-- The `match` of `JobState::transition`; `none` is its last arm.
unfoldable pub next_state : JobState → JobEvent → Option JobState
next_state JobState.pending JobEvent.dependencies_satisfied = some JobState.ready
next_state JobState.requeued JobEvent.dependencies_satisfied = some JobState.ready
next_state JobState.pending (JobEvent.dependency_blocked _) = some JobState.blocked
next_state JobState.requeued (JobEvent.dependency_blocked _) = some JobState.blocked
next_state JobState.ready JobEvent.start_witnessing = some JobState.witnessing
next_state JobState.witnessing JobEvent.witness_completed = some JobState.witness_ready
next_state JobState.ready JobEvent.start_preparing = some JobState.preparing
next_state JobState.witness_ready JobEvent.start_preparing = some JobState.preparing
next_state JobState.preparing JobEvent.preparation_completed = some JobState.prepared
next_state JobState.ready JobEvent.start_proving = some JobState.proving
next_state JobState.preparing JobEvent.start_proving = some JobState.proving
next_state JobState.proving JobEvent.proof_produced = some JobState.proved
next_state JobState.ready JobEvent.start_verification = some JobState.verifying
next_state JobState.witness_ready JobEvent.start_verification = some JobState.verifying
next_state JobState.preparing JobEvent.start_verification = some JobState.verifying
next_state JobState.proved JobEvent.start_verification = some JobState.verifying
next_state s (JobEvent.verification_succeeded (some _)) =
    if is_verifiable s then some JobState.verified else none
next_state s (JobEvent.execution_failed f) =
    fail_active s (is_kind f.kind FailureKind.execution) JobState.execution_failed
next_state s (JobEvent.verification_failed f) =
    if is_verifiable s && is_kind f.kind FailureKind.verification
    then some JobState.verification_failed
    else none
next_state s (JobEvent.resource_exceeded f) =
    fail_active s (is_kind f.kind FailureKind.resource_exceeded) JobState.resource_exceeded
next_state s (JobEvent.interrupted f) =
    fail_active s (is_kind f.kind FailureKind.interrupted) JobState.interrupted
next_state JobState.execution_failed JobEvent.retry_execution = some JobState.requeued
next_state JobState.resource_exceeded JobEvent.retry_resource_exceeded = some JobState.requeued
next_state JobState.interrupted JobEvent.recovery_requeue = some JobState.requeued
next_state _ _ = none

unfoldable pub transition : JobState → JobEvent → Result TransitionError JobState
unfolding next_state
transition s e = elim (next_state s e) [
  | some next ↦ ok next
  | none ↦ err (record { from = s; event = e })
]
