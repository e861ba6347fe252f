-- ===== src/Monitor.antt =====
-- crates/zkie-runtime/src/monitor.rs: the memory limits of a run, the admission policy over the
-- samples, the choice of the attempt to end and its termination.
pub mod Policy
pub mod Newest
pub mod Terminate
use zk_ie.Common.{
  ℕ, zero, suc, ◌+◌, ◌*◌, Bool, true, false, not, ◌||◌, Option, none, some, List, [], ◌∷◌, Result,
  ok, err, ◌>>=◌, ◌>>◌, guard, ok_or, ltb, leb, ◌==◌, if◌then◌else◌, checked_mul_u64, then_with,
  String, Ordering,
}
use zk_ie.Common.Int.{ℤ, cmp_ℤ}
use zk_ie.Common.Text.{cmp_str}

abbrev pub hard_breach_samples : ℕ
hard_breach_samples = 3

abbrev pub termination_grace_polls : ℕ
termination_grace_polls = 10

-- The errors that this part of the monitor raises itself, and the ones of the operating system.
pub data MonitorError : Type 0 where
  invalid_limits : MonitorError
  io : ℕ → MonitorError

pub record MemoryLimits : Type 0 where
  pub admission_bytes : ℕ  -- u64
  pub hard_limit_bytes : ℕ  -- u64

abbrev pub gib_bytes : ℕ
gib_bytes = 1073741824

-- `MemoryLimits::new`.
unfoldable pub new_limits : ℕ → ℕ → Result MonitorError MemoryLimits
new_limits admission_bytes hard_limit_bytes =
    if admission_bytes == 0 || leb hard_limit_bytes admission_bytes
    then err invalid_limits
    else ok (record { admission_bytes = admission_bytes; hard_limit_bytes = hard_limit_bytes })

-- `MemoryLimits::gib`.
unfoldable pub gib_limits : ℕ → ℕ → Result MonitorError MemoryLimits
unfolding new_limits
gib_limits admission_gib hard_limit_gib = do
  admission ← ok_or (checked_mul_u64 admission_gib gib_bytes) invalid_limits
  hard ← ok_or (checked_mul_u64 hard_limit_gib gib_bytes) invalid_limits
  new_limits admission hard

pub data MemoryAction : Type 0 where
  admit freeze_admission terminate_newest : MemoryAction

pub MemoryAction-discrete : Discrete MemoryAction
MemoryAction-discrete = hlevel

pub record AdmissionPolicy : Type 0 where
  pub limits : MemoryLimits
  pub consecutive_hard_breaches : ℕ  -- u32

unfoldable pub new_policy : MemoryLimits → AdmissionPolicy
new_policy limits = record { limits = limits; consecutive_hard_breaches = 0 }

-- `observe(&mut self, resident_bytes)`: the new policy state and the action.
unfoldable pub observe : AdmissionPolicy → ℕ → AdmissionPolicy × MemoryAction
observe p resident_bytes =
    let breaches = p.consecutive_hard_breaches + 1 in
    if ltb p.limits.hard_limit_bytes resident_bytes
    then (if leb hard_breach_samples breaches
        then (record p { consecutive_hard_breaches = 0 }, terminate_newest)
        else (record p { consecutive_hard_breaches = breaches }, freeze_admission))
    else (
      record p { consecutive_hard_breaches = 0 },
      if ltb p.limits.admission_bytes resident_bytes then freeze_admission else admit,
    )

pub record RunningAttempt : Type 0 where
  pub attempt : String
  pub pid : ℕ  -- u32
  pub started_at_unix_ms : ℤ  -- i64

-- The comparison of `newest_attempt`.
unfoldable pub cmp_attempt : RunningAttempt → RunningAttempt → Ordering
cmp_attempt left right =
    then_with (cmp_ℤ left.started_at_unix_ms right.started_at_unix_ms)
      (cmp_str left.attempt right.attempt)

-- `max_by` keeps the later of two equal items: the accumulator is kept only if it is greater.
unfoldable pub max_from : RunningAttempt → List RunningAttempt → RunningAttempt
unfolding cmp_attempt
max_from best [] = best
max_from best (x ∷ xs) = max_from (elim (cmp_attempt best x) [ Ordering.gt ↦ best | _ ↦ x ]) xs

unfoldable pub newest_attempt : List RunningAttempt → Option RunningAttempt
unfolding max_from
newest_attempt [] = none
newest_attempt (x ∷ xs) = some (max_from x xs)

pub data TerminationSignal : Type 0 where
  terminate kill : TerminationSignal

pub data TerminationOutcome : Type 0 where
  exited_after_terminate forced_kill did_not_exit : TerminationOutcome

pub record TerminationReport : Type 0 where
  pub attempt : String
  pub pid : ℕ
  pub observed_peak_bytes : ℕ
  pub outcome : TerminationOutcome

-- The trait `ProcessControl`: the operating system is a world that a signal and a poll may change.
pub record ProcessControl : Type 1 where
  pub World : Type 0
  pub signal : ℕ → TerminationSignal → World → Result MonitorError World
  pub is_alive : ℕ → World → Bool × World

module _ (control : ProcessControl) where
  open control use {World, signal, is_alive}

  -- The `for _ in 0..polls` of `wait_for_exit`.
  unfoldable pub poll_exit : ℕ → ℕ → World → Bool × World
  poll_exit pid zero w = (false, w)
  poll_exit pid (suc polls) w =
      let (alive, w') = is_alive pid w in
      elim alive [ true ↦ poll_exit pid polls w' | false ↦ (true, w') ]

  unfoldable pub wait_for_exit : ℕ → ℕ → World → Bool × World
  unfolding poll_exit
  wait_for_exit pid polls w =
      let (alive, w') = is_alive pid w in
      elim alive [ true ↦ poll_exit pid polls w' | false ↦ (true, w') ]

  abbrev pub report : RunningAttempt → ℕ → TerminationOutcome → TerminationReport
  report target observed_peak_bytes outcome = record {
    attempt = target.attempt;
    pid = target.pid;
    observed_peak_bytes = observed_peak_bytes;
    outcome = outcome;
  }

  unfoldable pub terminate_attempt :
      RunningAttempt → ℕ → ℕ → World → Result MonitorError (TerminationReport × World)
  unfolding wait_for_exit
  terminate_attempt target observed_peak_bytes grace_polls w = do
    w₁ ← signal target.pid terminate w
    let (exited, w₂) = wait_for_exit target.pid grace_polls w₁
    elim exited [
      | true ↦ ok (report target observed_peak_bytes exited_after_terminate, w₂)
      | false ↦ do
        w₃ ← signal target.pid kill w₂
        let (killed, w₄) = wait_for_exit target.pid grace_polls w₃
        ok (report target observed_peak_bytes (if killed then forced_kill else did_not_exit), w₄)
    ]
