-- ===== src/Monitor/Terminate.antt =====
-- How an attempt is ended: the polls that each outcome of `terminate_attempt` rests on.
use zk_ie.Common.{
  ℕ, zero, suc, ◌≡◌, refl, Bool, true, false, Option, none, some, Result, Bool-cases, inl, inr, ok,
  err, arith,
}
use zk_ie.Monitor.{
  ProcessControl, poll_exit, wait_for_exit, RunningAttempt, TerminationReport, terminate, kill,
  TerminationOutcome, exited_after_terminate, forced_kill, did_not_exit, terminate_attempt,
  MonitorError, report,
}

module _ (control : ProcessControl) where
  open control use {World, signal, is_alive}

  -- Whether the process answers alive to every one of `polls` polls, and the world after them.
  unfoldable pub stays_alive : ℕ → ℕ → World → Bool
  stays_alive pid zero w = true
  stays_alive pid (suc polls) w = elim (is_alive pid w).0 [
    | true ↦ stays_alive pid polls (is_alive pid w).1
    | false ↦ false
  ]

  unfoldable pub after_polls : ℕ → ℕ → World → World
  after_polls pid zero w = w
  after_polls pid (suc polls) w = after_polls pid polls (is_alive pid w).1

  poll_exit_alive :
      (pid polls : ℕ) (w : World)
      → stays_alive pid polls w ≡ true
      → poll_exit control pid polls w ≡ (false, after_polls pid polls w)
  unfolding poll_exit stays_alive after_polls
  poll_exit_alive pid zero w h = refl
  poll_exit_alive pid (suc polls) w h = ground (arith, poll_exit_alive pid polls (is_alive pid w).1)

  poll_exit_gone :
      (pid polls : ℕ) (w : World)
      → stays_alive pid polls w ≡ false
      → (poll_exit control pid polls w).0 ≡ true
  unfolding poll_exit stays_alive
  poll_exit_gone pid zero w h = cc
  poll_exit_gone pid (suc polls) w h = ground (arith, poll_exit_gone pid polls (is_alive pid w).1)

  -- `wait_for_exit` gives up after one poll more than it was allowed, all answered alive.
  wait_for_exit_alive :
      (pid polls : ℕ) (w : World)
      → stays_alive pid (suc polls) w ≡ true
      → wait_for_exit control pid polls w ≡ (false, after_polls pid (suc polls) w)
  unfolding wait_for_exit stays_alive after_polls
  wait_for_exit_alive pid polls w h = ground (arith, poll_exit_alive pid polls (is_alive pid w).1)

  wait_for_exit_gone :
      (pid polls : ℕ) (w : World)
      → stays_alive pid (suc polls) w ≡ false
      → (wait_for_exit control pid polls w).0 ≡ true
  unfolding wait_for_exit stays_alive
  wait_for_exit_gone pid polls w h = ground (arith, poll_exit_gone pid polls (is_alive pid w).1)

  -- The outcome that the polls call for: `first` after the SIGTERM, `second` after the SIGKILL.
  unfoldable pub outcome_of : Bool → Bool → TerminationOutcome
  outcome_of false second = exited_after_terminate
  outcome_of true false = forced_kill
  outcome_of true true = did_not_exit

  -- The report of a termination, whatever the world after it.
  abbrev pub reported : Result MonitorError (TerminationReport × World) → Option TerminationReport
  reported (ok (r, w)) = some r
  reported (err e) = none

  -- Where the signals are delivered, the report of a termination names its target and the peak, and
  -- its outcome is told by the polls after each signal: gone within the grace polls of SIGTERM,
  -- gone within those of SIGKILL, or neither.
  pub terminate_attempt_outcome :
      (target : RunningAttempt) (peak grace : ℕ) (w w₁ w₃ : World)
      → signal target.pid terminate w ≡ ok w₁
      → (stays_alive target.pid (suc grace) w₁ ≡ true
          → signal target.pid kill (after_polls target.pid (suc grace) w₁) ≡ ok w₃)
      → reported (terminate_attempt control target peak grace w)
        ≡ some (
            report control target peak (
              outcome_of
                (stays_alive target.pid (suc grace) w₁)
                (stays_alive target.pid (suc grace) w₃)))
  unfolding terminate_attempt outcome_of
  terminate_attempt_outcome target peak grace w w₁ w₃ s k =
      elim (Bool-cases (stays_alive target.pid (suc grace) w₁)) [
        | inl a ↦ elim (Bool-cases (stays_alive target.pid (suc grace) w₃)) [
          | inl b ↦ ground (
            arith,
            k a,
            wait_for_exit_alive target.pid grace w₁ a,
            wait_for_exit_alive target.pid grace w₃ b,
          )
          | inr b ↦ ground (
            arith,
            k a,
            wait_for_exit_alive target.pid grace w₁ a,
            wait_for_exit_gone target.pid grace w₃ b,
          )
        ]
        | inr a ↦ ground (arith, wait_for_exit_gone target.pid grace w₁ a)
      ]
