-- ===== src/Witnesses/States.antt =====
-- The theorems on the states of a job and on their texts, at concrete inputs.
use zk_ie.Common.{◌≡◌, refl, Any, List, [], ◌∷◌, some, true}
use zk_ie.State.{JobState, JobEvent, transition, next_state, starts_attempt}
use zk_ie.State.Transition.{transition-Entered, Entered, run, run-verified, IsRecorded}

-- A verification job that succeeds at its first attempt.
abbrev history : List JobEvent
history =
    JobEvent.dependencies_satisfied
    ∷ JobEvent.start_verification
    ∷ JobEvent.verification_succeeded (some "r:v:verification:1")
    ∷ []

run-verified_example :
    Any (λ e. e ≡ JobEvent.dependencies_satisfied) history
    × Any (λ e. starts_attempt e ≡ true) history
    × Any IsRecorded history
unfolding run transition next_state
run-verified_example = run-verified history refl

transition-Entered_example : Entered JobEvent.proof_produced JobState.proved
unfolding run transition next_state
transition-Entered_example = transition-Entered JobState.proving JobEvent.proof_produced refl
