-- ===== src/State/Transition.antt =====
-- What the transition function allows, and what any run of events from `pending` shows.
use zk_ie.Common.{
  ◌≡◌, refl, ◌≢◌, ◌↔◌, ◌⊎◌, inl, inr, Bool, true, false, some, List, [], ◌∷◌, Result, ok, err,
  ◌>>=◌, >>=-eq-ok, arith, Any, String,
}
use zk_ie.State.{
  JobState, JobState-discrete, JobEvent, FailureKind, TransitionError, is_active, is_verifiable,
  starts_attempt, transition,
}

-- A job becomes verified only by a success that names its verification record, and only where a
-- verification may end.
pub transition-verified :
    (s : JobState) (e : JobEvent)
    → transition s e ≡ ok JobState.verified
    → (r : String) × (e ≡ JobEvent.verification_succeeded (some r)) × (is_verifiable s ≡ true)
unfolding transition
transition-verified s e h = ground arith

-- The state that an event enters when it is the start of an attempt or the failure of one.
abbrev pub Entered : JobEvent → JobState → Type 0
Entered (JobEvent.execution_failed f) t =
    (t ≡ JobState.execution_failed) × (f.kind ≡ FailureKind.execution)
Entered (JobEvent.verification_failed f) t =
    (t ≡ JobState.verification_failed) × (f.kind ≡ FailureKind.verification)
Entered (JobEvent.resource_exceeded f) t =
    (t ≡ JobState.resource_exceeded) × (f.kind ≡ FailureKind.resource_exceeded)
Entered (JobEvent.interrupted f) t = (t ≡ JobState.interrupted) × (f.kind ≡ FailureKind.interrupted)
Entered e t = (is_active t ≡ starts_attempt e)

-- Exactly the start events enter an active state, and a failure is recorded only under its own
-- kind, in the state of that kind.
pub transition-Entered :
    (s : JobState) (e : JobEvent) {t : JobState} → transition s e ≡ ok t → Entered e t
unfolding transition
transition-Entered s e h = ground arith

-- The states that no event leaves.
abbrev pub is_final : JobState → Bool
is_final JobState.verified = true
is_final JobState.verification_failed = true
is_final JobState.blocked = true
is_final _ = false

-- verified, verification_failed and blocked refuse every event, and every other state accepts
-- one.
pub transition_final_iff :
    (s : JobState)
    → (is_final s ≡ true) ↔ ((e : JobEvent) → transition s e ≡ err (record { from = s; event = e }))
unfolding transition
transition_final_iff s = (stuck s, leaves s)
  where
    stuck :
        (s : JobState)
        → is_final s ≡ true
        → (e : JobEvent) → transition s e ≡ err (record { from = s; event = e })
    stuck s h e = ground arith

    leaves :
        (s : JobState)
        → ((e : JobEvent) → transition s e ≡ err (record { from = s; event = e }))
        → is_final s ≡ true
    leaves JobState.pending h = cc (h JobEvent.dependencies_satisfied)
    leaves JobState.requeued h = cc (h JobEvent.dependencies_satisfied)
    leaves JobState.ready h = cc (h JobEvent.start_witnessing)
    leaves JobState.witnessing h = cc (h JobEvent.witness_completed)
    leaves JobState.witness_ready h = cc (h JobEvent.start_preparing)
    leaves JobState.preparing h = cc (h JobEvent.preparation_completed)
    leaves JobState.prepared h = cc (h (JobEvent.verification_succeeded (some "")))
    leaves JobState.proving h = cc (h JobEvent.proof_produced)
    leaves JobState.proved h = cc (h JobEvent.start_verification)
    leaves JobState.verifying h = cc (h (JobEvent.verification_succeeded (some "")))
    leaves JobState.execution_failed h = cc (h JobEvent.retry_execution)
    leaves JobState.resource_exceeded h = cc (h JobEvent.retry_resource_exceeded)
    leaves JobState.interrupted h = cc (h JobEvent.recovery_requeue)
    leaves JobState.verified h = refl
    leaves JobState.verification_failed h = refl
    leaves JobState.blocked h = refl

-- Events in order; the first one that is refused ends the run.
unfoldable pub run : JobState → List JobEvent → Result TransitionError JobState
run s [] = ok s
run s (e ∷ es) = do t ← transition s e; run t es

-- A job waits for its dependencies; a job is idle while no attempt of it has been started.
abbrev pub is_waiting : JobState → Bool
is_waiting JobState.pending = true
is_waiting JobState.requeued = true
is_waiting JobState.blocked = true
is_waiting _ = false

abbrev pub is_idle : JobState → Bool
is_idle JobState.ready = true
is_idle s = is_waiting s

waiting_step :
    (s : JobState) (e : JobEvent) (t : JobState)
    → transition s e ≡ ok t
    → is_waiting s ≡ true
    → (e ≡ JobEvent.dependencies_satisfied) ⊎ (is_waiting t ≡ true)
unfolding transition
waiting_step s e t h w = ground arith

idle_step :
    (s : JobState) (e : JobEvent) (t : JobState)
    → transition s e ≡ ok t
    → is_idle s ≡ true
    → (starts_attempt e ≡ true) ⊎ (is_idle t ≡ true)
unfolding transition
idle_step s e t h w = ground arith

run-cons :
    (s : JobState) (e : JobEvent) (es : List JobEvent) {u : JobState}
    → run s (e ∷ es) ≡ ok u
    → (t : JobState) × (transition s e ≡ ok t) × (run t es ≡ ok u)
unfolding run
run-cons s e es h = >>=-eq-ok (transition s e) (λ t. run t es) h

module _ {u : JobState} where
  run_waiting :
      (s : JobState) (es : List JobEvent)
      → run s es ≡ ok u
      → is_waiting s ≡ true
      → is_waiting u ≡ false
      → Any (λ e. e ≡ JobEvent.dependencies_satisfied) es
  unfolding run
  run_waiting s [] h w v = ground arith
  run_waiting s (e ∷ es) h w v =
      let (t, step, rest) = run-cons s e es h in
      elim (waiting_step s e t step w) [
        | inl now ↦ inl now
        | inr still ↦ inr (run_waiting t es rest still v)
      ]

  run_idle :
      (s : JobState) (es : List JobEvent)
      → run s es ≡ ok u
      → is_idle s ≡ true
      → is_idle u ≡ false
      → Any (λ e. starts_attempt e ≡ true) es
  unfolding run
  run_idle s [] h w v = ground arith
  run_idle s (e ∷ es) h w v =
      let (t, step, rest) = run-cons s e es h in
      elim (idle_step s e t step w) [
        | inl now ↦ inl now
        | inr still ↦ inr (run_idle t es rest still v)
      ]

-- The event names a verification record and reports its success.
abbrev pub IsRecorded : JobEvent → Type 0
IsRecorded e = (r : String) × (e ≡ JobEvent.verification_succeeded (some r))

run-IsRecorded :
    (s : JobState) (es : List JobEvent)
    → run s es ≡ ok JobState.verified
    → s ≢ JobState.verified
    → Any IsRecorded es
unfolding run
run-IsRecorded s [] h n = absurd (n (ground arith))
run-IsRecorded s (e ∷ es) h n =
    let (t, step, rest) = run-cons s e es h in
    elim (JobState-discrete t JobState.verified) [
      | yes v ↦ let (r, is, _) = transition-verified s e (rw v at step) in inl (r, is)
      | no other ↦ inr (run-IsRecorded t es rest other)
    ]

-- Any sequence of events that takes a new job to verified satisfied its dependencies, started an
-- attempt and reported a success under a verification record.
pub run-verified :
    (es : List JobEvent)
    → run JobState.pending es ≡ ok JobState.verified
    → Any (λ e. e ≡ JobEvent.dependencies_satisfied) es
      × Any (λ e. starts_attempt e ≡ true) es
      × Any IsRecorded es
run-verified es h = (
  run_waiting JobState.pending es h refl refl,
  run_idle JobState.pending es h refl refl,
  run-IsRecorded JobState.pending es h (λ e. cc),
)
