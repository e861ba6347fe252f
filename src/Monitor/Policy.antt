-- ===== src/Monitor/Policy.antt =====
-- The admission policy over a whole run of samples.
use zk_ie.Common.{
  ℕ, suc, ◌*◌, ◌%◌, ◌<◌, ◌≡◌, refl, ◌↔◌, List, [], ◌∷◌, ok, arith, ltb, ◌==◌, if◌then◌else◌,
  u64_size,
}
use zk_ie.Monitor.{
  MemoryLimits, gib_limits, gib_bytes, MemoryAction, admit, freeze_admission, terminate_newest,
  AdmissionPolicy, new_policy, observe,
}

-- MemoryLimits::gib accepts exactly a positive budget below a hard limit that is a u64 number of
-- bytes.
pub gib_limits_iff :
    (a h : ℕ) (l : MemoryLimits)
    → (gib_limits a h ≡ ok l) ↔ (
        (0 < a)
        × (a < h)
        × (h * gib_bytes < u64_size)
        × (l.admission_bytes ≡ a * gib_bytes)
        × (l.hard_limit_bytes ≡ h * gib_bytes))
unfolding gib_limits
gib_limits_iff a h l = (λ e. ground arith, λ e. ground arith)

-- The policy after a run of samples, the newest sample first.
pub after : MemoryLimits → List ℕ → AdmissionPolicy
after limits [] = new_policy limits
after limits (x ∷ older) = (observe (after limits older) x).0

-- How many of the newest samples stand above the hard limit without a break.
pub breach_run : MemoryLimits → List ℕ → ℕ
breach_run limits [] = 0
breach_run limits (x ∷ older) =
    if ltb limits.hard_limit_bytes x then suc (breach_run limits older) else 0

pub after_limits : (limits : MemoryLimits) (xs : List ℕ) → (after limits xs).limits ≡ limits
unfolding after observe new_policy
after_limits limits [] = refl
after_limits limits (x ∷ older) = ground (arith, after_limits limits older)

-- The counter of the policy is the number of breaches in a row, modulo three.
pub after-breaches :
    (limits : MemoryLimits) (xs : List ℕ)
    → (after limits xs).consecutive_hard_breaches ≡ breach_run limits xs % 3
unfolding after breach_run observe new_policy
after-breaches limits [] = refl
after-breaches limits (x ∷ older) =
    ground (arith, after-breaches limits older, after_limits limits older)

-- What the newest sample alone decides, given the run of breaches that it ends.
pub action_of : MemoryLimits → List ℕ → MemoryAction
unfolding breach_run
action_of limits [] = admit
action_of limits (x ∷ older) =
    if ltb limits.hard_limit_bytes x
    then (if breach_run limits (x ∷ older) % 3 == 0 then terminate_newest else freeze_admission)
    else (if ltb limits.admission_bytes x then freeze_admission else admit)

-- After any run of samples the action on a further one depends on the limits and on the run of
-- breaches that it ends: every third breach in a row ends an attempt.
pub observe-action_of :
    (limits : MemoryLimits) (older : List ℕ) (x : ℕ)
    → (observe (after limits older) x).1 ≡ action_of limits (x ∷ older)
unfolding observe action_of breach_run
observe-action_of limits older x =
    ground (arith, after-breaches limits older, after_limits limits older)
