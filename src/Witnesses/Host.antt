-- ===== src/Witnesses/Host.antt =====
-- The theorems on resources, reservations and the memory monitor, at concrete inputs.
use zk_ie.Common.{◌≡◌, refl, ◌↔◌, Bool, true, false, ok, some, none, [], ◌∷◌, Any, All}
use zk_ie.Common.Int.{ℤ}
use zk_ie.Resource.{ResourceRequest, ResourceCapacity, fits, checked_reserve}
use zk_ie.Resource.Laws.{request, Reserved, checked_reserve-Reserved}
use zk_ie.Estimate.{calibrated_reservation, calibrated_ram, Covers, calibrated_reservation-Covers}
use zk_ie.Monitor.{
  MemoryLimits, observe, RunningAttempt, cmp_attempt, max_from, newest_attempt, ProcessControl,
  terminate, kill, report, terminate_attempt,
}
use zk_ie.Monitor.Policy.{after, action_of, observe-action_of}
use zk_ie.Monitor.Newest.{IsNotAfter, newest_attempt_lem, newest_attempt-none_iff}
use zk_ie.Monitor.Terminate.{
  reported, stays_alive, after_polls, outcome_of, terminate_attempt_outcome,
}

abbrev host : ResourceCapacity
host = record {
  cpu_cores = 16;
  ram_bytes = 64000;
  gpu_count = 2;
  gpu_vram_bytes_per_device = 24000;
}

abbrev job : ResourceRequest
job = request 4 16000 2 8000

abbrev left : ResourceCapacity
left = record { cpu_cores = 12; ram_bytes = 48000; gpu_count = 0; gpu_vram_bytes_per_device = 0 }

checked_reserve-Reserved_example : Reserved host job left
unfolding checked_reserve fits
checked_reserve-Reserved_example = checked_reserve-Reserved host job {rest = left} refl

calibrated_reservation-Covers_example : Covers job (request 4 23000 2 8000) 20000
unfolding calibrated_reservation calibrated_ram
calibrated_reservation-Covers_example =
    calibrated_reservation-Covers job 20000 {r = request 4 23000 2 8000} refl

abbrev limits : MemoryLimits
limits = record { admission_bytes = 100; hard_limit_bytes = 200 }

-- Three breaches in a row end an attempt.
observe-action_of_example :
    (observe (after limits (300 ∷ 250 ∷ 50 ∷ [])) 201).1
    ≡ action_of limits (201 ∷ 300 ∷ 250 ∷ 50 ∷ [])
observe-action_of_example = observe-action_of limits (300 ∷ 250 ∷ 50 ∷ []) 201

abbrev older : RunningAttempt
older = record { attempt = "r:a:attempt:1"; pid = 10; started_at_unix_ms = ℤ.pos 5 }

abbrev newer : RunningAttempt
newer = record { attempt = "r:b:attempt:1"; pid = 11; started_at_unix_ms = ℤ.pos 9 }

newest_attempt_lem_example :
    Any (λ y. y ≡ newer) (older ∷ newer ∷ []) × All (IsNotAfter newer) (older ∷ newer ∷ [])
unfolding newest_attempt max_from cmp_attempt
newest_attempt_lem_example = newest_attempt_lem (older ∷ newer ∷ []) {best = newer} refl

newest_attempt-none_iff_example : (newest_attempt (older ∷ []) ≡ none) ↔ (older ∷ [] ≡ [])
newest_attempt-none_iff_example = newest_attempt-none_iff (older ∷ [])

-- A process that takes no notice of SIGTERM and is gone at the first poll after a SIGKILL.
abbrev stubborn : ProcessControl
stubborn = record {
  World = Bool;
  signal = λ pid s w. elim s [ terminate ↦ ok w | kill ↦ ok false ];
  is_alive = λ pid w. (w, w);
}

terminate_attempt_outcome_example :
    reported stubborn (terminate_attempt stubborn newer 7000 2 true)
    ≡ some (
        report stubborn newer 7000
          (outcome_of stubborn (stays_alive stubborn 11 3 true) (stays_alive stubborn 11 3 false)))
unfolding after_polls
terminate_attempt_outcome_example =
    terminate_attempt_outcome stubborn newer 7000 2 true true false refl (λ _. refl)
