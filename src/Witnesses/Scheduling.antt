-- ===== src/Witnesses/Scheduling.antt =====
-- The theorems on the scheduler, on a host that can hold one of two waiting jobs.
use zk_ie.Common.{length, ◌≤◌}
use zk_ie.Common.Text.{codes}
use zk_ie.Identity.{Digest32}
use zk_ie.Worker.{WorkerJob, WorkerJobKind, WorkerSpec, worker_spec}
use zk_ie.Scheduler.Specs.{spec_for, spec_for-fits}
use zk_ie.Db.Apply.{
  apply_event_tx, attempts_after, audited, current_state, job_after, next_of, references_ok,
}
use zk_ie.State.{is_identifier, next_state}
use zk_ie.Db.Jobs.{add_dependency, insert_job}
use zk_ie.Common.Sort.{sort_by}
use zk_ie.Db.Readiness.{
  predecessor_states, refresh_one, refresh_readiness, required_predecessors_verified,
}
use zk_ie.Common.{◌+◌, ◌≡◌, refl, true, none, some, ok, [], ◌∷◌, All, get_elem?}
use zk_ie.Common.Int.{ℤ, saturating_sub}
use zk_ie.Resource.{ResourceCapacity, fits, checked_reserve}
use zk_ie.Resource.Laws.{request}
use zk_ie.Scheduler.{
  SchedulableJob, SchedulerConfig, SchedulerDecision, new_config, fit_score, normalized_leftover,
  compare_fit, best_from, fill, is_aged, place, first_duplicate, is_eligible, eligible_of, clamp,
  decide_ready, decide,
}
use zk_ie.Scheduler.Fit.{LeFit, best_fit_lem}
use zk_ie.Scheduler.Fill.{total, Granted-conserves}
use zk_ie.Scheduler.Decide.{Decided, decide-Decided}
use zk_ie.Scheduler.Place.{Placed, place-Placed}
use zk_ie.Scheduler.Aging.{IsServed, decide-IsServed}
use zk_ie.Witnesses.Runs.{plan, ready_run}

abbrev host : ResourceCapacity
host = record { cpu_cores = 8; ram_bytes = 100; gpu_count = 0; gpu_vram_bytes_per_device = 0 }

abbrev config : SchedulerConfig
config = new_config host

abbrev small : SchedulableJob
small = record { job_id = "r:v"; request = request 2 30 0 0; ready_since_unix_seconds = ℤ.pos 100 }

abbrev large : SchedulableJob
large = record { job_id = "r:w"; request = request 4 80 0 0; ready_since_unix_seconds = ℤ.pos 50 }

-- What is left of the host beside the large job, and beside the small one.
abbrev beside_large : ResourceCapacity
beside_large = record {
  cpu_cores = 4;
  ram_bytes = 20;
  gpu_count = 0;
  gpu_vram_bytes_per_device = 0;
}

abbrev beside_small : ResourceCapacity
beside_small = record {
  cpu_cores = 6;
  ram_bytes = 70;
  gpu_count = 0;
  gpu_vram_bytes_per_device = 0;
}

best_fit_lem_example :
    (get_elem? (small ∷ large ∷ []) 1 ≡ some large)
    × (fits host large.request ≡ true)
    × All (λ d. fits host d.request ≡ true → LeFit host large d) (small ∷ large ∷ [])
unfolding best_from fits compare_fit fit_score normalized_leftover refresh_readiness sort_by
    add_dependency insert_job is_identifier refresh_one predecessor_states apply_event_tx
    current_state next_of next_state references_ok attempts_after audited job_after
    required_predecessors_verified
best_fit_lem_example = best_fit_lem host (small ∷ large ∷ []) {out = (1, large)} refl

Granted-conserves_example :
    (total (λ r. r.cpu_cores) (small ∷ []) + beside_small.cpu_cores ≡ host.cpu_cores)
    × (total (λ r. r.ram_bytes) (small ∷ []) + beside_small.ram_bytes ≡ host.ram_bytes)
    × (total (λ r. r.gpu_count) (small ∷ []) + beside_small.gpu_count ≡ host.gpu_count)
unfolding checked_reserve fits
Granted-conserves_example =
    Granted-conserves host (small ∷ []) beside_small (beside_small, refl, refl)

place-Placed_example :
    (d : SchedulerDecision) × (place config host (large ∷ small ∷ []) (ℤ.pos 120) ≡ ok d)
    × Placed host (large ∷ small ∷ []) d
place-Placed_example = place-Placed config host (large ∷ small ∷ []) (ℤ.pos 120)

-- The one job of the run that is ready is started; the other one's predecessor is not verified.
abbrev started : SchedulerDecision
started = record { selected = "r:v" ∷ []; remaining = beside_small; reserved_for = none }

is_decided : decide config plan (large ∷ small ∷ []) host 1 (ℤ.pos 120) ≡ (ready_run, ok started)
unfolding decide decide_ready first_duplicate eligible_of is_eligible clamp place is_aged fits
    saturating_sub best_from fill checked_reserve compare_fit fit_score normalized_leftover
    refresh_readiness sort_by add_dependency insert_job is_identifier refresh_one predecessor_states
    apply_event_tx current_state next_of next_state references_ok attempts_after audited job_after
    required_predecessors_verified
is_decided = refl

decide-Decided_example : Decided config ready_run (large ∷ small ∷ []) host started
decide-Decided_example =
    decide-Decided config plan (large ∷ small ∷ []) host 1 (ℤ.pos 120) {db' = ready_run}
      {d = started} is_decided

-- Later the small job has aged, and on a host with less memory than it needs nothing starts.
abbrev little : ResourceCapacity
little = record { cpu_cores = 8; ram_bytes = 20; gpu_count = 0; gpu_vram_bytes_per_device = 0 }

abbrev held : SchedulerDecision
held = record { selected = []; remaining = little; reserved_for = some "r:v" }

is_held : decide config plan (large ∷ small ∷ []) little 1 (ℤ.pos 900) ≡ (ready_run, ok held)
unfolding decide decide_ready first_duplicate eligible_of is_eligible clamp place is_aged fits
    saturating_sub best_from fill checked_reserve compare_fit fit_score normalized_leftover
    refresh_readiness sort_by add_dependency insert_job is_identifier refresh_one predecessor_states
    apply_event_tx current_state next_of next_state references_ok attempts_after audited job_after
    required_predecessors_verified
is_held = refl

small_ready : is_eligible ready_run small ≡ ok true
unfolding is_eligible required_predecessors_verified refresh_readiness sort_by add_dependency
    insert_job is_identifier refresh_one predecessor_states apply_event_tx current_state next_of
    next_state references_ok attempts_after audited job_after
small_ready = refl

small_aged : is_aged config (ℤ.pos 900) small ≡ true
unfolding is_aged fits saturating_sub
small_aged = refl

decide-IsServed_example :
    IsServed config ready_run (large ∷ small ∷ []) little (ℤ.pos 900) held small
decide-IsServed_example =
    decide-IsServed config plan (large ∷ small ∷ []) little 1 (ℤ.pos 900) {db' = ready_run}
      {d = held} 1 {c = small} is_held refl small_ready small_aged

abbrev some_job : WorkerJob
some_job = record { kind = WorkerJobKind.witness; fields = [] }

abbrev no_digest : Digest32
no_digest = record { bytes = [] }

abbrev large_spec : WorkerSpec
large_spec = record {
  schema_version = 1;
  run_digest = no_digest;
  job_id = codes large.job_id;
  attempt_id = codes "r:w:attempt:1";
  job = some_job;
  staged_output_dir = codes "/tmp/a";
  rayon_threads = large.request.cpu_cores;
  cuda_devices = [];
}

spec_for-fits_example :
    (large_spec.rayon_threads ≤ host.cpu_cores) × (length large_spec.cuda_devices ≤ host.gpu_count)
unfolding spec_for worker_spec fits
spec_for-fits_example =
    spec_for-fits large host no_digest (codes "r:w:attempt:1") some_job (codes "/tmp/a")
      {s = large_spec} refl refl
