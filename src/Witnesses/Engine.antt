-- ===== src/Witnesses/Engine.antt =====
-- The queue engine on a plan of two verification jobs, and objects that are committed.
use zk_ie.Common.{Bool, true, false, some, List, [], ◌∷◌, ok, err, String, ◌≡◌, refl, inl}
use zk_ie.Common.Int.{ℤ}
use zk_ie.Common.Sort.{sort_by}
use zk_ie.Common.Text.{codes, decimal}
use zk_ie.Monitor.{MemoryAction}
use zk_ie.Resource.{ResourceCapacity}
use zk_ie.State.{JobKind, JobState, JobEvent, is_identifier, next_state}
use zk_ie.State.Names.{kind_as_str}
use zk_ie.Db.Tables.{RunDb}
use zk_ie.Db.Jobs.{empty_run, insert_job, add_dependency}
use zk_ie.Db.Apply.{
  apply_event_tx, attempts_after, audited, current_state, job_after, next_of, references_ok,
}
use zk_ie.Db.Attempts.{
  begin_attempt, insert_attempt, require_unique_open_attempt, start_matches_kind,
}
use zk_ie.Db.Failures.{complete_verification, insert_verification, require_verification_source}
use zk_ie.Db.Commits.{Verified, commit_verified_artifact}
use zk_ie.Db.Commits.Laws.Landing.{commit_verified_artifact-Lands, Lands}
use zk_ie.Db.Readiness.{refresh_readiness, predecessor_states, refresh_one}
use zk_ie.Db.Steps.{Reached, empty, planned}
use zk_ie.Worker.{WorkerJobKind, WorkerSpec, WorkerOutcome, for_spec}
use zk_ie.Queue.{
  PlannedJob, QueuePlan, Runtime, JobBinding, Published, transact, reads, verification_rejected,
  unknown_predecessor, ◌>>=◌,
}
use zk_ie.Queue.Plans.{existing, create_jobs, id_of, add_edges, connect, ensure_planned, Ids}
use zk_ie.Queue.Rounds.{run_queue, finish_success, finish_of}
use zk_ie.Queue.Planning.{ensure_planned_again}
use zk_ie.Queue.Runs.{run_queue-Reached}
use zk_ie.Queue.Verdicts.{HasVerified, finish_success-verdict, finish_success-rejected}
use zk_ie.Witnesses.Runs.{plan, begun_run, after}

abbrev machine : ResourceCapacity
machine = record { cpu_cores = 8; ram_bytes = 1000; gpu_count = 0; gpu_vram_bytes_per_device = 0 }

abbrev published : Published
published = record {
  verifier = "native";
  artifact_id = some "a1";
  is_artifact = true;
  object_digest = "d1";
  identity_digest = "i1";
  durable = true;
  pinned = true;
}

-- Workers that succeed, and a verifier that accepts.
abbrev willing : Bool → Runtime
willing verdict = record {
  launch = λ db s.
      ok (for_spec s WorkerOutcome.succeeded (record { peak_resident_bytes = 1; wall_millis = 1 }));
  verifies = λ db job s. verdict;
  publish = λ db job attempt. ok published;
  action = λ db. MemoryAction.admit;
  makes_dir = λ db path. true;
  clock_ms = λ db. 7;
  clock_seconds = λ db. ℤ.pos 0;
  staging_root = codes "/tmp";
  capacity = machine;
  max_rounds = 5;
}

abbrev planned_job : String → List String → PlannedJob
planned_job name depends_on = record {
  logical_id = name;
  kind = JobKind.leaf_verification;
  depends_on = depends_on;
  request = record { cpu_cores = 2; ram_bytes = 100; gpu_count = 0; gpu_vram_bytes_per_device = 0 };
  job = record { kind = WorkerJobKind.leaf_verification; fields = [] };
  binding = JobBinding.proof;
}

abbrev queue_plan : QueuePlan
queue_plan = record {
  run_digest = record { bytes = [] };
  jobs = planned_job "v" [] ∷ planned_job "w" ("v" ∷ []) ∷ [];
}

run_queue-Reached_example : Reached (run_queue (willing true) queue_plan (empty_run "r")).0
run_queue-Reached_example =
    run_queue-Reached (willing true) queue_plan (empty_run "r") (planned _ (empty "r"))
      (inl (empty "r"))

-- The jobs of the run of two jobs are known to the plan.
abbrev no_ids : Ids
no_ids = []

ensure_planned_again_example : (ids : Ids) × (ensure_planned queue_plan plan ≡ (plan, ok ids))
unfolding insert_job add_dependency is_identifier existing sort_by
ensure_planned_again_example =
    ensure_planned_again queue_plan plan (("r:v", refl), (("r:w", refl), tt))

abbrev some_spec : WorkerSpec
some_spec = record {
  schema_version = 1;
  run_digest = record { bytes = [] };
  job_id = codes "r:v";
  attempt_id = codes "r:v:attempt:1";
  job = record { kind = WorkerJobKind.leaf_verification; fields = [] };
  staged_output_dir = codes "/tmp/a";
  rayon_threads = 2;
  cuda_devices = [];
}

abbrev finished_run : RunDb
finished_run =
    (finish_success (willing true) (planned_job "v" []) "r:v" "r:v:attempt:1" some_spec begun_run).0

finish_success-verdict_example :
    ((willing true).verifies begun_run (planned_job "v" []) some_spec ≡ true)
    × HasVerified "r:v" finished_run
unfolding insert_job add_dependency is_identifier refresh_readiness sort_by refresh_one
    predecessor_states apply_event_tx current_state next_of next_state references_ok attempts_after
    audited job_after begin_attempt start_matches_kind decimal insert_attempt
    require_unique_open_attempt require_verification_source insert_verification
    complete_verification finish_success finish_of transact reads ◌>>=◌
finish_success-verdict_example =
    finish_success-verdict (willing true) (planned_job "v" []) "r:v" "r:v:attempt:1" some_spec
      begun_run {db' = finished_run} refl

-- An output that the verifier rejects leaves the attempt open.
rejected_run :
    finish_success (willing false) (planned_job "v" []) "r:v" "r:v:attempt:1" some_spec begun_run
    ≡ (begun_run, err (verification_rejected "r:v:attempt:1"))
rejected_run =
    finish_success-rejected (willing false) (planned_job "v" []) "r:v" "r:v:attempt:1" some_spec
      begun_run refl

-- A plan that names an unknown job is refused, and its jobs stay; the next call accepts it, without
-- the edge.
abbrev bad_plan : QueuePlan
bad_plan = record {
  run_digest = record { bytes = [] };
  jobs = planned_job "v" [] ∷ planned_job "w" ("v" ∷ "x" ∷ []) ∷ planned_job "u" ("v" ∷ []) ∷ [];
}

abbrev half_planned : RunDb
half_planned = (ensure_planned bad_plan (empty_run "r")).0

bad_plan_refused : (ensure_planned bad_plan (empty_run "r")).1 ≡ err (unknown_predecessor "w" "x")
unfolding ensure_planned create_jobs connect add_edges id_of transact ◌>>=◌ existing sort_by
    insert_job add_dependency is_identifier
bad_plan_refused = refl

bad_plan_accepted :
    (ensure_planned bad_plan half_planned).1
    ≡ ok (("v", "r:v", false) ∷ ("w", "r:w", false) ∷ ("u", "r:u", false) ∷ [])
unfolding ensure_planned create_jobs connect add_edges id_of transact ◌>>=◌ existing sort_by
    insert_job add_dependency is_identifier
bad_plan_accepted = refl

edge_missing :
    (ensure_planned bad_plan half_planned).0.dependencies
    ≡ record { predecessor = "r:v"; successor = "r:w" } ∷ []
unfolding ensure_planned create_jobs connect add_edges id_of transact ◌>>=◌ existing sort_by
    insert_job add_dependency is_identifier
edge_missing = refl

abbrev one_aggregate : RunDb
one_aggregate = after (empty_run "r") (insert_job (empty_run "r") "a" JobKind.native_aggregate)

abbrev ready_aggregate : RunDb
ready_aggregate = after one_aggregate (refresh_readiness one_aggregate 1)

abbrev begun_aggregate : RunDb
begun_aggregate =
    after ready_aggregate (begin_attempt ready_aggregate "r:a" JobEvent.start_verification 2)

abbrev aggregate : Verified
aggregate = record {
  run_id = "r";
  job_id = "r:a";
  attempt_id = "r:a:attempt:1";
  job_kind = JobKind.native_aggregate;
  verifier = "native";
  artifact_id = some "a1";
  is_artifact = true;
  object_digest = "d1";
  durable = true;
  pinned = true;
}

abbrev committed_run : RunDb
committed_run = after begun_aggregate (commit_verified_artifact begun_aggregate aggregate 3)

is_committed :
    commit_verified_artifact begun_aggregate aggregate 3 ≡ ok (committed_run, JobState.verified)
unfolding insert_job add_dependency is_identifier refresh_readiness sort_by refresh_one
    predecessor_states apply_event_tx current_state next_of next_state references_ok attempts_after
    audited job_after begin_attempt start_matches_kind decimal insert_attempt
    require_unique_open_attempt require_verification_source insert_verification
    commit_verified_artifact kind_as_str
is_committed = refl

commit_verified_artifact-Lands_example :
    (id : String) × (aggregate.artifact_id ≡ some id)
    × (aggregate.run_id ≡ begun_aggregate.run_id)
    × (aggregate.is_artifact ≡ true)
    × (aggregate.durable ≡ true)
    × Lands begun_aggregate aggregate begun_aggregate.artifacts committed_run.artifacts id
        committed_run JobState.verified
commit_verified_artifact-Lands_example =
    commit_verified_artifact-Lands begun_aggregate aggregate 3 is_committed
