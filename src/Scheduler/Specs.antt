-- ===== src/Scheduler/Specs.antt =====
-- crates/zkie-runtime/src/scheduler.rs, spec_for: a worker gets what was reserved for its candidate.
use zk_ie.Common.{ℕ, zero, suc, ◌+◌, ◌≤◌, true, Result, ok, ◌≡◌, refl, ap, ◌∙◌, arith, length}
use zk_ie.Common.Text.{codes}
use zk_ie.Common.Chars.{Chars}
use zk_ie.Identity.{Digest32}
use zk_ie.Resource.{ResourceCapacity, fits}
use zk_ie.Scheduler.{SchedulableJob}
use zk_ie.Worker.{ProtocolError, WorkerJob, WorkerSpec, worker_spec, count_up}
use zk_ie.Worker.Specs.{worker_spec_iff}

unfoldable pub spec_for :
    SchedulableJob → Digest32 → Chars → WorkerJob → Chars → Result ProtocolError WorkerSpec
spec_for candidate run_digest attempt_id job staged_output_dir =
    worker_spec run_digest (codes candidate.job_id) attempt_id job staged_output_dir
      candidate.request

length-count_up : (n from : ℕ) → length (count_up n from) ≡ n
unfolding count_up
length-count_up zero from = refl
length-count_up (suc n) from = ap suc (length-count_up n (from + 1))

-- A specification that is made for a candidate has no more threads and no more devices than a
-- capacity that the request of the candidate fits.
pub spec_for-fits :
    (candidate : SchedulableJob) (capacity : ResourceCapacity) (run_digest : Digest32)
    (attempt_id : Chars) (job : WorkerJob) (dir : Chars) {s : WorkerSpec}
    → fits capacity candidate.request ≡ true
    → spec_for candidate run_digest attempt_id job dir ≡ ok s
    → (s.rayon_threads ≤ capacity.cpu_cores) × (length s.cuda_devices ≤ capacity.gpu_count)
unfolding spec_for fits
spec_for-fits candidate capacity run_digest attempt_id job dir {s} f h =
    let p =
      (worker_spec_iff run_digest (codes candidate.job_id) attempt_id job dir candidate.request s).0
        h in
    let a = p.2 in
    let n : length s.cuda_devices ≡ candidate.request.gpu_count =
      ap length a.devices ∙ length-count_up candidate.request.gpu_count 0 in
    (ground (arith, f, a.threads), ground (arith, f, n))
