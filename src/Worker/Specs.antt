-- ===== src/Worker/Specs.antt =====
-- crates/zkie-runtime/src/worker.rs: which specifications are valid, and what is made of a request.
use zk_ie.Common.{
  ℕ, zero, suc, ◌+◌, ◌≤◌, ◌<◌, true, false, List, [], ◌∷◌, ◌++◌, ok, ◌>>◌, ◌≡◌, ◌≢◌, ◌↔◌, refl, ap,
  ◌∙◌, arith, All, All-map_of, any, length, ◌==◌, ok-injective, >>=-eq-ok,
}
use zk_ie.Common.Chars.{Chars}
use zk_ie.Identity.{Digest32}
use zk_ie.Resource.{ResourceRequest}
use zk_ie.Worker.{
  WorkerJob, WorkerSpec, schema, is_absolute, check_devices, validate_spec, count_up, worker_spec,
}

-- No device is listed twice.
abbrev pub Distinct : List ℕ → Type 0
Distinct [] = Unit
Distinct (d ∷ ds) = All (λ e. e ≢ d) ds × Distinct ds

abbrev Fresh : List ℕ → ℕ → Type 0
Fresh seen d = any (λ e. e == d) seen ≡ false

Fresh-append : (seen : List ℕ) (d e : ℕ) → Fresh (seen ++ d ∷ []) e ↔ (Fresh seen e × (e ≢ d))
Fresh-append [] d e = ground arith
Fresh-append (x ∷ seen) d e = ground (arith, Fresh-append seen d e)

Fresh-All :
    (seen : List ℕ) (d : ℕ) (ds : List ℕ)
    → All (Fresh (seen ++ d ∷ [])) ds ↔ (All (Fresh seen) ds × All (λ e. e ≢ d) ds)
Fresh-All seen d [] = ground arith
Fresh-All seen d (e ∷ ds) = ground (arith, Fresh-append seen d e, Fresh-All seen d ds)

check_devices_iff :
    (seen ds : List ℕ) → (check_devices seen ds ≡ ok tt) ↔ (All (Fresh seen) ds × Distinct ds)
unfolding check_devices
check_devices_iff seen [] = ground arith
check_devices_iff seen (d ∷ ds) =
    ground (arith, check_devices_iff (seen ++ d ∷ []) ds, Fresh-All seen d ds)

Fresh-nil : (ds : List ℕ) → All (Fresh []) ds
Fresh-nil [] = tt
Fresh-nil (d ∷ ds) = (refl, Fresh-nil ds)

-- A specification is valid exactly where it has the schema's version, an absolute directory, a thread
-- and no device twice.
pub validate_spec_iff :
    (s : WorkerSpec)
    → (validate_spec s ≡ ok tt) ↔ (
        (s.schema_version ≡ schema)
        × (is_absolute s.staged_output_dir ≡ true)
        × (s.rayon_threads ≢ 0)
        × Distinct s.cuda_devices)
unfolding validate_spec
validate_spec_iff s = ground (arith, check_devices_iff [] s.cuda_devices, Fresh-nil s.cuda_devices)

count_up-All : (n from : ℕ) → All (λ d. (from ≤ d) × (d < from + n)) (count_up n from)
unfolding count_up
count_up-All zero from = tt
count_up-All (suc n) from = (
  (omega arith, omega arith),
  All-map_of _ (λ d. (from ≤ d) × (d < from + suc n)) _ (λ d p. omega arith)
      (count_up-All n (from + 1)),
)

count_up-Distinct : (n from : ℕ) → Distinct (count_up n from)
unfolding count_up
count_up-Distinct zero from = tt
count_up-Distinct (suc n) from = (
  All-map_of _ (λ e. e ≢ from) _ (λ d p. omega arith) (count_up-All n (from + 1)),
  count_up-Distinct n (from + 1),
)

length-count_up : (n from : ℕ) → length (count_up n from) ≡ n
unfolding count_up
length-count_up zero from = refl
length-count_up (suc n) from = omega (arith, length-count_up n (from + 1))

-- What a specification takes from the call and from the request.
pub record IsAssigned (run : Digest32) (job_id attempt_id : Chars) (job : WorkerJob) (dir : Chars)
    (request : ResourceRequest) (s : WorkerSpec) : Type 0 where
  pub version : s.schema_version ≡ schema
  pub digest : s.run_digest ≡ run
  pub job_named : s.job_id ≡ job_id
  pub attempt_named : s.attempt_id ≡ attempt_id
  pub job_kept : s.job ≡ job
  pub dir_kept : s.staged_output_dir ≡ dir
  pub threads : s.rayon_threads ≡ request.cpu_cores
  pub devices : s.cuda_devices ≡ count_up request.gpu_count 0

abbrev assigned : Digest32 → Chars → Chars → WorkerJob → Chars → ResourceRequest → WorkerSpec
assigned run job_id attempt_id job dir request = record {
  schema_version = schema;
  run_digest = run;
  job_id = job_id;
  attempt_id = attempt_id;
  job = job;
  staged_output_dir = dir;
  rayon_threads = request.cpu_cores;
  cuda_devices = count_up request.gpu_count 0;
}

IsAssigned-eq :
    (run : Digest32) (job_id attempt_id : Chars) (job : WorkerJob) (dir : Chars)
    (request : ResourceRequest) (s : WorkerSpec)
    → IsAssigned run job_id attempt_id job dir request s
    → assigned run job_id attempt_id job dir request ≡ s
IsAssigned-eq run job_id attempt_id job dir request s a = cc (
  a.version, a.digest, a.job_named, a.attempt_named, a.job_kept, a.dir_kept, a.threads, a.devices,
)

-- A specification is made exactly for a request of a core with an absolute directory; it has a thread
-- for each core and the devices from 0 to the number of those that the request reserves.
pub worker_spec_iff :
    (run : Digest32) (job_id attempt_id : Chars) (job : WorkerJob) (dir : Chars)
    (request : ResourceRequest) (s : WorkerSpec)
    → (worker_spec run job_id attempt_id job dir request ≡ ok s) ↔ (
        (request.cpu_cores ≢ 0)
        × (is_absolute dir ≡ true)
        × IsAssigned run job_id attempt_id job dir request s)
unfolding worker_spec
worker_spec_iff run job_id attempt_id job dir request s =
    let made = assigned run job_id attempt_id job dir request in
    (
      λ h.
          let (_, valid, is) = >>=-eq-ok (validate_spec made) _ h in
          let p = (validate_spec_iff made).0 valid in
          rw (← ok-injective is) (
            p.2,
            p.1,
            record {
              version = refl;
              digest = refl;
              job_named = refl;
              attempt_named = refl;
              job_kept = refl;
              dir_kept = refl;
              threads = refl;
              devices = refl;
            },
          ),
      λ p.
          let valid : validate_spec made ≡ ok tt =
            (validate_spec_iff made).1 (refl, p.1, p.0, count_up-Distinct request.gpu_count 0) in
          let e : (validate_spec made >> ok made) ≡ ok made = rw valid refl in
          e ∙ ap ok (IsAssigned-eq run job_id attempt_id job dir request s p.2),
    )
