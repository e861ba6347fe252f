-- ===== src/Worker.antt =====
-- crates/zkie-runtime/src/worker.rs: what the scheduler tells a worker and what a worker answers.
-- Texts are lists of code points here, the names of jobs and attempts included. A path is its text,
-- absolute where it begins with a slash.
pub mod Wire
pub mod Rows
pub mod Jobs
pub mod Specs
pub mod RoundTrip
pub mod Launch
pub mod Answers
use zk_ie.Common.{
  ℕ, zero, suc, ◌+◌, Bool, true, false, not, ◌&&◌, ◌||◌, List, [], ◌∷◌, ◌++◌, Option, none, some,
  Result, ok, err, ◌>>=◌, ◌>>◌, guard, Ordering, String, ltb, ◌==◌, if◌then◌else◌, length, all, any,
  find, retain, take, leb,
}
use zk_ie.Common.Chars.{Chars, is_empty, chars_eq}
use zk_ie.Common.Text.{codes, cmp_codes}
use zk_ie.Identity.{Digest32, digest_eq}
use zk_ie.Resource.{ResourceRequest}
use zk_ie.State.{is_control}

abbrev pub schema : ℕ
schema = 1

abbrev pub max_field_bytes : ℕ
max_field_bytes = 4096

abbrev pub max_fields : ℕ
max_fields = 64

pub data ProtocolError : Type 0 where
  unsupported_schema_version : ℕ → ProtocolError
  malformed : String → ProtocolError
  relative_output_dir : Chars → ProtocolError
  zero_threads : ProtocolError
  duplicate_cuda_device : ℕ → ProtocolError
  attempt_mismatch : Chars → Chars → ProtocolError
  job_mismatch : Chars → Chars → ProtocolError
  run_digest_mismatch : ProtocolError
  launch_failed : ProtocolError
  io : ProtocolError
  identifier : ProtocolError

pub data WorkerJobKind : Type 0 where
  witness prepare leaf_proof leaf_verification native_aggregate : WorkerJobKind

-- `WorkerJobKind::ALL`.
abbrev pub all_kinds : List WorkerJobKind
all_kinds = witness ∷ prepare ∷ leaf_proof ∷ leaf_verification ∷ native_aggregate ∷ []

-- `WorkerJobKind::as_str`.
unfoldable pub worker_kind_as_str : WorkerJobKind → Chars
worker_kind_as_str witness = codes "witness"
worker_kind_as_str prepare = codes "prepare"
worker_kind_as_str leaf_proof = codes "leaf-proof"
worker_kind_as_str leaf_verification = codes "leaf-verification"
worker_kind_as_str native_aggregate = codes "native-aggregate"

-- `WorkerJobKind::parse`.
unfoldable pub parse_worker_kind : Chars → Option WorkerJobKind
unfolding worker_kind_as_str chars_eq
parse_worker_kind value = find (λ kind. chars_eq (worker_kind_as_str kind) value) all_kinds

-- The fields are a `BTreeMap`: a list of entries in the order of their keys.
abbrev pub Fields : Type 0
Fields = List (Chars × Chars)

pub record WorkerJob : Type 0 where
  pub kind : WorkerJobKind
  pub fields : Fields

-- `BTreeMap::insert`.
unfoldable pub insert_field : Chars → Chars → Fields → Fields
insert_field key value [] = (key, value) ∷ []
insert_field key value ((k, v) ∷ rest) =
    let later = (k, v) ∷ insert_field key value rest in
    elim (cmp_codes key k) [
      | Ordering.lt ↦ (key, value) ∷ (k, v) ∷ rest
      | Ordering.eq ↦ (k, value) ∷ rest
      | Ordering.gt ↦ later
    ]

-- `WorkerJob::field`.
unfoldable pub field : Chars → Fields → Option Chars
unfolding chars_eq
field key [] = none
field key ((k, v) ∷ rest) = if chars_eq k key then some v else field key rest

unfoldable pub validate_token : Chars → Result ProtocolError (Unit {0})
validate_token value =
    if is_empty value
      || ltb 64 (length value)
      || not (all (λ c. ltb c 128) value)
      || any (λ c. is_control c || c == 32) value
    then err (malformed "invalid job field name")
    else ok tt

abbrev starts_with_space : Chars → Bool
starts_with_space [] = false
starts_with_space (c ∷ _) = c == 32

unfoldable pub validate_value : Chars → Result ProtocolError (Unit {0})
validate_value value =
    if ltb max_field_bytes (length value)
      || not (all (λ c. ltb c 128) value)
      || any is_control value
      || starts_with_space value
    then err (malformed "invalid job field value")
    else ok tt

-- The loop of `WorkerJob::new`.
unfoldable pub collect_fields : Fields → Fields → Result ProtocolError Fields
unfolding validate_token validate_value insert_field
collect_fields [] canonical = ok canonical
collect_fields ((key, value) ∷ rest) canonical = do
  validate_token key
  validate_value value
  collect_fields rest (insert_field key value canonical)

-- `WorkerJob::new`.
unfoldable pub new_worker_job : WorkerJobKind → Fields → Result ProtocolError WorkerJob
unfolding collect_fields
new_worker_job kind fields = do
  canonical ← collect_fields fields []
  guard (not (ltb max_fields (length canonical))) (malformed "too many job fields")
  ok (record { kind = kind; fields = canonical })

pub record WorkerSpec : Type 0 where
  pub schema_version : ℕ  -- u32
  pub run_digest : Digest32
  pub job_id : Chars
  pub attempt_id : Chars
  pub job : WorkerJob
  pub staged_output_dir : Chars
  pub rayon_threads : ℕ  -- u32
  pub cuda_devices : List ℕ  -- u32

-- `Path::is_absolute`, on Unix.
abbrev pub is_absolute : Chars → Bool
is_absolute [] = false
is_absolute (c ∷ _) = c == 47

-- The loop over the devices, with those that are seen.
unfoldable pub check_devices : List ℕ → List ℕ → Result ProtocolError (Unit {0})
check_devices seen [] = ok tt
check_devices seen (device ∷ rest) =
    if any (λ d. d == device) seen
    then err (duplicate_cuda_device device)
    else check_devices (seen ++ device ∷ []) rest

-- `WorkerSpec::validate`.
unfoldable pub validate_spec : WorkerSpec → Result ProtocolError (Unit {0})
unfolding check_devices
validate_spec s = do
  guard (s.schema_version == schema) (unsupported_schema_version s.schema_version)
  guard (is_absolute s.staged_output_dir) (relative_output_dir s.staged_output_dir)
  guard (not (s.rayon_threads == 0)) zero_threads
  check_devices [] s.cuda_devices

-- `0..n`.
unfoldable pub count_up : ℕ → ℕ → List ℕ
count_up zero from = []
count_up (suc n) from = from ∷ count_up n (from + 1)

unfoldable pub worker_spec :
    Digest32 → Chars → Chars → WorkerJob → Chars → ResourceRequest → Result ProtocolError WorkerSpec
unfolding validate_spec count_up
worker_spec run_digest job_id attempt_id job staged_output_dir request =
    let spec : WorkerSpec = record {
      schema_version = schema;
      run_digest = run_digest;
      job_id = job_id;
      attempt_id = attempt_id;
      job = job;
      staged_output_dir = staged_output_dir;
      rayon_threads = request.cpu_cores;
      cuda_devices = count_up request.gpu_count 0;
    } in
    do validate_spec spec; ok spec

pub data WorkerOutcome : Type 0 where
  succeeded : WorkerOutcome
  failed : Chars → WorkerOutcome

pub record WorkerMeasurements : Type 0 where
  pub peak_resident_bytes : ℕ  -- u64
  pub wall_millis : ℕ  -- u64

pub record WorkerResult : Type 0 where
  pub schema_version : ℕ  -- u32
  pub run_digest : Digest32
  pub job_id : Chars
  pub attempt_id : Chars
  pub outcome : WorkerOutcome
  pub measurements : WorkerMeasurements

-- `is_ascii_alphanumeric`, or one of `-`, `_` and `.`.
abbrev pub is_code_char : ℕ → Bool
is_code_char c =
    leb 48 c && leb c 57
    || leb 65 c && leb c 90
    || leb 97 c && leb c 122
    || c == 45
    || c == 95
    || c == 46

unfoldable pub sanitize_code : Chars → Chars
sanitize_code code =
    let token = take 64 (retain is_code_char code) in
    if is_empty token then codes "unknown" else token

-- `WorkerResult::for_spec`.
unfoldable pub for_spec : WorkerSpec → WorkerOutcome → WorkerMeasurements → WorkerResult
for_spec s outcome measurements = record {
  schema_version = s.schema_version;
  run_digest = s.run_digest;
  job_id = s.job_id;
  attempt_id = s.attempt_id;
  outcome = outcome;
  measurements = measurements;
}

-- `WorkerResult::succeeded`.
unfoldable pub result_succeeded : WorkerSpec → WorkerMeasurements → WorkerResult
unfolding for_spec
result_succeeded s measurements = for_spec s succeeded measurements

-- `WorkerResult::failed`.
unfoldable pub result_failed : WorkerSpec → Chars → WorkerMeasurements → WorkerResult
unfolding for_spec sanitize_code
result_failed s code measurements = for_spec s (failed (sanitize_code code)) measurements

-- `WorkerResult::verify_against`.
unfoldable pub verify_against : WorkerResult → WorkerSpec → Result ProtocolError (Unit {0})
unfolding chars_eq
verify_against r s = do
  guard (digest_eq r.run_digest s.run_digest) run_digest_mismatch
  guard (chars_eq r.job_id s.job_id) (job_mismatch s.job_id r.job_id)
  guard (chars_eq r.attempt_id s.attempt_id) (attempt_mismatch s.attempt_id r.attempt_id)
