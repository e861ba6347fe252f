-- ===== src/Worker/Wire/SpecText.antt =====
-- crates/zkie-runtime/src/worker.rs, WorkerSpec::encode and decode.
use zk_ie.Common.{
  ℕ, List, [], ◌∷◌, ◌++◌, Option, none, some, Result, ok, err, ◌>>=◌, ◌>>◌, ok_or, if◌then◌else◌,
  map,
}
use zk_ie.Common.Chars.{Chars, chars_eq, split_once, lines, digits}
use zk_ie.Common.Text.{codes}
use zk_ie.Identity
use zk_ie.Identity.{Digest32}
use zk_ie.Worker.{
  ProtocolError, malformed, WorkerJobKind, worker_kind_as_str, parse_worker_kind, Fields,
  new_worker_job, WorkerSpec, validate_spec,
}
use zk_ie.Worker.Wire.{
  Row, missing, parse_digest, parse_id, parse_u32, read_head, read_lines, render, tail,
}

-- The rows of `WorkerSpec::encode` behind the first.
abbrev pub field_row : Chars × Chars → Row
field_row entry = (codes "job_field", entry.0 ++ 61 ∷ entry.1)

abbrev pub device_row : ℕ → Row
device_row device = (codes "cuda_device", digits device)

unfoldable pub spec_rows : WorkerSpec → List Row
unfolding Identity.display digits worker_kind_as_str
spec_rows s =
    (codes "run_digest", Identity.display s.run_digest)
    ∷ (codes "job_id", s.job_id)
    ∷ (codes "attempt_id", s.attempt_id)
    ∷ (codes "job_kind", worker_kind_as_str s.job.kind)
    ∷ (map field_row s.job.fields
        ++ ((codes "output_dir", s.staged_output_dir)
            ∷ (codes "rayon_threads", digits s.rayon_threads)
            ∷ map device_row s.cuda_devices))

-- `WorkerSpec::encode`.
unfoldable pub encode_spec : WorkerSpec → Result ProtocolError Chars
unfolding validate_spec spec_rows render digits
encode_spec s = do
  validate_spec s
  ok (render ((codes "zkie-worker-spec", digits s.schema_version) ∷ spec_rows s))

-- The local variables of the loop of `WorkerSpec::decode`.
pub record SpecDraft : Type 0 where
  pub run_digest : Option Digest32
  pub job_id : Option Chars
  pub attempt_id : Option Chars
  pub kind : Option WorkerJobKind
  pub fields : Fields
  pub output_dir : Option Chars
  pub rayon_threads : Option ℕ
  pub cuda_devices : List ℕ

abbrev pub empty_spec : SpecDraft
empty_spec = record {
  run_digest = none;
  job_id = none;
  attempt_id = none;
  kind = none;
  fields = [];
  output_dir = none;
  rayon_threads = none;
  cuda_devices = [];
}

-- The readers of a job's kind and of a job field.
unfoldable pub parse_kind_field : Chars → Result ProtocolError WorkerJobKind
unfolding parse_worker_kind
parse_kind_field value = ok_or (parse_worker_kind value) (malformed "unknown job kind")

unfoldable pub parse_job_field : Chars → Result ProtocolError (Chars × Chars)
unfolding split_once
parse_job_field value = ok_or (split_once 61 value) (malformed "malformed job field")

-- The arms of the loop's `match key`.
unfoldable pub spec_arm : SpecDraft → Chars → Chars → Result ProtocolError SpecDraft
unfolding chars_eq parse_digest parse_id parse_kind_field parse_job_field parse_u32
spec_arm d key value =
    if chars_eq key (codes "run_digest")
    then (do x ← parse_digest value; ok (record d { run_digest = some x }))
    else if chars_eq key (codes "job_id")
    then (do x ← parse_id value; ok (record d { job_id = some x }))
    else if chars_eq key (codes "attempt_id")
    then (do x ← parse_id value; ok (record d { attempt_id = some x }))
    else if chars_eq key (codes "job_kind")
    then (do x ← parse_kind_field value; ok (record d { kind = some x }))
    else if chars_eq key (codes "job_field")
    then (do x ← parse_job_field value; ok (record d { fields = d.fields ++ x ∷ [] }))
    else if chars_eq key (codes "output_dir")
    then ok (record d { output_dir = some value })
    else if chars_eq key (codes "rayon_threads")
    then (do x ← parse_u32 value; ok (record d { rayon_threads = some x }))
    else if chars_eq key (codes "cuda_device")
    then (do x ← parse_u32 value; ok (record d { cuda_devices = d.cuda_devices ++ x ∷ [] }))
    else err (malformed "unknown spec key")

-- What `decode` makes of the loop's variables.
unfoldable pub finish_spec : ℕ → SpecDraft → Result ProtocolError WorkerSpec
unfolding new_worker_job validate_spec
finish_spec version d = do
  run_digest ← ok_or d.run_digest missing
  job_id ← ok_or d.job_id missing
  attempt_id ← ok_or d.attempt_id missing
  kind ← ok_or d.kind missing
  job ← new_worker_job kind d.fields
  output_dir ← ok_or d.output_dir missing
  rayon_threads ← ok_or d.rayon_threads missing
  let spec : WorkerSpec = record {
    schema_version = version;
    run_digest = run_digest;
    job_id = job_id;
    attempt_id = attempt_id;
    job = job;
    staged_output_dir = output_dir;
    rayon_threads = rayon_threads;
    cuda_devices = d.cuda_devices;
  }
  validate_spec spec
  ok spec

-- `WorkerSpec::decode`.
unfoldable pub decode_spec : Chars → Result ProtocolError WorkerSpec
unfolding lines read_head read_lines spec_arm finish_spec
decode_spec text = do
  version ← read_head "zkie-worker-spec" (lines text)
  d ← read_lines spec_arm empty_spec (tail (lines text))
  finish_spec version d
