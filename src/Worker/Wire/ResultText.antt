-- ===== src/Worker/Wire/ResultText.antt =====
-- crates/zkie-runtime/src/worker.rs, WorkerResult::encode and decode.
use zk_ie.Common.{
  ℕ, List, [], ◌∷◌, Option, none, some, Result, ok, err, ◌>>=◌, ◌>>◌, guard, ok_or, ◌==◌,
  if◌then◌else◌,
}
use zk_ie.Common.Chars.{Chars, chars_eq, lines, digits}
use zk_ie.Common.Text.{codes}
use zk_ie.Identity
use zk_ie.Identity.{Digest32}
use zk_ie.Worker.{
  ProtocolError, unsupported_schema_version, malformed, schema, WorkerOutcome, succeeded, failed,
  WorkerResult, sanitize_code,
}
use zk_ie.Worker.Wire.{
  Row, missing, parse_digest, parse_id, parse_u64, read_head, read_lines, render, tail,
}

abbrev pub status_of : WorkerOutcome → Chars
status_of succeeded = codes "succeeded"
status_of (failed _) = codes "failed"

abbrev pub code_of : WorkerOutcome → Chars
code_of succeeded = []
code_of (failed code) = sanitize_code code

unfoldable pub result_rows : WorkerResult → List Row
unfolding Identity.display digits sanitize_code
result_rows r =
    (codes "run_digest", Identity.display r.run_digest)
    ∷ (codes "job_id", r.job_id)
    ∷ (codes "attempt_id", r.attempt_id)
    ∷ (codes "status", status_of r.outcome)
    ∷ (codes "code", code_of r.outcome)
    ∷ (codes "peak_resident_bytes", digits r.measurements.peak_resident_bytes)
    ∷ (codes "wall_millis", digits r.measurements.wall_millis)
    ∷ []

-- `WorkerResult::encode`.
unfoldable pub encode_result : WorkerResult → Result ProtocolError Chars
unfolding result_rows render digits
encode_result r = do
  guard (r.schema_version == schema) (unsupported_schema_version r.schema_version)
  ok (render ((codes "zkie-worker-result", digits r.schema_version) ∷ result_rows r))

-- The local variables of the loop of `WorkerResult::decode`.
pub record ResultDraft : Type 0 where
  pub run_digest : Option Digest32
  pub job_id : Option Chars
  pub attempt_id : Option Chars
  pub status : Option Chars
  pub code : Option Chars
  pub peak : Option ℕ
  pub wall : Option ℕ

abbrev pub empty_result : ResultDraft
empty_result = record {
  run_digest = none;
  job_id = none;
  attempt_id = none;
  status = none;
  code = none;
  peak = none;
  wall = none;
}

unfoldable pub result_arm : ResultDraft → Chars → Chars → Result ProtocolError ResultDraft
unfolding chars_eq parse_digest parse_id parse_u64
result_arm d key value =
    if chars_eq key (codes "run_digest")
    then (do x ← parse_digest value; ok (record d { run_digest = some x }))
    else if chars_eq key (codes "job_id")
    then (do x ← parse_id value; ok (record d { job_id = some x }))
    else if chars_eq key (codes "attempt_id")
    then (do x ← parse_id value; ok (record d { attempt_id = some x }))
    else if chars_eq key (codes "status")
    then ok (record d { status = some value })
    else if chars_eq key (codes "code")
    then ok (record d { code = some value })
    else if chars_eq key (codes "peak_resident_bytes")
    then (do x ← parse_u64 value; ok (record d { peak = some x }))
    else if chars_eq key (codes "wall_millis")
    then (do x ← parse_u64 value; ok (record d { wall = some x }))
    else err (malformed "unknown result key")

abbrev or_unknown : Option Chars → Chars
or_unknown none = codes "unknown"
or_unknown (some code) = code

-- The outcome of a status and a code.
unfoldable pub read_outcome : Option Chars → Option Chars → Result ProtocolError WorkerOutcome
unfolding chars_eq sanitize_code
read_outcome none code = err (malformed "unknown worker status")
read_outcome (some status) code =
    if chars_eq status (codes "succeeded")
    then ok succeeded
    else if chars_eq status (codes "failed")
    then ok (failed (sanitize_code (or_unknown code)))
    else err (malformed "unknown worker status")

-- What `decode` makes of the loop's variables.
unfoldable pub finish_result : ℕ → ResultDraft → Result ProtocolError WorkerResult
unfolding read_outcome
finish_result version d = do
  outcome ← read_outcome d.status d.code
  run_digest ← ok_or d.run_digest missing
  job_id ← ok_or d.job_id missing
  attempt_id ← ok_or d.attempt_id missing
  peak ← ok_or d.peak missing
  wall ← ok_or d.wall missing
  ok (record {
    schema_version = version;
    run_digest = run_digest;
    job_id = job_id;
    attempt_id = attempt_id;
    outcome = outcome;
    measurements = record { peak_resident_bytes = peak; wall_millis = wall };
  })

-- `WorkerResult::decode`.
unfoldable pub decode_result : Chars → Result ProtocolError WorkerResult
unfolding lines read_head read_lines result_arm finish_result
decode_result text = do
  version ← read_head "zkie-worker-result" (lines text)
  d ← read_lines result_arm empty_result (tail (lines text))
  finish_result version d
