-- ===== src/Worker/Launch.antt =====
-- crates/zkie-runtime/src/worker.rs, ProcessWorkerLauncher: one attempt in a process of its own.
-- The file system and the process are a parameter: what the worker does with the text of the
-- specification that it finds, whether it exits with success, and the text that it leaves.
use zk_ie.Common.{
  ◌<◌, Bool, true, Option, none, some, Result, ok, err, ◌>>=◌, ◌>>◌, guard, ok_or, ◌≡◌, refl, subst,
  >>=-eq-ok, ok-injective, u64_size,
}
use zk_ie.Common.Chars.{Chars}
use zk_ie.Worker.{
  ProtocolError, io, launch_failed, WorkerSpec, WorkerOutcome, WorkerMeasurements, WorkerResult,
  validate_spec, for_spec, verify_against, schema,
}
use zk_ie.Worker.Wire.SpecText.{encode_spec, decode_spec}
use zk_ie.Worker.Wire.ResultText.{encode_result, decode_result}
use zk_ie.Worker.Specs.{validate_spec_iff}
use zk_ie.Worker.RoundTrip.{IsSpec, decode_spec-encode_spec}
use zk_ie.Worker.Answers.{IsResult, sanitized, decode_result-encode_result, verify_against_iff}

-- `run` gives nothing where the process does not start, and `left` nothing where there is no result.
pub record Host : Type 0 where
  pub writes : Bool
  pub run : Chars → Option Bool
  pub left : Chars → Option Chars

-- `ProcessWorkerLauncher::launch`.
unfoldable pub launch : Host → WorkerSpec → Result ProtocolError WorkerResult
launch host s = do
  validate_spec s
  text ← encode_spec s
  guard host.writes io
  status ← ok_or (host.run text) io
  guard status launch_failed
  answer ← ok_or (host.left text) io
  result ← decode_result answer
  verify_against result s
  ok result

-- Whatever the worker does, a result that the launcher returns has the digest of the run, the job
-- and the attempt of the specification.
pub launch_sound :
    (host : Host) (s : WorkerSpec) {r : WorkerResult}
    → launch host s ≡ ok r
    → (r.run_digest ≡ s.run_digest) × (r.job_id ≡ s.job_id) × (r.attempt_id ≡ s.attempt_id)
unfolding launch
launch_sound host s {r} h =
    let (_, _, h1) = >>=-eq-ok (validate_spec s) _ h in
    let (text, _, h2) = >>=-eq-ok (encode_spec s) _ h1 in
    let (_, _, h3) = >>=-eq-ok (guard host.writes io) _ h2 in
    let (status, _, h4) = >>=-eq-ok (ok_or (host.run text) io) _ h3 in
    let (_, _, h5) = >>=-eq-ok (guard status launch_failed) _ h4 in
    let (answer, _, h6) = >>=-eq-ok (ok_or (host.left text) io) _ h5 in
    let (result, _, h7) = >>=-eq-ok (decode_result answer) _ h6 in
    let (_, accepted, h8) = >>=-eq-ok (verify_against result s) _ h7 in
    subst
      (λ (x : WorkerResult).
        (x.run_digest ≡ s.run_digest) × (x.job_id ≡ s.job_id) × (x.attempt_id ≡ s.attempt_id))
      (ok-injective h8) ((verify_against_iff result s).0 accepted)

-- A worker that keeps to the protocol: it answers the specification that it reads.
abbrev pub answer_of : (WorkerSpec → WorkerOutcome × WorkerMeasurements) → Chars → Option Chars
answer_of work text = elim (decode_spec text) [
  | err _ ↦ none
  | ok s ↦ elim (encode_result (for_spec s (work s).0 (work s).1)) [
    | err _ ↦ none
    | ok answer ↦ some answer
  ]
]

abbrev pub honest : (WorkerSpec → WorkerOutcome × WorkerMeasurements) → Host
honest work = record { writes = true; run = λ _. some true; left = answer_of work }

version_of : (s : WorkerSpec) → validate_spec s ≡ ok tt → s.schema_version ≡ schema
version_of s valid = ((validate_spec_iff s).0 valid).0

encode_spec_total :
    (s : WorkerSpec) → validate_spec s ≡ ok tt → (text : Chars) × (encode_spec s ≡ ok text)
unfolding encode_spec
encode_spec_total s valid = rw valid (_, refl)

for_spec-IsResult :
    (s : WorkerSpec)
    → IsSpec s
    → (o : WorkerOutcome) (m : WorkerMeasurements) → m.peak_resident_bytes < u64_size
    → m.wall_millis < u64_size
    → IsResult (for_spec s o m)
unfolding for_spec
for_spec-IsResult s w o m peak wall = record {
  digest_valid = w.digest_valid;
  job_valid = w.job_valid;
  job_end = w.job_end;
  attempt_valid = w.attempt_valid;
  attempt_end = w.attempt_end;
  peak_fits = peak;
  wall_fits = wall;
}

accepted :
    (s : WorkerSpec) (o : WorkerOutcome) (m : WorkerMeasurements)
    → verify_against (for_spec s o m) s ≡ ok tt
unfolding for_spec
accepted s o m = (verify_against_iff (for_spec s o m) s).1 (refl, refl, refl)

encode_result_total :
    (r : WorkerResult) → r.schema_version ≡ schema → (text : Chars) × (encode_result r ≡ ok text)
unfolding encode_result
encode_result_total r h = rw h (_, refl)

answer_of_lem :
    (work : WorkerSpec → WorkerOutcome × WorkerMeasurements) (s : WorkerSpec) (text answer : Chars)
    → decode_spec text ≡ ok s
    → encode_result (for_spec s (work s).0 (work s).1) ≡ ok answer
    → answer_of work text ≡ some answer
answer_of_lem work s text answer e f = rw (e, answer_of) (rw f refl)

launch_lem :
    (host : Host) (s : WorkerSpec) (text answer : Chars) (r : WorkerResult)
    → validate_spec s ≡ ok tt
    → encode_spec s ≡ ok text
    → host.writes ≡ true
    → host.run text ≡ some true
    → host.left text ≡ some answer
    → decode_result answer ≡ ok r
    → verify_against r s ≡ ok tt
    → launch host s ≡ ok r
unfolding launch
launch_lem host s text answer r valid written writes runs left read accept =
    rw valid (rw written (rw writes (rw runs (rw left (rw read (rw accept refl))))))

-- A specification that is valid and that its text keeps reaches a worker that keeps to the
-- protocol and measures within u64, and what the worker answers comes back: its outcome, with the
-- code sanitized, and its measurements.
pub launch-honest :
    (work : WorkerSpec → WorkerOutcome × WorkerMeasurements) (s : WorkerSpec)
    → IsSpec s
    → validate_spec s ≡ ok tt
    → (work s).1.peak_resident_bytes < u64_size
    → (work s).1.wall_millis < u64_size
    → launch (honest work) s ≡ ok (for_spec s (sanitized (work s).0) (work s).1)
unfolding for_spec
launch-honest work s w valid peak wall =
    let r : WorkerResult = for_spec s (work s).0 (work s).1 in
    let version : r.schema_version ≡ schema = version_of s valid in
    let (text, written) = encode_spec_total s valid in
    let (answer, answered) = encode_result_total r version in
    let read = decode_spec-encode_spec s w written in
    launch_lem (honest work) s text answer (for_spec s (sanitized (work s).0) (work s).1) valid
      written refl refl (answer_of_lem work s text answer read answered)
      (decode_result-encode_result r (for_spec-IsResult s w (work s).0 (work s).1 peak wall)
        answered)
      (accepted s (sanitized (work s).0) (work s).1)
