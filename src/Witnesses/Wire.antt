-- ===== src/Witnesses/Wire.antt =====
-- Concrete messages between the scheduler and a worker, and identities of runs.
use zk_ie.Common.{true, [], ◌∷◌, ok, err, ◌≡◌, ◌≢◌, ◌↔◌, refl, arith}
use zk_ie.Common.Text.{codes}
use zk_ie.Common.Chars.{Chars}
use zk_ie.Identity
use zk_ie.Identity.{Digest32, RunIdentity, ModelVisibility, public_model, preimage}
use zk_ie.Identity.Hex.{IsDigest, from_str_iff}
use zk_ie.Identity.Unambiguous.{IsRunIdentity, preimage-injective}
use zk_ie.State.{is_identifier_codes}
use zk_ie.Resource.{ResourceRequest}
use zk_ie.Worker.{
  WorkerJobKind, WorkerJob, WorkerSpec, WorkerOutcome, WorkerMeasurements, WorkerResult,
  worker_spec, validate_spec, for_spec, verify_against, is_absolute, new_worker_job,
}
use zk_ie.Worker.Wire.SpecText.{encode_spec, decode_spec}
use zk_ie.Worker.Wire.ResultText.{encode_result, decode_result}
use zk_ie.Worker.Jobs.{IsJob, new_worker_job-IsJob}
use zk_ie.Worker.Specs.{IsAssigned, worker_spec_iff}
use zk_ie.Worker.RoundTrip.{IsSpec, decode_spec-encode_spec}
use zk_ie.Worker.Answers.{IsResult, sanitized, decode_result-encode_result, verify_against_iff}
use zk_ie.Worker.Launch.{launch, honest, launch-honest, launch_sound}

abbrev digest : Digest32
digest = record {
  bytes =
      171 ∷ 0 ∷ 0 ∷ 0 ∷ 0 ∷ 0 ∷ 0 ∷ 0 ∷ 0 ∷ 0 ∷ 0 ∷ 0 ∷ 0 ∷ 0 ∷ 0 ∷ 0 ∷ 0 ∷ 0 ∷ 0 ∷ 0 ∷ 0 ∷ 0 ∷ 0
      ∷ 0 ∷ 0 ∷ 0 ∷ 0 ∷ 0 ∷ 0 ∷ 0 ∷ 0 ∷ 7 ∷ [];
}

digest-IsDigest : IsDigest digest
digest-IsDigest = record { sized = refl; in_range = omega arith }

abbrev digest_text : Chars
digest_text = codes "ab00000000000000000000000000000000000000000000000000000000000007"

from_str_iff_example :
    (Identity.from_str digest_text ≡ ok digest)
    ↔ (IsDigest digest × (digest_text ≡ Identity.display digest))
from_str_iff_example = from_str_iff digest_text digest

reads_digest : Identity.from_str digest_text ≡ ok digest
unfolding Identity.from_str
reads_digest = refl

abbrev run : RunIdentity
run = record {
  model_graph_digest = digest;
  weights_digest = digest;
  compiler_digest = digest;
  isa_digest = digest;
  quantization_digest = digest;
  partition_plan_digest = digest;
  aggregation_plan_digest = digest;
  proof_flavor = codes "kzg";
  model_visibility = public_model;
  aggregation_fan_in = 4;
  public_input_schema_version = 1;
}

run-IsRunIdentity : IsRunIdentity run
run-IsRunIdentity =
    let d = digest-IsDigest in
    record {
      digests_valid = (d, (d, (d, (d, (d, (d, (d, tt)))))));
      flavor_fits = omega arith;
      fan_in_fits = omega arith;
      version_fits = omega arith;
    }

preimage-injective_example : ◌≡◌ {A = RunIdentity} run run
preimage-injective_example = preimage-injective run run run-IsRunIdentity run-IsRunIdentity refl

abbrev job : WorkerJob
job = record { kind = WorkerJobKind.witness; fields = (codes "shard", codes "2 of 3") ∷ [] }

job-IsJob : IsJob job
unfolding new_worker_job
job-IsJob = new_worker_job-IsJob WorkerJobKind.witness ((codes "shard", codes "2 of 3") ∷ []) refl

abbrev spec : WorkerSpec
spec = record {
  schema_version = 1;
  run_digest = digest;
  job_id = codes "r:v";
  attempt_id = codes "r:v:attempt:1";
  job = job;
  staged_output_dir = codes "/tmp/r";
  rayon_threads = 12;
  cuda_devices = 0 ∷ 1 ∷ [];
}

spec-IsSpec : IsSpec spec
unfolding is_identifier_codes
spec-IsSpec = record {
  digest_valid = digest-IsDigest;
  job_valid = refl;
  job_end = refl;
  attempt_valid = refl;
  attempt_end = refl;
  built = job-IsJob;
  fields_wire = ((omega arith, refl), tt);
  dir_plain = omega arith;
  dir_end = refl;
  threads_fit = omega arith;
  devices_fit = omega arith;
}

abbrev message : Chars
message =
    codes
      "zkie-worker-spec 1\nrun_digest ab00000000000000000000000000000000000000000000000000000000000007\njob_id r:v\nattempt_id r:v:attempt:1\njob_kind witness\njob_field shard=2 of 3\noutput_dir /tmp/r\nrayon_threads 12\ncuda_device 0\ncuda_device 1\n"

is_encoded : encode_spec spec ≡ ok message
unfolding encode_spec
is_encoded = refl

decode_spec-encode_spec_example : decode_spec message ≡ ok spec
decode_spec-encode_spec_example = decode_spec-encode_spec spec spec-IsSpec is_encoded

-- A value that `WorkerJob::new` accepts with a space at its end comes back without it.
abbrev spaced : WorkerSpec
spaced = record spec {
  job = record { kind = WorkerJobKind.witness; fields = (codes "shard", codes "2 ") ∷ [] };
}

abbrev spaced_message : Chars
spaced_message =
    codes
      "zkie-worker-spec 1\nrun_digest ab00000000000000000000000000000000000000000000000000000000000007\njob_id r:v\nattempt_id r:v:attempt:1\njob_kind witness\njob_field shard=2 \noutput_dir /tmp/r\nrayon_threads 12\ncuda_device 0\ncuda_device 1\n"

spaced_is_accepted :
    new_worker_job WorkerJobKind.witness ((codes "shard", codes "2 ") ∷ []) ≡ ok spaced.job
unfolding new_worker_job
spaced_is_accepted = refl

spaced_is_encoded : encode_spec spaced ≡ ok spaced_message
unfolding encode_spec
spaced_is_encoded = refl

spaced_is_cut :
    decode_spec spaced_message
    ≡ ok (record spec {
      job = record { kind = WorkerJobKind.witness; fields = (codes "shard", codes "2") ∷ [] };
    })
unfolding decode_spec
spaced_is_cut = refl

-- A field name that `WorkerJob::new` accepts with an `=` in it is cut there.
abbrev equals : WorkerSpec
equals = record spec {
  job = record { kind = WorkerJobKind.witness; fields = (codes "a=b", codes "c") ∷ [] };
}

abbrev text_of_equals : Chars
text_of_equals = elim (encode_spec equals) [ ok text ↦ text | err _ ↦ [] ]

equals_is_accepted :
    new_worker_job WorkerJobKind.witness ((codes "a=b", codes "c") ∷ []) ≡ ok equals.job
unfolding new_worker_job
equals_is_accepted = refl

equals_is_cut :
    decode_spec text_of_equals
    ≡ ok (record spec {
      job = record { kind = WorkerJobKind.witness; fields = (codes "a", codes "b=c") ∷ [] };
    })
unfolding decode_spec encode_spec
equals_is_cut = refl

abbrev measured : WorkerMeasurements
measured = record { peak_resident_bytes = 4096; wall_millis = 12 }

abbrev answer : WorkerResult
answer = record {
  schema_version = 1;
  run_digest = digest;
  job_id = codes "r:v";
  attempt_id = codes "r:v:attempt:1";
  outcome = WorkerOutcome.failed (codes "out of memory!");
  measurements = measured;
}

answer-IsResult : IsResult answer
unfolding is_identifier_codes
answer-IsResult = record {
  digest_valid = digest-IsDigest;
  job_valid = refl;
  job_end = refl;
  attempt_valid = refl;
  attempt_end = refl;
  peak_fits = omega arith;
  wall_fits = omega arith;
}

abbrev answer_text : Chars
answer_text =
    codes
      "zkie-worker-result 1\nrun_digest ab00000000000000000000000000000000000000000000000000000000000007\njob_id r:v\nattempt_id r:v:attempt:1\nstatus failed\ncode outofmemory\npeak_resident_bytes 4096\nwall_millis 12\n"

answer_is_encoded : encode_result answer ≡ ok answer_text
unfolding encode_result
answer_is_encoded = refl

decode_result-encode_result_example :
    decode_result answer_text ≡ ok (record answer { outcome = sanitized answer.outcome })
decode_result-encode_result_example =
    decode_result-encode_result answer answer-IsResult answer_is_encoded

verify_against_iff_example : (verify_against answer spec ≡ ok tt) ↔ (
    (answer.run_digest ≡ spec.run_digest)
    × (answer.job_id ≡ spec.job_id)
    × (answer.attempt_id ≡ spec.attempt_id))
verify_against_iff_example = verify_against_iff answer spec

abbrev request : ResourceRequest
request = record {
  cpu_cores = 12;
  ram_bytes = 1024;
  gpu_count = 2;
  gpu_vram_bytes_per_device = 512;
}

worker_spec_iff_example :
    (worker_spec digest (codes "r:v") (codes "r:v:attempt:1") job (codes "/tmp/r") request
      ≡ ok spec)
    ↔ ((request.cpu_cores ≢ 0)
        × (is_absolute (codes "/tmp/r") ≡ true)
        × IsAssigned digest (codes "r:v") (codes "r:v:attempt:1") job (codes "/tmp/r") request spec)
worker_spec_iff_example =
    worker_spec_iff digest (codes "r:v") (codes "r:v:attempt:1") job (codes "/tmp/r") request spec

spec_is_made :
    worker_spec digest (codes "r:v") (codes "r:v:attempt:1") job (codes "/tmp/r") request ≡ ok spec
unfolding worker_spec
spec_is_made = refl

abbrev crashes : WorkerSpec → WorkerOutcome × WorkerMeasurements
crashes _ = (WorkerOutcome.failed (codes "out of memory!"), measured)

spec-validated : validate_spec spec ≡ ok tt
unfolding validate_spec
spec-validated = refl

launch-honest_example :
    launch (honest crashes) spec ≡ ok (for_spec spec (sanitized (crashes spec).0) (crashes spec).1)
launch-honest_example =
    launch-honest crashes spec spec-IsSpec spec-validated (omega arith) (omega arith)

launch_sound_example :
    ((for_spec spec (sanitized (crashes spec).0) measured).run_digest ≡ spec.run_digest)
    × ((for_spec spec (sanitized (crashes spec).0) measured).job_id ≡ spec.job_id)
    × ((for_spec spec (sanitized (crashes spec).0) measured).attempt_id ≡ spec.attempt_id)
launch_sound_example =
    launch_sound (honest crashes) spec
      (launch-honest crashes spec spec-IsSpec spec-validated (omega arith) (omega arith))
