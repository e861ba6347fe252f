-- ===== src/Worker/RoundTrip.antt =====
-- crates/zkie-runtime/src/worker.rs: a specification is read back from its text.
use zk_ie.Common.{
  ℕ, ◌<◌, true, false, ◌||◌, List, [], ◌∷◌, ◌++◌, none, some, Result, ok, ◌>>=◌, ◌>>◌, ◌≡◌, refl,
  sym, ap, ◌∙◌, subst, arith, All, All-append, map, u32_size, ◌==◌, ==_iff, any, >>=-eq-ok,
  ok-injective, Result-cases, inl, inr,
}
use mathlib.Core.List.{append_assoc, append-nil}
use zk_ie.Common.Text.{codes}
use zk_ie.Common.Chars.{Chars, is_whitespace, chars_eq, digits}
use zk_ie.Common.Chars.Laws.{Without, ends_blank, split_once_lem}
use zk_ie.Identity.Hex.{IsDigest}
use zk_ie.State.{is_control, is_identifier_codes}
use zk_ie.Worker.{
  ProtocolError, WorkerSpec, WorkerJobKind, witness, prepare, leaf_proof, leaf_verification,
  native_aggregate, Fields, worker_kind_as_str, parse_worker_kind, validate_token, validate_value,
  validate_spec, schema,
}
use zk_ie.Worker.Wire.{Row, render}
use zk_ie.Worker.Wire.SpecText.{
  encode_spec, decode_spec, spec_rows, field_row, device_row, spec_arm, empty_spec, finish_spec,
  SpecDraft, parse_kind_field, parse_job_field,
}
use zk_ie.Worker.Rows.{
  IsRow, Plain, Plain-IsRow, digits-row, display-row, decode_rows, read_rows, control-Plain,
  identifier-Plain, printable-Plain, parse_digest-display, parse_id-eq, parse_u32-digits,
}
use zk_ie.Worker.Jobs.{IsEntry, IsJob, new_worker_job_again}

-- An entry that its line keeps: no `=` in the name, no white space at the end of the value.
abbrev pub IsFieldWire : Chars × Chars → Type 0
IsFieldWire e = Without 61 e.0 × (ends_blank e.1 ≡ false)

-- A specification that its text keeps.
pub record IsSpec (s : WorkerSpec) : Type 0 where
  pub digest_valid : IsDigest s.run_digest
  pub job_valid : is_identifier_codes s.job_id ≡ true
  pub job_end : ends_blank s.job_id ≡ false
  pub attempt_valid : is_identifier_codes s.attempt_id ≡ true
  pub attempt_end : ends_blank s.attempt_id ≡ false
  pub built : IsJob s.job
  pub fields_wire : All IsFieldWire s.job.fields
  pub dir_plain : Plain s.staged_output_dir
  pub dir_end : ends_blank s.staged_output_dir ≡ false
  pub threads_fit : s.rayon_threads < u32_size
  pub devices_fit : All (λ d. d < u32_size) s.cuda_devices

pub parse_worker_kind-as_str :
    (k : WorkerJobKind) → parse_worker_kind (worker_kind_as_str k) ≡ some k
unfolding parse_worker_kind
parse_worker_kind-as_str witness = refl
parse_worker_kind-as_str prepare = refl
parse_worker_kind-as_str leaf_proof = refl
parse_worker_kind-as_str leaf_verification = refl
parse_worker_kind-as_str native_aggregate = refl

kind-row :
    (k : WorkerJobKind) → Plain (worker_kind_as_str k) × (ends_blank (worker_kind_as_str k) ≡ false)
unfolding worker_kind_as_str
kind-row witness = printable-Plain (codes "witness") (omega arith)
kind-row prepare = printable-Plain (codes "prepare") (omega arith)
kind-row leaf_proof = printable-Plain (codes "leaf-proof") (omega arith)
kind-row leaf_verification = printable-Plain (codes "leaf-verification") (omega arith)
kind-row native_aggregate = printable-Plain (codes "native-aggregate") (omega arith)

validate_token-control :
    (s : Chars) → validate_token s ≡ ok tt → any (λ c. is_control c || c == 32) s ≡ false
unfolding validate_token
validate_token-control s h = ground arith

any-or : (s : Chars) → any (λ c. is_control c || c == 32) s ≡ false → any is_control s ≡ false
any-or [] h = refl
any-or (c ∷ s) h = ground (arith, any-or s)

validate_value-control : (s : Chars) → validate_value s ≡ ok tt → any is_control s ≡ false
unfolding validate_value
validate_value-control s h = ground arith

ends_blank-append :
    (a : Chars) (c : ℕ) (b : Chars)
    → is_whitespace c ≡ false
    → ends_blank b ≡ false
    → ends_blank (a ++ c ∷ b) ≡ false
ends_blank-append [] c [] w h = w
ends_blank-append [] c (d ∷ b) w h = h
ends_blank-append (x ∷ []) c b w h = ends_blank-append [] c b w h
ends_blank-append (x ∷ y ∷ a) c b w h = ends_blank-append (y ∷ a) c b w h

validate_spec-schema :
    (s : WorkerSpec) → validate_spec s ≡ ok tt → (s.schema_version == schema) ≡ true
unfolding validate_spec
validate_spec-schema s h = ground arith

field_row-IsRow : (e : Chars × Chars) → IsEntry e → IsFieldWire e → IsRow (field_row e)
field_row-IsRow e v w = Plain-IsRow (codes "job_field") (e.0 ++ 61 ∷ e.1) refl (
  All-append _ e.0 (61 ∷ e.1) (control-Plain e.0 (any-or e.0 (validate_token-control e.0 v.0)))
      ((ground arith, ground arith), control-Plain e.1 (validate_value-control e.1 v.1)),
  ends_blank-append e.0 61 e.1 refl w.1,
)

field_rows-IsRow : (m : Fields) → All IsEntry m → All IsFieldWire m → All IsRow (map field_row m)
field_rows-IsRow [] v w = tt
field_rows-IsRow (e ∷ m) v w = (field_row-IsRow e v.0 w.0, field_rows-IsRow m v.1 w.1)

device_rows-IsRow : (ds : List ℕ) → All IsRow (map device_row ds)
device_rows-IsRow [] = tt
device_rows-IsRow (d ∷ ds) =
    (Plain-IsRow (codes "cuda_device") (digits d) refl (digits-row d), device_rows-IsRow ds)

spec_rows-IsRow : (s : WorkerSpec) → IsSpec s → All IsRow (spec_rows s)
unfolding spec_rows
spec_rows-IsRow s w = (
  Plain-IsRow (codes "run_digest") _ refl (display-row s.run_digest w.digest_valid),
  (
    Plain-IsRow (codes "job_id") s.job_id refl (identifier-Plain s.job_id w.job_valid, w.job_end),
    (
      Plain-IsRow (codes "attempt_id") s.attempt_id refl
          (identifier-Plain s.attempt_id w.attempt_valid, w.attempt_end),
      (
        Plain-IsRow (codes "job_kind") _ refl (kind-row s.job.kind),
        All-append IsRow (map field_row s.job.fields) _
            (field_rows-IsRow s.job.fields w.built.entries w.fields_wire)
            (
              Plain-IsRow (codes "output_dir") s.staged_output_dir refl (w.dir_plain, w.dir_end),
              (
                Plain-IsRow (codes "rayon_threads") _ refl (digits-row s.rayon_threads),
                device_rows-IsRow s.cuda_devices,
              ),
            ),
      ),
    ),
  ),
)

-- The loop over the rows of the fields, and over those of the devices.
read_rows-append :
    {D : Type 0} (arm : D → Chars → Chars → Result ProtocolError D) (d : D) (a b : List Row)
    → read_rows arm d (a ++ b) ≡ (read_rows arm d a >>= λ next. read_rows arm next b)
read_rows-append arm d [] b = refl
read_rows-append arm d (row ∷ a) b = elim (Result-cases (arm d row.0 row.1)) [
  | inl (next, e) ↦ rw (e, read_rows, ◌>>=◌) (read_rows-append arm next a b)
  | inr (x, e) ↦ rw (e, read_rows, ◌>>=◌) refl
]

read_rows-field_row :
    (d : SpecDraft) (m : Fields)
    → All IsFieldWire m
    → read_rows spec_arm d (map field_row m) ≡ ok (record d { fields = d.fields ++ m })
unfolding spec_arm chars_eq parse_job_field
read_rows-field_row d [] w =
    ap (λ (f : Fields). ok (record d { fields = f })) (sym (append-nil d.fields))
read_rows-field_row d (e ∷ m) w = rw (split_once_lem 61 e.0 e.1 w.0.0) (
    read_rows-field_row (record d { fields = d.fields ++ e ∷ [] }) m w.1
    ∙ ap (λ (f : Fields). ok (record d { fields = f })) (append_assoc d.fields (e ∷ []) m))

read_rows-device_row :
    (d : SpecDraft) (ds : List ℕ)
    → All (λ x. x < u32_size) ds
    → read_rows spec_arm d (map device_row ds)
      ≡ ok (record d { cuda_devices = d.cuda_devices ++ ds })
unfolding spec_arm chars_eq
read_rows-device_row d [] w =
    ap (λ (l : List ℕ). ok (record d { cuda_devices = l })) (sym (append-nil d.cuda_devices))
read_rows-device_row d (x ∷ ds) w = rw (parse_u32-digits x w.0) (
    read_rows-device_row (record d { cuda_devices = d.cuda_devices ++ x ∷ [] }) ds w.1
    ∙ ap (λ (l : List ℕ). ok (record d { cuda_devices = l }))
        (append_assoc d.cuda_devices (x ∷ []) ds))

abbrev draft_of : WorkerSpec → SpecDraft
draft_of s = record {
  run_digest = some s.run_digest;
  job_id = some s.job_id;
  attempt_id = some s.attempt_id;
  kind = some s.job.kind;
  fields = s.job.fields;
  output_dir = some s.staged_output_dir;
  rayon_threads = some s.rayon_threads;
  cuda_devices = s.cuda_devices;
}

parse_kind_field-as_str : (k : WorkerJobKind) → parse_kind_field (worker_kind_as_str k) ≡ ok k
unfolding parse_kind_field
parse_kind_field-as_str k = rw (parse_worker_kind-as_str k) refl

-- The rows behind the fields.
abbrev tail_rows : WorkerSpec → List Row
tail_rows s =
    (codes "output_dir", s.staged_output_dir)
    ∷ (codes "rayon_threads", digits s.rayon_threads)
    ∷ map device_row s.cuda_devices

read_rows-tail :
    (s : WorkerSpec) (d : SpecDraft)
    → IsSpec s
    → read_rows spec_arm d (tail_rows s)
      ≡ ok (record d {
        output_dir = some s.staged_output_dir;
        rayon_threads = some s.rayon_threads;
        cuda_devices = d.cuda_devices ++ s.cuda_devices;
      })
unfolding spec_arm chars_eq
read_rows-tail s d w = rw (parse_u32-digits s.rayon_threads w.threads_fit) (
    read_rows-device_row
      (record d { output_dir = some s.staged_output_dir; rayon_threads = some s.rayon_threads })
      s.cuda_devices w.devices_fit)

read_rows-spec_rows :
    (s : WorkerSpec) → IsSpec s → read_rows spec_arm empty_spec (spec_rows s) ≡ ok (draft_of s)
unfolding spec_arm spec_rows chars_eq
read_rows-spec_rows s w = rw (parse_digest-display s.run_digest w.digest_valid) (
    rw (parse_id-eq s.job_id w.job_valid) (
      rw (parse_id-eq s.attempt_id w.attempt_valid) (
        rw (parse_kind_field-as_str s.job.kind) (
          let start : SpecDraft = record (draft_of s) {
            fields = [];
            output_dir = none;
            rayon_threads = none;
            cuda_devices = [];
          } in
          read_rows-append spec_arm start (map field_row s.job.fields) (tail_rows s)
          ∙ rw (read_rows-field_row start s.job.fields w.fields_wire)
              (read_rows-tail s (record start { fields = s.job.fields }) w)))))

-- What is written of a specification is read back as it was, where its digest, its names and its
-- job are well formed and its numbers are u32, no line breaks its directory, and neither the
-- directory, the names of job and attempt nor the value of a field ends in white space, and no
-- name of a field has an equals sign.
pub decode_spec-encode_spec :
    (s : WorkerSpec) {text : Chars} → IsSpec s → encode_spec s ≡ ok text → decode_spec text ≡ ok s
unfolding encode_spec decode_spec
decode_spec-encode_spec s {text} w h =
    let (_, valid, g) = >>=-eq-ok (validate_spec s) _ h in
    let version : s.schema_version ≡ schema = (==_iff _ schema).0 (validate_spec-schema s valid) in
    let written : render ((codes "zkie-worker-spec", digits schema) ∷ spec_rows s) ≡ text =
      rw version at (ok-injective g) in
    rw (← written) (
      decode_rows "zkie-worker-spec" spec_arm empty_spec finish_spec (spec_rows s) refl
        (spec_rows-IsRow s w)
      ∙ rw (read_rows-spec_rows s w, ◌>>=◌)
          (rw (new_worker_job_again s.job w.built, finish_spec)
            (subst (λ (t : WorkerSpec). (validate_spec t >> ok t) ≡ ok s)
              (ap (λ (v : ℕ). record s { schema_version = v }) version)
              (let e : (validate_spec s >> ok s) ≡ ok s = rw valid refl in e))))
