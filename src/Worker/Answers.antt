-- ===== src/Worker/Answers.antt =====
-- crates/zkie-runtime/src/worker.rs: the codes of failures, the answer of a worker and its text, and
-- what the scheduler accepts as the answer to a specification.
use zk_ie.Common.{
  ℕ, suc, zero, ◌≤◌, ◌<◌, true, false, [], ◌∷◌, some, ok, ◌>>=◌, ◌≡◌, ◌↔◌, refl, ap, ◌∙◌, arith,
  All, take, retain, length, u64_size, ◌==◌, Bool-cases, inl, inr, ok-injective, ==_iff,
}
use zk_ie.Common.Text.{codes}
use zk_ie.Common.Chars.{Chars, is_empty, chars_eq, digits}
use zk_ie.Common.Chars.Laws.{ends_blank, chars_eq_iff}
use zk_ie.Identity.Hex.{IsDigest}
use zk_ie.State.{is_identifier_codes}
use zk_ie.Worker.{
  WorkerSpec, WorkerOutcome, succeeded, failed, WorkerResult, schema, sanitize_code, is_code_char,
  verify_against,
}
use zk_ie.Worker.Wire.{render}
use zk_ie.Worker.Wire.ResultText.{
  encode_result, decode_result, result_rows, result_arm, empty_result, finish_result, status_of,
  code_of, read_outcome,
}
use zk_ie.Worker.Rows.{
  IsRow, Plain, read_rows, identifier-Plain, printable-Plain, Plain-IsRow, digits-row, display-row,
  decode_rows, parse_digest-display, parse_id-eq, parse_u64-digits,
}

-- What a code may be after it is sanitized: a token of 1 to 64 letters, digits, `-`, `_` and `.`.
pub record IsCode (code : Chars) : Type 0 where
  pub named : is_empty code ≡ false
  pub bounded : length code ≤ 64
  pub charset : All (λ c. is_code_char c ≡ true) code

retain-charset : (s : Chars) → All (λ c. is_code_char c ≡ true) (retain is_code_char s)
retain-charset [] = tt
retain-charset (c ∷ s) = elim (Bool-cases (is_code_char c)) [
  | inl e ↦ rw (e, retain) (e, retain-charset s)
  | inr e ↦ rw (e, retain) (retain-charset s)
]

take-All : (P : ℕ → Type 0) (n : ℕ) (s : Chars) → All P s → All P (take n s)
take-All P zero s h = tt
take-All P (suc n) [] h = tt
take-All P (suc n) (c ∷ s) h = (h.0, take-All P n s h.1)

length-take-le : (n : ℕ) (s : Chars) → length (take n s) ≤ n
length-take-le zero s = omega arith
length-take-le (suc n) [] = omega arith
length-take-le (suc n) (c ∷ s) = omega (arith, length-take-le n s)

pub sanitize_code-IsCode : (code : Chars) → IsCode (sanitize_code code)
unfolding sanitize_code
sanitize_code-IsCode code =
    let token = take 64 (retain is_code_char code) in
    elim (Bool-cases (is_empty token)) [
      | inl e ↦ rw e (record { named = refl; bounded = omega arith; charset = ground arith })
      | inr e ↦ rw e (record {
        named = e;
        bounded = length-take-le 64 (retain is_code_char code);
        charset = take-All (λ c. is_code_char c ≡ true) 64 _ (retain-charset code);
      })
    ]

retain-eq : (s : Chars) → All (λ c. is_code_char c ≡ true) s → retain is_code_char s ≡ s
retain-eq [] h = refl
retain-eq (c ∷ s) h = rw (h.0, retain) (ap (◌∷◌ c) (retain-eq s h.1))

take-eq : (n : ℕ) (s : Chars) → length s ≤ n → take n s ≡ s
take-eq zero [] h = refl
take-eq zero (c ∷ s) h = absurd (omega arith)
take-eq (suc n) [] h = refl
take-eq (suc n) (c ∷ s) h = ap (◌∷◌ c) (take-eq n s (omega arith))

-- A code that is a token is kept as it is.
pub sanitize_code-eq : (code : Chars) → IsCode code → sanitize_code code ≡ code
unfolding sanitize_code
sanitize_code-eq code c =
    let e : take 64 (retain is_code_char code) ≡ code =
      ap (take 64) (retain-eq code c.charset) ∙ take-eq 64 code c.bounded in
    rw e (rw c.named refl)

IsCode-printable :
    (s : Chars) → All (λ c. is_code_char c ≡ true) s → All (λ c. (45 ≤ c) × (c ≤ 122)) s
IsCode-printable [] h = tt
IsCode-printable (c ∷ s) h = (ground arith, IsCode-printable s h.1)

-- A result that a worker may write: its digest and its names are well formed, no name ends in white
-- space, and the measurements are `u64`.
pub record IsResult (r : WorkerResult) : Type 0 where
  pub digest_valid : IsDigest r.run_digest
  pub job_valid : is_identifier_codes r.job_id ≡ true
  pub job_end : ends_blank r.job_id ≡ false
  pub attempt_valid : is_identifier_codes r.attempt_id ≡ true
  pub attempt_end : ends_blank r.attempt_id ≡ false
  pub peak_fits : r.measurements.peak_resident_bytes < u64_size
  pub wall_fits : r.measurements.wall_millis < u64_size

code-row :
    (outcome : WorkerOutcome) → Plain (code_of outcome) × (ends_blank (code_of outcome) ≡ false)
code-row succeeded = (tt, refl)
code-row (failed code) =
    printable-Plain (sanitize_code code) (IsCode-printable _ (sanitize_code-IsCode code).charset)

status-row :
    (outcome : WorkerOutcome) → Plain (status_of outcome) × (ends_blank (status_of outcome) ≡ false)
status-row succeeded = printable-Plain (codes "succeeded") (omega arith)
status-row (failed code) = printable-Plain (codes "failed") (omega arith)

result_rows-IsRow : (r : WorkerResult) → IsResult r → All IsRow (result_rows r)
unfolding result_rows
result_rows-IsRow r w = (
  Plain-IsRow (codes "run_digest") _ refl (display-row r.run_digest w.digest_valid),
  (
    Plain-IsRow (codes "job_id") r.job_id refl (identifier-Plain r.job_id w.job_valid, w.job_end),
    (
      Plain-IsRow (codes "attempt_id") r.attempt_id refl
          (identifier-Plain r.attempt_id w.attempt_valid, w.attempt_end),
      (
        Plain-IsRow (codes "status") _ refl (status-row r.outcome),
        (
          Plain-IsRow (codes "code") _ refl (code-row r.outcome),
          (
            Plain-IsRow (codes "peak_resident_bytes") _ refl
                (digits-row r.measurements.peak_resident_bytes),
            (Plain-IsRow (codes "wall_millis") _ refl (digits-row r.measurements.wall_millis), tt),
          ),
        ),
      ),
    ),
  ),
)

-- The outcome with its code as it is written.
abbrev pub sanitized : WorkerOutcome → WorkerOutcome
sanitized succeeded = succeeded
sanitized (failed code) = failed (sanitize_code code)

read_outcome_lem :
    (o : WorkerOutcome) → read_outcome (some (status_of o)) (some (code_of o)) ≡ ok (sanitized o)
unfolding read_outcome chars_eq
read_outcome_lem succeeded = refl
read_outcome_lem (failed code) = rw (sanitize_code-eq _ (sanitize_code-IsCode code)) refl

read_rows-result_rows :
    (r : WorkerResult)
    → IsResult r
    → read_rows result_arm empty_result (result_rows r)
      ≡ ok (record {
        run_digest = some r.run_digest;
        job_id = some r.job_id;
        attempt_id = some r.attempt_id;
        status = some (status_of r.outcome);
        code = some (code_of r.outcome);
        peak = some r.measurements.peak_resident_bytes;
        wall = some r.measurements.wall_millis;
      })
unfolding result_arm result_rows chars_eq
read_rows-result_rows r w = rw (parse_digest-display r.run_digest w.digest_valid) (
    rw (parse_id-eq r.job_id w.job_valid) (
      rw (parse_id-eq r.attempt_id w.attempt_valid) (
        rw (parse_u64-digits r.measurements.peak_resident_bytes w.peak_fits)
          (rw (parse_u64-digits r.measurements.wall_millis w.wall_fits) refl))))

-- What is written of a result is read back with its code sanitized, where its digest and its
-- names are well formed, no name ends in white space and its measurements are u64.
pub decode_result-encode_result :
    (r : WorkerResult) {text : Chars}
    → IsResult r
    → encode_result r ≡ ok text
    → decode_result text ≡ ok (record r { outcome = sanitized r.outcome })
unfolding encode_result decode_result
decode_result-encode_result r {text} w h = elim (Bool-cases (r.schema_version == schema)) [
  | inr other ↦ ground arith
  | inl same ↦
      let version : r.schema_version ≡ schema = (==_iff _ schema).0 same in
      let written : render ((codes "zkie-worker-result", digits schema) ∷ result_rows r) ≡ text =
        rw version at (ok-injective (rw same at h)) in
      rw (← written) (
        decode_rows "zkie-worker-result" result_arm empty_result finish_result (result_rows r) refl
          (result_rows-IsRow r w)
        ∙ rw (read_rows-result_rows r w, ◌>>=◌)
            (rw (read_outcome_lem r.outcome, finish_result) (rw version refl)))
]

-- A result is accepted for a specification exactly where it has the digest of its run and the names of
-- its job and of its attempt.
pub verify_against_iff :
    (r : WorkerResult) (s : WorkerSpec)
    → (verify_against r s ≡ ok tt)
      ↔ ((r.run_digest ≡ s.run_digest) × (r.job_id ≡ s.job_id) × (r.attempt_id ≡ s.attempt_id))
unfolding verify_against
verify_against_iff r s = ground (
  arith,
  chars_eq_iff r.run_digest.bytes s.run_digest.bytes,
  chars_eq_iff r.job_id s.job_id,
  chars_eq_iff r.attempt_id s.attempt_id,
)
