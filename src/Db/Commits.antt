-- ===== src/Db/Commits.antt =====
-- db/artifacts.rs: a published object and the verification of its attempt, recorded together.
pub mod Laws
use zk_ie.Common.{
  ℕ, Bool, true, false, not, ◌&&◌, ◌||◌, Option, none, some, List, [], ◌∷◌, ◌++◌, Result, ok, err,
  ◌>>=◌, ◌>>◌, guard, ok_or, String, any, if◌then◌else◌,
}
use zk_ie.Common.Text.{str_eq}
use zk_ie.State.{JobKind, JobState, JobEvent, is_identifier}
use zk_ie.State.Names.{kind_as_str}
use zk_ie.Db.Tables.{
  RunDb, ArtifactRow, DbError, sql, state, store, verified_artifact_run_mismatch,
  artifact_publication_required, verified_identity_job_kind_mismatch, find_job, has_attempt,
}
use zk_ie.Db.Apply.{apply_event_tx}
use zk_ie.Db.Failures.{
  require_verification_source, insert_verification, verification_row, record_name,
}

-- What a `VerifiedArtifact` or a `VerifiedKey` binds. The checks of the object in its store are file
-- I/O: `durable` and `pinned` say whether those before the transaction and those inside it pass.
pub record Verified : Type 0 where
  pub run_id : String
  pub job_id : String
  pub attempt_id : String
  pub job_kind : JobKind
  pub verifier : String
  pub artifact_id : Option String
  pub is_artifact : Bool
  pub object_digest : String
  pub durable : Bool
  pub pinned : Bool

-- The kinds are compared by their texts.
abbrev pub kind_eq : JobKind → JobKind → Bool
kind_eq a b = str_eq (kind_as_str a) (kind_as_str b)

-- The three unique keys of both tables, and the foreign key to the attempt.
unfoldable pub may_insert : RunDb → List ArtifactRow → ArtifactRow → Bool
may_insert db rows row =
    not (
      any
        (λ r.
          str_eq r.artifact_id row.artifact_id
          || str_eq r.logical_job_id row.logical_job_id
          || str_eq r.object_digest row.object_digest)
        rows)
    && has_attempt row.job_id row.attempt_id db.attempts

abbrev pub artifact_row : Verified → String → String → ArtifactRow
artifact_row v id logical = record {
  artifact_id = id;
  job_id = v.job_id;
  logical_job_id = logical;
  attempt_id = v.attempt_id;
  object_digest = v.object_digest;
}

-- The `INSERT INTO artifacts`, and the `INSERT INTO key_artifacts`.
unfoldable pub insert_artifact : RunDb → ArtifactRow → Result DbError RunDb
unfolding may_insert
insert_artifact db row =
    if may_insert db db.artifacts row
    then ok (record db { artifacts = db.artifacts ++ row ∷ [] })
    else err sql

unfoldable pub insert_key : RunDb → ArtifactRow → Result DbError RunDb
unfolding may_insert
insert_key db row =
    if may_insert db db.key_artifacts row
    then ok (record db { key_artifacts = db.key_artifacts ++ row ∷ [] })
    else err sql

-- The transaction that both functions make, with the `INSERT` of the one or the other table.
unfoldable pub commit_tx :
    (RunDb → ArtifactRow → Result DbError RunDb)
    → RunDb
    → Verified
    → String
    → ℕ
    → Result DbError (RunDb × JobState)
commit_tx insert_row db v id now = do
  guard v.pinned store
  require_verification_source db v.job_id v.attempt_id
  row ← ok_or (find_job v.job_id db.jobs) sql
  guard (kind_eq row.kind v.job_kind) verified_identity_job_kind_mismatch
  let record_id = record_name v.job_id db.verification_records
  guard (is_identifier record_id) state
  recorded ← insert_verification db (verification_row v.job_id v.attempt_id v.verifier record_id)
  stored ← insert_row recorded (artifact_row v id row.logical_job_id)
  apply_event_tx stored v.job_id (some v.attempt_id)
      (JobEvent.verification_succeeded (some record_id)) none now

unfoldable pub commit_verified_artifact : RunDb → Verified → ℕ → Result DbError (RunDb × JobState)
unfolding commit_tx insert_artifact
commit_verified_artifact db v now = do
  guard (str_eq v.run_id db.run_id) verified_artifact_run_mismatch
  id ← ok_or v.artifact_id artifact_publication_required
  guard v.is_artifact artifact_publication_required
  guard v.durable store
  commit_tx insert_artifact db v id now

-- The key of the row is the digest of the identity, which every attested key has. The size of the
-- object, which the program refuses above the range of an i64, is left out.
unfoldable pub commit_verified_key :
    RunDb → Verified → String → ℕ → Result DbError (RunDb × JobState)
unfolding commit_tx insert_key
commit_verified_key db v identity_digest now = do
  guard (str_eq v.run_id db.run_id) verified_artifact_run_mismatch
  guard v.durable store
  commit_tx insert_key db v identity_digest now
