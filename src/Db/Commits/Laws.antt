-- ===== src/Db/Commits/Laws.antt =====
-- db/artifacts.rs: an object, the record of its verification and the verified state land together, and
-- what a run keeps meanwhile.
pub mod Landing
pub mod Kept
use zk_ie.Common.{
  guard-true, ok_or-some, ℕ, true, Option, none, some, List, [], ◌∷◌, ◌++◌, Result, ok, guard,
  ok_or, String, ◌≡◌, refl, ap, ◌∙◌, subst, arith, >>=-eq-ok, ok-injective,
}
use zk_ie.Common.Text.{str_eq, eq_iff}
use zk_ie.State.{JobState, JobEvent, is_identifier, next_state}
use zk_ie.Db.Tables.{
  RunDb, JobRow, ArtifactRow, DbError, sql, state, store, find_job, artifact_publication_required,
  verified_artifact_run_mismatch, verified_identity_job_kind_mismatch,
}
use zk_ie.Db.Apply.{
  apply_event_tx, audited, attempts_after, current_state, next_of, references_ok, job_after,
}
use zk_ie.Db.Apply.Laws.{
  apply_event_tx-Applied, apply_event_tx-IsConsistent, IsConsistent, IsConsistent-of_rows,
  find_job-update_job, due-job_after,
}
use zk_ie.Db.Failures.{
  require_verification_source, insert_verification, verification_row, record_name,
}
use zk_ie.Db.Commits.{
  Verified, kind_eq, artifact_row, insert_artifact, insert_key, commit_tx, commit_verified_artifact,
  commit_verified_key,
}
use zk_ie.Db.Steps.Unlocked.{IsUnlocked-SameRows, event-IsUnlocked}
use zk_ie.Db.Readiness.Unlocked.{IsUnlocked}

-- Two runs that differ in their verification records, their artifacts and their keys only.
pub record SameRun (db db' : RunDb) : Type 0 where
  pub jobs : db'.jobs ≡ db.jobs
  pub attempts : db'.attempts ≡ db.attempts
  pub dependencies : db'.dependencies ≡ db.dependencies

-- What an `INSERT` may do.
abbrev pub Inserts : (RunDb → ArtifactRow → Result DbError RunDb) → Type 0
Inserts insert_row =
    (db : RunDb) (row : ArtifactRow) (db' : RunDb)
    → insert_row db row ≡ ok db'
    → SameRun db db' × (db'.verification_records ≡ db.verification_records)

pub insert_artifact-Inserts : Inserts insert_artifact
unfolding insert_artifact
insert_artifact-Inserts db row db' h = (
  record { jobs = ground arith; attempts = ground arith; dependencies = ground arith },
  ground arith,
)

pub insert_artifact-adds :
    (db : RunDb) (row : ArtifactRow) {db' : RunDb}
    → insert_artifact db row ≡ ok db'
    → db'.artifacts ≡ db.artifacts ++ row ∷ []
unfolding insert_artifact
insert_artifact-adds db row h = ground arith

pub insert_key-Inserts : Inserts insert_key
unfolding insert_key
insert_key-Inserts db row db' h = (
  record { jobs = ground arith; attempts = ground arith; dependencies = ground arith },
  ground arith,
)

pub insert_verification-SameRun :
    (db : RunDb) (job attempt verifier id : String) (db' : RunDb)
    → insert_verification db (verification_row job attempt verifier id) ≡ ok db'
    → SameRun db db'
      × (db'.verification_records
          ≡ db.verification_records ++ verification_row job attempt verifier id ∷ [])
      × (db'.artifacts ≡ db.artifacts)
      × (db'.key_artifacts ≡ db.key_artifacts)
unfolding insert_verification
insert_verification-SameRun db job attempt verifier id db' h = (
  record { jobs = ground arith; attempts = ground arith; dependencies = ground arith },
  ground arith,
  ground arith,
  ground arith,
)

abbrev pub record_id : RunDb → Verified → String
record_id db v = record_name v.job_id db.verification_records

-- A transaction that committed: the checks that it made, the rows that it inserted into `stored`,
-- and the event that it applied there.
pub record Committed (insert_row : RunDb → ArtifactRow → Result DbError RunDb) (db : RunDb)
    (v : Verified) (id : String) (now : ℕ) (db' : RunDb) (next : JobState) : Type 0 where
  pub row : JobRow
  pub recorded : RunDb
  pub stored : RunDb
  pub pinned : v.pinned ≡ true
  pub source : require_verification_source db v.job_id v.attempt_id ≡ ok tt
  pub found : find_job v.job_id db.jobs ≡ some row
  pub kinds : kind_eq row.kind v.job_kind ≡ true
  pub records :
      insert_verification db (verification_row v.job_id v.attempt_id v.verifier (record_id db v))
      ≡ ok recorded
  pub inserts : insert_row recorded (artifact_row v id row.logical_job_id) ≡ ok stored
  pub applies :
      apply_event_tx stored v.job_id
        (some v.attempt_id)
        (JobEvent.verification_succeeded (some (record_id db v)))
        none
        now
      ≡ ok (db', next)

pub commit_tx-Committed :
    (insert_row : RunDb → ArtifactRow → Result DbError RunDb) (db : RunDb) (v : Verified)
    (id : String) (now : ℕ) {db' : RunDb} {next : JobState}
    → commit_tx insert_row db v id now ≡ ok (db', next)
    → Committed insert_row db v id now db' next
unfolding commit_tx
commit_tx-Committed insert_row db v id now h =
    let (_, pins, h1) = >>=-eq-ok (guard v.pinned store) _ h in
    let (_, source, h2) = >>=-eq-ok (require_verification_source db v.job_id v.attempt_id) _ h1 in
    let (row, found, h3) = >>=-eq-ok (ok_or (find_job v.job_id db.jobs) sql) _ h2 in
    let (_, kinds, h4) =
      >>=-eq-ok (guard (kind_eq row.kind v.job_kind) verified_identity_job_kind_mismatch) _ h3 in
    let (_, _, h5) = >>=-eq-ok (guard (is_identifier (record_id db v)) state) _ h4 in
    let (recorded, records, h6) =
      >>=-eq-ok
        (insert_verification db
          (verification_row v.job_id v.attempt_id v.verifier (record_id db v)))
        _ h5 in
    let (stored, inserts, applies) =
      >>=-eq-ok (insert_row recorded (artifact_row v id row.logical_job_id)) _ h6 in
    record {
      row = row;
      recorded = recorded;
      stored = stored;
      pinned = guard-true _ store pins;
      source = source;
      found = ok_or-some _ sql found;
      kinds = guard-true _ verified_identity_job_kind_mismatch kinds;
      records = records;
      inserts = inserts;
      applies = applies;
    }

module _ {insert_row : RunDb → ArtifactRow → Result DbError RunDb} {db : RunDb} {v : Verified}
    {id : String} {now : ℕ} {db' : RunDb} {next : JobState}
    (c : Committed insert_row db v id now db' next) where
  Committed-SameRun : Inserts insert_row → SameRun db c.stored
  Committed-SameRun ins =
      let a =
        (insert_verification-SameRun db v.job_id v.attempt_id v.verifier (record_id db v) c.recorded
          c.records).0 in
      let b = (ins c.recorded (artifact_row v id c.row.logical_job_id) c.stored c.inserts).0 in
      record {
        jobs = b.jobs ∙ a.jobs;
        attempts = b.attempts ∙ a.attempts;
        dependencies = b.dependencies ∙ a.dependencies;
      }

  pub Committed-IsConsistent : Inserts insert_row → IsConsistent db → IsConsistent db'
  Committed-IsConsistent ins k =
      let s = Committed-SameRun ins in
      apply_event_tx-IsConsistent c.stored v.job_id (some v.attempt_id)
        (JobEvent.verification_succeeded (some (record_id db v))) none now c.applies refl
        (IsConsistent-of_rows db c.stored s.jobs s.attempts k)

  pub Committed-IsUnlocked : Inserts insert_row → IsUnlocked db → IsUnlocked db'
  Committed-IsUnlocked ins u =
      let s = Committed-SameRun ins in
      event-IsUnlocked c.stored v.job_id (some v.attempt_id)
        (JobEvent.verification_succeeded (some (record_id db v))) none now c.applies (λ e. cc)
        (IsUnlocked-SameRows db c.stored (record { jobs = s.jobs; dependencies = s.dependencies })
          u)
