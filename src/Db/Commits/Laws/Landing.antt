-- ===== src/Db/Commits/Laws/Landing.antt =====
-- db/artifacts.rs: what a commit leaves in the tables.
use zk_ie.Common.{
  guard-true, ok_or-some, ℕ, true, Option, none, some, List, [], ◌∷◌, ◌++◌, Result, ok, guard,
  ok_or, String, ◌≡◌, ap, ◌∙◌, subst, arith, >>=-eq-ok, ok-injective,
}
use zk_ie.Common.Text.{str_eq, eq_iff}
use zk_ie.State.{JobState, JobEvent, next_state}
use zk_ie.Db.Tables.{
  RunDb, JobRow, ArtifactRow, DbError, sql, store, find_job, artifact_publication_required,
  verified_artifact_run_mismatch,
}
use zk_ie.Db.Apply.{
  apply_event_tx, audited, attempts_after, current_state, next_of, references_ok, job_after,
}
use zk_ie.Db.Apply.Laws.{apply_event_tx-Applied, find_job-update_job, due-job_after}
use zk_ie.Db.Failures.{require_verification_source, verification_row}
use zk_ie.Db.Commits.{Verified, kind_eq, artifact_row, insert_artifact, commit_verified_artifact}
use zk_ie.Db.Commits.Laws.{
  Committed-SameRun, Committed, Inserts, commit_tx-Committed, insert_artifact-Inserts,
  insert_artifact-adds, insert_verification-SameRun, record_id,
}

-- An event leaves the tables of objects alone.
abbrev SameObjects : RunDb → RunDb → Type 0
SameObjects db db' = (db'.artifacts ≡ db.artifacts) × (db'.key_artifacts ≡ db.key_artifacts)

attempts_after-SameObjects :
    (db : RunDb) (job : String) (attempt : Option String) (next : JobState) (now : ℕ)
    → SameObjects db (attempts_after db job attempt next now)
unfolding attempts_after
attempts_after-SameObjects db job none next now = ground arith
attempts_after-SameObjects db job (some a) next now = ground arith

apply_event_tx-SameObjects :
    (db : RunDb) (job : String) (attempt : Option String) (event : JobEvent)
    (attempt_count : Option ℕ) (now : ℕ) {db' : RunDb} {next : JobState}
    → apply_event_tx db job attempt event attempt_count now ≡ ok (db', next)
    → SameObjects db db'
unfolding apply_event_tx audited
apply_event_tx-SameObjects db job attempt event attempt_count now {db'} {next} h =
    let (current, _, h1) = >>=-eq-ok (current_state db job) _ h in
    let (after, _, h2) = >>=-eq-ok (next_of current event) _ h1 in
    let (_, _, h3) = >>=-eq-ok (guard (references_ok db job attempt event) sql) _ h2 in
    subst (λ (out : RunDb × JobState). SameObjects db out.0) (ok-injective h3)
      (attempts_after-SameObjects (audited db job attempt event attempt_count now current after) job
        attempt after now)

verdict :
    (s next : JobState) (r : Option String)
    → next_state s (JobEvent.verification_succeeded r) ≡ some next
    → next ≡ JobState.verified
unfolding next_state
verdict s next r h = ground arith

-- The job of an event that applied is in the next state, and its logical name is kept.
pub apply_event_tx-state :
    (db : RunDb) (job : String) (attempt : Option String) (r : Option String) (now : ℕ)
    {db' : RunDb} {next : JobState}
    → apply_event_tx db job attempt (JobEvent.verification_succeeded r) none now ≡ ok (db', next)
    → (row : JobRow) × (find_job job db.jobs ≡ some row)
      × (find_job job db'.jobs ≡ some (record row { state = JobState.verified }))
      × (next ≡ JobState.verified)
apply_event_tx-state db job attempt r now {db'} {next} h =
    let event = JobEvent.verification_succeeded r in
    let a = apply_event_tx-Applied db job attempt event none now h in
    let is : find_job job db'.jobs ≡ some (job_after event next none a.row) =
      ap (find_job job) a.jobs
      ∙ find_job-update_job job job (job_after event next none) db.jobs
          (λ r. (due-job_after event next none r).1)
      ∙ ground (arith, eq_iff job job, a.found) in
    let won = verdict a.row.state next r a.moved in
    (
      a.row,
      a.found,
      unfold job_after in
          subst (λ (n : JobState). find_job job db'.jobs ≡ some (record a.row { state = n })) won
            is,
      won,
    )

-- What a commit leaves: the row of the object, the record of its verification, and the job, verified
-- and otherwise as it was.
pub record Lands (db : RunDb) (v : Verified) (old new : List ArtifactRow) (id : String)
    (db' : RunDb) (next : JobState) : Type 0 where
  pub row : JobRow
  pub pinned : v.pinned ≡ true
  pub source : require_verification_source db v.job_id v.attempt_id ≡ ok tt
  pub kinds : kind_eq row.kind v.job_kind ≡ true
  pub object : new ≡ old ++ artifact_row v id row.logical_job_id ∷ []
  pub record_added :
      db'.verification_records
      ≡ db.verification_records
        ++ verification_row v.job_id v.attempt_id v.verifier (record_id db v) ∷ []
  pub before : find_job v.job_id db.jobs ≡ some row
  pub after : find_job v.job_id db'.jobs ≡ some (record row { state = JobState.verified })
  pub answer : next ≡ JobState.verified

module _ {insert_row : RunDb → ArtifactRow → Result DbError RunDb} {db : RunDb} {v : Verified}
    {id : String} {now : ℕ} {db' : RunDb} {next : JobState}
    (c : Committed insert_row db v id now db' next) where
  Committed-Lands :
      Inserts insert_row
      → (old new : List ArtifactRow) → new ≡ old ++ artifact_row v id c.row.logical_job_id ∷ []
      → Lands db v old new id db' next
  Committed-Lands ins old new e =
      let s = Committed-SameRun c ins in
      let a =
        insert_verification-SameRun db v.job_id v.attempt_id v.verifier (record_id db v) c.recorded
          c.records in
      let (row, found, after, verified) =
        apply_event_tx-state c.stored v.job_id (some v.attempt_id) (some (record_id db v)) now
          c.applies in
      let same : row ≡ c.row = ground (arith, c.found, s.jobs, found) in
      record {
        row = c.row;
        pinned = c.pinned;
        source = c.source;
        kinds = c.kinds;
        object = e;
        record_added =
            (apply_event_tx-Applied c.stored v.job_id (some v.attempt_id)
              (JobEvent.verification_succeeded (some (record_id db v))) none now c.applies).records
            ∙ (ins c.recorded (artifact_row v id c.row.logical_job_id) c.stored c.inserts).1
            ∙ a.1;
        before = c.found;
        after =
            subst
              (λ (r : JobRow).
                find_job v.job_id db'.jobs ≡ some (record r { state = JobState.verified }))
              same after;
        answer = verified;
      }

-- A committed artifact is an artifact of the run and passed the checks of its store before the
-- transaction and in it, its attempt was one that awaits a verdict for a job of its kind; it
-- stands at the end of the table of artifacts and the record of its verification at the end of
-- theirs, and its job is verified and otherwise as it was.
pub commit_verified_artifact-Lands :
    (db : RunDb) (v : Verified) (now : ℕ) {db' : RunDb} {next : JobState}
    → commit_verified_artifact db v now ≡ ok (db', next)
    → (id : String) × (v.artifact_id ≡ some id)
      × (v.run_id ≡ db.run_id)
      × (v.is_artifact ≡ true)
      × (v.durable ≡ true)
      × Lands db v db.artifacts db'.artifacts id db' next
unfolding commit_verified_artifact insert_artifact
commit_verified_artifact-Lands db v now {db'} {next} h =
    let (_, run, h1) =
      >>=-eq-ok (guard (str_eq v.run_id db.run_id) verified_artifact_run_mismatch) _ h in
    let (id, named, h2) = >>=-eq-ok (ok_or v.artifact_id artifact_publication_required) _ h1 in
    let (_, artifact, h3) = >>=-eq-ok (guard v.is_artifact artifact_publication_required) _ h2 in
    let (_, durable, h4) = >>=-eq-ok (guard v.durable store) _ h3 in
    let c = commit_tx-Committed insert_artifact db v id now h4 in
    let a =
      insert_verification-SameRun db v.job_id v.attempt_id v.verifier (record_id db v) c.recorded
        c.records in
    let objects = apply_event_tx-SameObjects c.stored _ _ _ none now c.applies in
    let inserted : c.stored.artifacts
        ≡ c.recorded.artifacts ++ artifact_row v id c.row.logical_job_id ∷ [] =
      insert_artifact-adds c.recorded (artifact_row v id c.row.logical_job_id) c.inserts in
    (
      id,
      ok_or-some _ artifact_publication_required named,
      (eq_iff _ _).0 (guard-true _ verified_artifact_run_mismatch run),
      guard-true _ artifact_publication_required artifact,
      guard-true _ store durable,
      Committed-Lands c insert_artifact-Inserts db.artifacts db'.artifacts (
          objects.0
          ∙ inserted
          ∙ ap (λ (l : List ArtifactRow). l ++ artifact_row v id c.row.logical_job_id ∷ []) a.2),
    )
