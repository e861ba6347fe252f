-- ===== src/Db/Commits/Laws/Kept.antt =====
-- db/artifacts.rs: what a run keeps while an object is committed.
use zk_ie.Common.{ℕ, ok, guard, ok_or, String, ◌≡◌, >>=-eq-ok}
use zk_ie.Common.Text.{str_eq}
use zk_ie.State.{JobState}
use zk_ie.Db.Tables.{RunDb, store, artifact_publication_required, verified_artifact_run_mismatch}
use zk_ie.Db.Apply.Laws.{IsConsistent}
use zk_ie.Db.Commits.{
  Verified, insert_artifact, insert_key, commit_verified_artifact, commit_verified_key,
}
use zk_ie.Db.Readiness.Unlocked.{IsUnlocked}
use zk_ie.Db.Commits.Laws.{
  Committed, Committed-IsConsistent, Committed-IsUnlocked, commit_tx-Committed,
  insert_artifact-Inserts, insert_key-Inserts,
}

-- Both operations keep the invariants of a run.
module _ (db : RunDb) (v : Verified) (now : ℕ) where
  pub commit_artifact-Committed :
      {db' : RunDb} {next : JobState}
      → commit_verified_artifact db v now ≡ ok (db', next)
      → (id : String) × Committed insert_artifact db v id now db' next
  unfolding commit_verified_artifact
  commit_artifact-Committed h =
      let (_, _, h1) =
        >>=-eq-ok (guard (str_eq v.run_id db.run_id) verified_artifact_run_mismatch) _ h in
      let (id, _, h2) = >>=-eq-ok (ok_or v.artifact_id artifact_publication_required) _ h1 in
      let (_, _, h3) = >>=-eq-ok (guard v.is_artifact artifact_publication_required) _ h2 in
      let (_, _, h4) = >>=-eq-ok (guard v.durable store) _ h3 in
      (id, commit_tx-Committed insert_artifact db v id now h4)

  pub commit_key-Committed :
      (id : String) {db' : RunDb} {next : JobState}
      → commit_verified_key db v id now ≡ ok (db', next)
      → Committed insert_key db v id now db' next
  unfolding commit_verified_key
  commit_key-Committed id h =
      let (_, _, h1) =
        >>=-eq-ok (guard (str_eq v.run_id db.run_id) verified_artifact_run_mismatch) _ h in
      let (_, _, h2) = >>=-eq-ok (guard v.durable store) _ h1 in
      commit_tx-Committed insert_key db v id now h2

  pub commit_verified_artifact-Keeps :
      {db' : RunDb} {next : JobState}
      → commit_verified_artifact db v now ≡ ok (db', next)
      → (IsConsistent db → IsConsistent db') × (IsUnlocked db → IsUnlocked db')
  commit_verified_artifact-Keeps h =
      let c = (commit_artifact-Committed h).1 in
      (
        Committed-IsConsistent c insert_artifact-Inserts,
        Committed-IsUnlocked c insert_artifact-Inserts,
      )

  pub commit_verified_key-Keeps :
      (id : String) {db' : RunDb} {next : JobState}
      → commit_verified_key db v id now ≡ ok (db', next)
      → (IsConsistent db → IsConsistent db') × (IsUnlocked db → IsUnlocked db')
  commit_verified_key-Keeps id h =
      let c = commit_key-Committed id h in
      (Committed-IsConsistent c insert_key-Inserts, Committed-IsUnlocked c insert_key-Inserts)
