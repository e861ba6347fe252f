-- ===== src/Db/Steps/Reachable.antt =====
-- What holds of a run however its operations are ordered.
use zk_ie.Common.{
  ◌≡◌, refl, Option, none, some, List, [], ◌∷◌, ◌++◌, String, arith, Bool-cases, inl, inr,
}
use zk_ie.Common.Text.{str_eq}
use zk_ie.State.{JobState, JobKind}
use zk_ie.Db.Tables.{JobRow, RunDb, find_job}
use zk_ie.Db.Jobs.{insert_job, add_dependency, new_job}
use zk_ie.Db.Apply.Laws.{IsConsistent, IsConsistent-of_rows, due}
use zk_ie.Db.Attempts.Laws.{begin_attempt-IsConsistent, apply_attempt_event-IsConsistent}
use zk_ie.Db.Failures.Laws.{
  handle_attempt_failure-Sound, fail_verification-Sound, complete_verification-Sound,
  record_observation-rows,
}
use zk_ie.Db.Commits.Laws.Kept.{commit_verified_artifact-Keeps, commit_verified_key-Keeps}
use zk_ie.Db.Readiness.Laws.{refresh_readiness-Sound, recover_interrupted-Sound}
use zk_ie.Db.Readiness.Unlocked.{IsUnlocked, refresh_readiness-IsUnlocked}
use zk_ie.Db.Steps.{
  Planned, empty, inserted, depending, Step, began, progressed, failed, rejected, accepted,
  published, keyed, refreshed, recovered, measured, Reached, planned, step,
}
use zk_ie.Db.Steps.Unlocked.{begin_attempt-IsUnlocked, apply_attempt_event-IsUnlocked}
use zk_ie.Db.Steps.Ends.{
  handle_attempt_failure-IsUnlocked, fail_verification-IsUnlocked, complete_verification-IsUnlocked,
  recover_interrupted-IsUnlocked, record_resource_peak-IsUnlocked,
}

-- A planned run has no attempts, and every job is pending.
record IsIdle (db : RunDb) : Type 0 where
  closed : db.attempts ≡ []
  pending : (id : String) (r : JobRow) → find_job id db.jobs ≡ some r → r.state ≡ JobState.pending

find_job-append :
    (id job logical : String) (kind : JobKind) (rows : List JobRow) (r : JobRow)
    → ((s : JobRow) → find_job id rows ≡ some s → s.state ≡ JobState.pending)
    → find_job id (rows ++ new_job job logical kind ∷ []) ≡ some r
    → r.state ≡ JobState.pending
find_job-append id job logical kind [] r k h = ground arith
find_job-append id job logical kind (s ∷ rows) r k h = elim (Bool-cases (str_eq s.job_id id)) [
  | inl hit ↦ k r (ground (arith, h, hit))
  | inr miss ↦
      find_job-append id job logical kind rows r (λ t f. k t (ground (arith, f, miss)))
        (ground (arith, h, miss))
]

Planned-IsIdle : {db : RunDb} → Planned db → IsIdle db
unfolding insert_job add_dependency
Planned-IsIdle (empty run_id) = record { closed = refl; pending = λ id r h. cc }
Planned-IsIdle (inserted db db' logical id kind p h) =
    let i = Planned-IsIdle p in
    let jobs : db'.jobs ≡ db.jobs ++ new_job id logical kind ∷ [] = ground (arith, h) in
    record {
      closed = ground (arith, h, i.closed);
      pending =
          λ job r f. find_job-append job id logical kind db.jobs r (i.pending job) (rw jobs at f);
    }
Planned-IsIdle (depending db db' predecessor successor p h) =
    let i = Planned-IsIdle p in
    let jobs : db'.jobs ≡ db.jobs = ground (arith, h) in
    record {
      closed = ground (arith, h, i.closed);
      pending = λ job r f. i.pending job r (rw jobs at f);
    }

-- A planned run has no attempts.
pub Planned-closed : {db : RunDb} → Planned db → db.attempts ≡ []
Planned-closed p = (Planned-IsIdle p).closed

IsIdle-IsConsistent : {db : RunDb} → IsIdle db → IsConsistent db
IsIdle-IsConsistent {db} i = record {
  opens = λ id. rw (i.closed) (none_due id (find_job id db.jobs) (i.pending id));
  owned = λ attempt job job' h k. absurd (ground (arith, h, i.closed));
}
  where
    none_due :
        (id : String) (o : Option JobRow)
        → ((r : JobRow) → o ≡ some r → r.state ≡ JobState.pending)
        → 0 ≡ due o
    none_due id none k = refl
    none_due id (some r) k = ground (arith, k r)

Step-IsConsistent : {db db' : RunDb} → Step db db' → IsConsistent db → IsConsistent db'
Step-IsConsistent {db} (began job attempt event now db' h) c =
    begin_attempt-IsConsistent db job event now h c
Step-IsConsistent {db} (progressed job attempt event now next db' h) c =
    apply_attempt_event-IsConsistent db job attempt event now h c
Step-IsConsistent {db} (failed job attempt f o now d db' h) c =
    (handle_attempt_failure-Sound db job attempt f o now c).at (db', d) h
Step-IsConsistent {db} (rejected job attempt f now next db' h) c =
    (fail_verification-Sound db job attempt f now c).at (db', next) h
Step-IsConsistent {db} (accepted job attempt verifier now next db' h) c =
    (complete_verification-Sound db job attempt verifier now c).at (db', next) h
Step-IsConsistent {db} (published v now next db' h) c =
    (commit_verified_artifact-Keeps db v now h).0 c
Step-IsConsistent {db} (keyed v id now next db' h) c = (commit_verified_key-Keeps db v now id h).0 c
Step-IsConsistent {db} (refreshed now ready db' h) c =
    (refresh_readiness-Sound db now c).at (db', ready) h
Step-IsConsistent {db} (recovered now count db' h) c =
    (recover_interrupted-Sound db now c).at (db', count) h
Step-IsConsistent {db} (measured key peak db' h) c =
    let rows = record_observation-rows db (some (key, peak)) h in
    IsConsistent-of_rows db db' rows.0 rows.1 c

Step-IsUnlocked : {db db' : RunDb} → Step db db' → IsUnlocked db → IsUnlocked db'
Step-IsUnlocked {db} (began job attempt event now db' h) u =
    (begin_attempt-IsUnlocked db job event now u).at (db', attempt) h
Step-IsUnlocked {db} (progressed job attempt event now next db' h) u =
    (apply_attempt_event-IsUnlocked db job attempt event now u).at (db', next) h
Step-IsUnlocked {db} (failed job attempt f o now d db' h) u =
    (handle_attempt_failure-IsUnlocked db job attempt f o now u).at (db', d) h
Step-IsUnlocked {db} (rejected job attempt f now next db' h) u =
    (fail_verification-IsUnlocked db job attempt f now u).at (db', next) h
Step-IsUnlocked {db} (accepted job attempt verifier now next db' h) u =
    (complete_verification-IsUnlocked db job attempt verifier now u).at (db', next) h
Step-IsUnlocked {db} (published v now next db' h) u =
    (commit_verified_artifact-Keeps db v now h).1 u
Step-IsUnlocked {db} (keyed v id now next db' h) u = (commit_verified_key-Keeps db v now id h).1 u
Step-IsUnlocked {db} (refreshed now ready db' h) u =
    (refresh_readiness-IsUnlocked db now u).at (db', ready) h
Step-IsUnlocked {db} (recovered now count db' h) u =
    (recover_interrupted-IsUnlocked db now u).at (db', count) h
Step-IsUnlocked {db} (measured key peak db' h) u = record_resource_peak-IsUnlocked db key peak h u

-- However the operations that Db.Steps lists are applied to a planned run, each job has exactly
-- one open attempt while its state is active and none otherwise, and an attempt id belongs to one
-- job.
pub Reached-IsConsistent : {db : RunDb} → Reached db → IsConsistent db
Reached-IsConsistent (planned db p) = IsIdle-IsConsistent (Planned-IsIdle p)
Reached-IsConsistent (step db db' r s) = Step-IsConsistent s (Reached-IsConsistent r)

-- However the operations that Db.Steps lists are applied to a planned run, a job past the waiting
-- states has only verified predecessors.
pub Reached-IsUnlocked : {db : RunDb} → Reached db → IsUnlocked db
Reached-IsUnlocked (planned db p) =
    let i = Planned-IsIdle p in λ job r f w. absurd (ground (arith, i.pending job r f, w))
Reached-IsUnlocked (step db db' r s) = Step-IsUnlocked s (Reached-IsUnlocked r)
