-- ===== src/Queue/Verdicts.antt =====
-- crates/zkie-runtime/src/queue.rs, finish_success: a job is recorded as verified by the verdict of the
-- independent verifier, and by nothing else.
use zk_ie.Common.{
  ℕ, Bool, true, false, Option, none, some, Result, ok, err, String, ◌≡◌, refl, ap, ◌∙◌, subst,
  arith, Result-cases, Bool-cases, inl, inr, >>=-eq-ok, if◌then◌else◌, guard, ok_or,
}
use zk_ie.State.{JobKind, JobState, JobEvent, is_identifier}
use zk_ie.Db.Tables.{
  JobRow, RunDb, DbError, state, job_not_found, controlled_event_required, find_job,
}
use zk_ie.Db.Failures.{
  complete_verification, record_verification, insert_verification, verification_row, record_name,
  require_verification_source, is_leaf_verification,
}
use zk_ie.Db.Commits.Laws.Landing.{apply_event_tx-state}
use zk_ie.Db.Commits.Laws.Kept.{commit_artifact-Committed, commit_key-Committed}
use zk_ie.Worker.{WorkerSpec}
use zk_ie.Queue.{
  PlannedJob, QueueError, verification_rejected, Runtime, JobBinding, proof, key, Published, Engine,
  ◌>>=◌, transact, reads,
}
use zk_ie.Queue.Rounds.{verified_of, commit_of, commit, progress, finish_of, finish_success}

-- The run has the job, in the verified state.
abbrev pub HasVerified : String → RunDb → Type 0
HasVerified job db =
    (row : JobRow) × (find_job job db.jobs ≡ some row) × (row.state ≡ JobState.verified)

-- The parts of a success.
bind-eq-ok :
    {A B : Type 0} (m : Engine A) (f : A → Engine B) (db : RunDb) {db' : RunDb} {b : B}
    → (m >>= f) db ≡ (db', ok b)
    → (mid : RunDb) × (a : A) × (m db ≡ (mid, ok a)) × (f a mid ≡ (db', ok b))
unfolding ◌>>=◌
bind-eq-ok m f db h = elim (Result-cases (m db).1) [
  | inl (a, e) ↦
      ((m db).0, a, ap (λ (r : Result QueueError _). ((m db).0, r)) e, rw (e, ◌>>=◌) at h)
  | inr (x, e) ↦ absurd (ground (arith, rw (e, ◌>>=◌) at h))
]

bind-err :
    {A B : Type 0} (m : Engine A) (f : A → Engine B) (db db' : RunDb) (e : QueueError)
    → m db ≡ (db', err e)
    → (m >>= f) db ≡ (db', err e)
unfolding ◌>>=◌
bind-err m f db db' e h =
    ap
      (λ (out : RunDb × Result QueueError _). elim out.1 [
        | ok x ↦ f x out.0
        | err x ↦ (out.0, err x)
      ])
      h

transact-eq-ok :
    {A : Type 0} (op : RunDb → Result DbError (RunDb × A)) (db : RunDb) {db' : RunDb} {a : A}
    → transact op db ≡ (db', ok a)
    → op db ≡ ok (db', a)
unfolding transact
transact-eq-ok op db h = elim (Result-cases (op db)) [
  | inl (out, e) ↦ e ∙ ground (arith, rw (e, transact) at h)
  | inr (x, e) ↦ absurd (ground (arith, rw (e, transact) at h))
]

event-HasVerified :
    (db : RunDb) (job : String) (attempt : Option String) (r : Option String) (now : ℕ)
    {db' : RunDb} {next : JobState}
    → zk_ie.Db.Apply.apply_event_tx db job attempt (JobEvent.verification_succeeded r) none now
      ≡ ok (db', next)
    → HasVerified job db'
event-HasVerified db job attempt r now h =
    let (row, _, after, _) = apply_event_tx-state db job attempt r now h in
    (record row { state = JobState.verified }, after, refl)

complete_verification-HasVerified :
    (db : RunDb) (job attempt verifier : String) (now : ℕ) {db' : RunDb} {next : JobState}
    → complete_verification db job attempt verifier now ≡ ok (db', next)
    → HasVerified job db'
unfolding complete_verification record_verification
complete_verification-HasVerified db job attempt verifier now h =
    let (_, _, h1) = >>=-eq-ok (guard (is_identifier verifier) state) _ h in
    let (row, _, h2) = >>=-eq-ok (ok_or (find_job job db.jobs) (job_not_found job)) _ h1 in
    let (_, _, h3) =
      >>=-eq-ok (guard (is_leaf_verification row.kind) controlled_event_required) _ h2 in
    let (_, _, h4) = >>=-eq-ok (require_verification_source db job attempt) _ h3 in
    let id = record_name job db.verification_records in
    let (_, _, h5) = >>=-eq-ok (guard (is_identifier id) state) _ h4 in
    let (recorded, _, h6) =
      >>=-eq-ok (insert_verification db (verification_row job attempt verifier id)) _ h5 in
    event-HasVerified recorded job (some attempt) (some id) now h6

module _ (rt : Runtime) (planned : PlannedJob) (job attempt : String) where
  commit_of-HasVerified :
      (p : Published) (b : JobBinding) (db : RunDb) {db' : RunDb} {next : JobState}
      → commit_of rt planned job attempt p b db ≡ ok (db', next)
      → HasVerified job db'
  unfolding commit_of
  commit_of-HasVerified p proof db h =
      let (_, c) =
        commit_artifact-Committed db (verified_of db planned job attempt p) (rt.clock_ms db) h in
      event-HasVerified c.stored job _ _ (rt.clock_ms db) c.applies
  commit_of-HasVerified p key db h =
      let c =
        commit_key-Committed db (verified_of db planned job attempt p) (rt.clock_ms db)
          p.identity_digest h in
      event-HasVerified c.stored job _ _ (rt.clock_ms db) c.applies

  commit-HasVerified :
      (db : RunDb) {db' : RunDb}
      → commit rt planned job attempt db ≡ (db', ok tt)
      → HasVerified job db'
  unfolding commit
  commit-HasVerified db h =
      let (mid, p, _, h1) = bind-eq-ok (reads (λ d. rt.publish d planned attempt)) _ db h in
      let (end, next, e, last) =
        bind-eq-ok (transact (commit_of rt planned job attempt p planned.binding)) _ mid h1 in
      subst (HasVerified job) (ap (λ (out : RunDb × Result QueueError (Unit {0})). out.0) last)
        (commit_of-HasVerified p planned.binding mid (transact-eq-ok _ mid e))

  finish_of-HasVerified :
      (kind : JobKind) (db : RunDb) {db' : RunDb}
      → finish_of rt planned job attempt kind db ≡ (db', ok tt)
      → HasVerified job db'
  unfolding finish_of
  finish_of-HasVerified JobKind.leaf_verification db h =
      let (end, next, e, last) =
        bind-eq-ok
          (transact
            (λ d. complete_verification d job attempt "independent-verifier" (rt.clock_ms d)))
          _ db h in
      subst (HasVerified job) (ap (λ (out : RunDb × Result QueueError (Unit {0})). out.0) last) (
        complete_verification-HasVerified db job attempt "independent-verifier" (rt.clock_ms db)
          (transact-eq-ok _ db e))
  finish_of-HasVerified JobKind.witness db h =
      let (mid, _, _, h1) =
        bind-eq-ok (progress rt job attempt JobEvent.witness_completed) _ db h in
      commit-HasVerified mid h1
  finish_of-HasVerified JobKind.prepare db h =
      let (mid, _, _, h1) =
        bind-eq-ok (progress rt job attempt JobEvent.preparation_completed) _ db h in
      commit-HasVerified mid h1
  finish_of-HasVerified JobKind.leaf_proof db h =
      let (mid, _, _, h1) = bind-eq-ok (progress rt job attempt JobEvent.proof_produced) _ db h in
      commit-HasVerified mid h1
  finish_of-HasVerified JobKind.native_aggregate db h = commit-HasVerified db h

  -- The verdict, as the engine reads it.
  abbrev judge : WorkerSpec → RunDb → Result QueueError (Unit {0})
  judge spec db = if rt.verifies db planned spec then ok tt else err (verification_rejected attempt)

  judged :
      (spec : WorkerSpec) (db : RunDb) (b : Bool)
      → rt.verifies db planned spec ≡ b
      → reads (judge spec) db ≡ (db, if b then ok tt else err (verification_rejected attempt))
  unfolding reads
  judged spec db b e = rw e refl

  -- An output that the verifier rejects changes nothing.
  pub finish_success-rejected :
      (spec : WorkerSpec) (db : RunDb)
      → rt.verifies db planned spec ≡ false
      → finish_success rt planned job attempt spec db ≡ (db, err (verification_rejected attempt))
  unfolding finish_success
  finish_success-rejected spec db refused =
      bind-err (reads (judge spec)) _ db db (verification_rejected attempt)
        (judged spec db false refused)

  -- Where the engine records a success without an error, the independent verifier accepted the
  -- output and the job is verified.
  pub finish_success-verdict :
      (spec : WorkerSpec) (db : RunDb) {db' : RunDb}
      → finish_success rt planned job attempt spec db ≡ (db', ok tt)
      → (rt.verifies db planned spec ≡ true) × HasVerified job db'
  unfolding finish_success
  finish_success-verdict spec db h =
      let (mid, _, e, later) = bind-eq-ok (reads (judge spec)) _ db h in
      elim (Bool-cases (rt.verifies db planned spec)) [
        | inr refused ↦ absurd (ground (arith, e, judged spec db false refused))
        | inl agreed ↦ (agreed, finish_of-HasVerified planned.kind mid later)
      ]
