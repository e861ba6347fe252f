-- ===== src/Db/Steps/Unlocked.antt =====
-- No operation but the refresh takes a job past waiting, so every one keeps jobs behind their
-- dependencies.
use zk_ie.Common.{
  ℕ, zero, suc, ◌+◌, ◌≡◌, refl, ◌≢◌, ◌∙◌, ap, Option, none, some, List, [], ◌∷◌, Result, ok,
  Ensures, Ensures-bind, String, arith, Result-cases, Option-cases, inl, inr, guard, subst,
}
use zk_ie.State.{JobState, JobEvent}
use zk_ie.Db.Tables.{JobRow, RunDb, DbError, controlled_event_required, find_job, update_job}
use zk_ie.Db.Apply.{apply_event_tx}
use zk_ie.Db.Apply.Laws.{apply_event_tx-Applied, find_job-update_job, KeepsState}
use zk_ie.Db.Attempts.{
  begin_attempt, apply_attempt_event, is_attempt_event, attempt_name, require_unique_open_attempt,
}
use zk_ie.Db.Attempts.Laws.{begin_attempt_steps}
use zk_ie.Db.Blocking.{
  as_terminal, set_terminal, block_successors, drain, done, block_descendants_fueled,
  block_descendants_tx, successors, count_awaiting,
}
use zk_ie.Db.Blocking.Laws.{block_successors-cons, block_descendants_done}
use zk_ie.Db.Readiness.Unlocked.{IsUnlocked, Applied-IsUnlocked}

-- What the invariant reads: the jobs and the dependencies.
pub record SameRows (db db' : RunDb) : Type 0 where
  pub jobs : db'.jobs ≡ db.jobs
  pub dependencies : db'.dependencies ≡ db.dependencies

pub IsUnlocked-SameRows : (db db' : RunDb) → SameRows db db' → IsUnlocked db → IsUnlocked db'
IsUnlocked-SameRows db db' s u = λ job r f w p q d g.
    u job r (rw (s.jobs) at f) w p q (rw (s.dependencies) at d) (rw (s.jobs) at g)

pub event-IsUnlocked :
    (db : RunDb) (job : String) (attempt : Option String) (event : JobEvent)
    (attempt_count : Option ℕ) (now : ℕ) {db' : RunDb} {next : JobState}
    → apply_event_tx db job attempt event attempt_count now ≡ ok (db', next)
    → event ≢ JobEvent.dependencies_satisfied
    → IsUnlocked db
    → IsUnlocked db'
event-IsUnlocked db job attempt event attempt_count now h other u =
    Applied-IsUnlocked (apply_event_tx-Applied db job attempt event attempt_count now h) u
      (λ e. absurd (other e))

pub update_job-IsUnlocked :
    (db : RunDb) (job : String) (f : JobRow → JobRow)
    → KeepsState f
    → IsUnlocked db
    → IsUnlocked (record db { jobs = update_job job f db.jobs })
update_job-IsUnlocked db job f k u id r found w p q d found_p =
    let (r', at, same) = before id r found in
    let (q', at_p, same_p) = before p q found_p in
    let was : q'.state ≡ JobState.verified = u id r' at (rw same at w) p q' d at_p in rw same_p was
  where
    -- The row before the update, in the same state.
    before :
        (i : String) (s : JobRow)
        → find_job i (update_job job f db.jobs) ≡ some s
        → (s' : JobRow) × (find_job i db.jobs ≡ some s') × (s.state ≡ s'.state)
    before i s h =
        let at = find_job-update_job i job f db.jobs (λ r. (k r).0) in
        elim (Option-cases (find_job i db.jobs)) [
          | inl missing ↦ absurd (ground (arith, h, at, missing))
          | inr (s', is) ↦ (s', is, ground (arith, h, at, is, k s'))
        ]

-- The databases that results leave.
abbrev pub Keeps : {A : Type 0} → Result DbError (RunDb × A) → Type 0
Keeps = Ensures (λ out. IsUnlocked out.0)

pub set_terminal-IsUnlocked :
    (db : RunDb) (job : String) → IsUnlocked db → IsUnlocked (set_terminal db job)
set_terminal-IsUnlocked db job u = update_job-IsUnlocked db job as_terminal (λ r. (refl, refl)) u

block_successors-IsUnlocked :
    (predecessor : String) (ss : List String) (now : ℕ) (db : RunDb) (frontier : List String)
    {db' : RunDb} {frontier' : List String}
    → block_successors predecessor ss now db frontier ≡ ok (db', frontier')
    → IsUnlocked db
    → IsUnlocked db'
unfolding block_successors
block_successors-IsUnlocked predecessor [] now db frontier {db'} h u =
    let e : db ≡ db' = ground arith in subst IsUnlocked e u
block_successors-IsUnlocked predecessor (s ∷ ss) now db frontier h u =
    elim (block_successors-cons predecessor now s ss db frontier h) [
      | inl k ↦ block_successors-IsUnlocked predecessor ss now db frontier k.rest u
      | inr p ↦
          block_successors-IsUnlocked predecessor ss now (set_terminal p.after s) (s ∷ frontier)
            p.rest
            (set_terminal-IsUnlocked p.after s (
              event-IsUnlocked db s none (JobEvent.dependency_blocked predecessor) none now
                p.applied (λ e. cc) u))
    ]

drain-IsUnlocked :
    (fuel now : ℕ) (db : RunDb) (frontier : List String) {db' : RunDb}
    → drain fuel now db frontier ≡ done (ok db')
    → IsUnlocked db
    → IsUnlocked db'
unfolding drain
drain-IsUnlocked fuel now db [] {db'} h u = let e : db ≡ db' = ground arith in subst IsUnlocked e u
drain-IsUnlocked zero now db (p ∷ frontier) h u = absurd (ground arith)
drain-IsUnlocked (suc fuel) now db (p ∷ frontier) {db'} h u =
    elim (Result-cases (block_successors p (successors db p) now db frontier)) [
      | inr (e, is) ↦ absurd (ground arith)
      | inl ((mid, frontier'), is) ↦
          let e : drain fuel now mid frontier' ≡ done (ok db') = ground arith in
          drain-IsUnlocked fuel now mid frontier' e
            (block_successors-IsUnlocked p (successors db p) now db frontier is u)
    ]

pub block_descendants-IsUnlocked :
    (db : RunDb) (job : String) (now : ℕ) {db' : RunDb}
    → block_descendants_tx db job now ≡ ok db'
    → IsUnlocked db
    → IsUnlocked db'
unfolding block_descendants_fueled
block_descendants-IsUnlocked db job now h u =
    drain-IsUnlocked (suc (count_awaiting db.jobs)) now db (job ∷ [])
      (block_descendants_done db job now ∙ ap done h) u

pub begin_attempt-IsUnlocked :
    (db : RunDb) (job : String) (event : JobEvent) (now : ℕ)
    → IsUnlocked db
    → Keeps (begin_attempt db job event now)
begin_attempt-IsUnlocked db job event now u = record {
  at = λ out h.
      let b = begin_attempt_steps db job event now h in
      let name = attempt_name job (b.row.attempt_count + 1) in
      event-IsUnlocked b.inserted job (some name) event (some (b.row.attempt_count + 1)) now
        b.applied (λ e. ground (arith, b.starts, e))
        (IsUnlocked-SameRows db b.inserted
          (rw (b.is_inserted) (record { jobs = refl; dependencies = refl })) u);
}

pub apply_attempt_event-IsUnlocked :
    (db : RunDb) (job attempt : String) (event : JobEvent) (now : ℕ)
    → IsUnlocked db
    → Keeps (apply_attempt_event db job attempt event now)
unfolding apply_attempt_event
apply_attempt_event-IsUnlocked db job attempt event now u =
    Ensures-bind {m = guard (is_attempt_event event) controlled_event_required} λ _ is.
      Ensures-bind {m = require_unique_open_attempt db job attempt} λ _ _. record {
        at = λ out h.
            event-IsUnlocked db job (some attempt) event none now h (λ e. ground (arith, is, e)) u;
      }
