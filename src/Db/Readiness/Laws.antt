-- ===== src/Db/Readiness/Laws.antt =====
-- Readiness and recovery keep the invariant of open attempts.
use zk_ie.Common.{
  ℕ, suc, ◌+◌, ◌≡◌, refl, true, false, Option, none, some, List, [], ◌∷◌, Result, ok, ◌>>=◌,
  Ensures, Ensures-bind, Ensures-pure, Ensures-if, String, arith, all, find,
}
use zk_ie.Common.Sort.{sort_by}
use zk_ie.Common.Text.{eq_iff, cmp_str}
use zk_ie.State.{JobState, JobEvent, is_active, starts_attempt, next_state}
use zk_ie.Db.Tables.{JobRow, AttemptRow, RunDb, DbError, count_open, has_attempt}
use zk_ie.Db.Apply.{apply_event_tx}
use zk_ie.Db.Apply.Laws.{
  apply_event_tx-Applied, IsConsistent, apply_event_tx-IsConsistent, IsConsistent-of_rows,
}
use zk_ie.Db.Readiness.{
  predecessor_states, is_verified_row, has_failed, refresh_one, refresh_from, awaiting_ids,
  refresh_readiness, ActiveRow, open_rows, interruption, close_attempt, recover_from,
  recover_interrupted,
}

abbrev Sound : {A : Type 0} → Result DbError (RunDb × A) → Type 0
Sound = Ensures (λ out. IsConsistent out.0)

applied-Sound :
    (db : RunDb) (job : String) (event : JobEvent) (now : ℕ) (n : ℕ)
    → starts_attempt event ≡ false
    → IsConsistent db
    → Sound (apply_event_tx db job none event none now >>= λ applied. ok (applied.0, n))
applied-Sound db job event now n quiet c =
    Ensures-bind {m = apply_event_tx db job none event none now}
      λ applied is. Ensures-pure (apply_event_tx-IsConsistent db job none event none now is quiet c)

refresh_one-Sound :
    (db : RunDb) (job : String) (now : ℕ) → IsConsistent db → Sound (refresh_one db job now)
unfolding refresh_one
refresh_one-Sound db job now c =
    Ensures-if (all is_verified_row (predecessor_states db job))
      (λ _. applied-Sound db job JobEvent.dependencies_satisfied now 1 refl c)
      (λ _. blocked (find has_failed (predecessor_states db job)))
  where
    blocked :
        (p : Option JobRow)
        → Sound {A = ℕ} (elim p [
          | none ↦ ok (db, 0)
          | some p ↦
              apply_event_tx db job none (JobEvent.dependency_blocked p.job_id) none now
              >>= λ applied. ok (applied.0, 0)
        ])
    blocked none = Ensures-pure c
    blocked (some p) = applied-Sound db job (JobEvent.dependency_blocked p.job_id) now 0 refl c

refresh_from-Sound :
    (ids : List String) (now : ℕ) (db : RunDb) (ready : ℕ)
    → IsConsistent db
    → Sound (refresh_from ids now db ready)
unfolding refresh_from
refresh_from-Sound [] now db ready c = Ensures-pure c
refresh_from-Sound (job ∷ ids) now db ready c = Ensures-bind {m = refresh_one db job now} λ out is.
    refresh_from-Sound ids now out.0 (ready + out.1) ((refresh_one-Sound db job now c).at out is)

pub refresh_readiness-Sound :
    (db : RunDb) (now : ℕ)
    → IsConsistent db
    → Ensures (λ out. IsConsistent out.0) (refresh_readiness db now)
unfolding refresh_readiness
refresh_readiness-Sound db now c =
    refresh_from-Sound (sort_by cmp_str (awaiting_ids db.jobs)) now db 0 c

close_attempt-same :
    (attempt job : String) (now : ℕ) (rows : List AttemptRow)
    → ((j : String) → has_attempt j attempt rows ≡ true → j ≡ job)
    → count_open job rows ≡ 0
    → close_attempt attempt now rows ≡ rows
close_attempt-same attempt job now [] owner closed = refl
close_attempt-same attempt job now (r ∷ rows) owner closed =
    let rest =
      close_attempt-same attempt job now rows
        (λ j h. owner j (ground (arith, eq_iff r.attempt_id attempt, eq_iff r.job_id j)))
        (ground arith) in
    ground (
      arith,
      rest,
      owner r.job_id,
      eq_iff r.attempt_id attempt,
      eq_iff r.job_id r.job_id,
      eq_iff r.job_id job,
    )

next_state_recovered :
    (s : JobState) {t : JobState}
    → next_state s JobEvent.recovery_requeue ≡ some t
    → is_active t ≡ false
unfolding next_state
next_state_recovered s h = ground arith

-- The attempts of the requeued job are closed, so the last update of the loop finds nothing open.
closed-IsConsistent :
    (db : RunDb) (job attempt : String) (now : ℕ) {db' : RunDb} {next : JobState}
    → apply_event_tx db job (some attempt) JobEvent.recovery_requeue none now ≡ ok (db', next)
    → IsConsistent db
    → IsConsistent (record db' { attempts = close_attempt attempt now db'.attempts })
closed-IsConsistent db job attempt now {db'} {next} h c =
    let a = apply_event_tx-Applied db job (some attempt) JobEvent.recovery_requeue none now h in
    let c' =
      apply_event_tx-IsConsistent db job (some attempt) JobEvent.recovery_requeue none now h refl
        c in
    let off = next_state_recovered a.row.state a.moved in
    let closed : count_open job db'.attempts ≡ 0 =
      rw (a.opens job) (ground (arith, eq_iff job job)) in
    let mine : has_attempt job attempt db'.attempts ≡ true =
      rw (a.owners job attempt) (a.named attempt refl) in
    let same =
      close_attempt-same attempt job now db'.attempts (λ j has. c'.owned attempt j job has mine)
        closed in
    IsConsistent-of_rows db' (record db' { attempts = close_attempt attempt now db'.attempts }) refl
      same c'

recover_from-Sound :
    (rows : List ActiveRow) (now : ℕ) (db : RunDb) (recovered : ℕ)
    → IsConsistent db
    → Sound (recover_from rows now db recovered)
unfolding recover_from
recover_from-Sound [] now db recovered c = Ensures-pure c
recover_from-Sound (a ∷ rows) now db recovered c =
    let stop = apply_event_tx db a.job_id (some a.attempt_id) interruption none now in
    let skip = recover_from-Sound rows now db recovered c in
    let continue = λ (queued : RunDb × JobState) (k : IsConsistent (closed_after queued.0)).
      recover_from-Sound rows now (closed_after queued.0) (suc recovered) k in
    Ensures-if (is_active a.state)
      (λ _. Ensures-bind {m = stop} λ stopped stops.
        Ensures-bind
          {m = apply_event_tx stopped.0 a.job_id (some a.attempt_id) JobEvent.recovery_requeue none
            now}
          λ queued queues. continue queued (
            closed-IsConsistent stopped.0 a.job_id a.attempt_id now queues (
              apply_event_tx-IsConsistent db a.job_id (some a.attempt_id) interruption none now
                stops refl c)))
      (λ _. skip)
  where
    closed_after : RunDb → RunDb
    closed_after queued = record queued {
      attempts = close_attempt a.attempt_id now queued.attempts;
    }

-- So does the recovery after a restart.
pub recover_interrupted-Sound :
    (db : RunDb) (now : ℕ)
    → IsConsistent db
    → Ensures (λ out. IsConsistent out.0) (recover_interrupted db now)
unfolding recover_interrupted
recover_interrupted-Sound db now c =
    let rows =
      sort_by (λ (a b : ActiveRow). cmp_str a.attempt_id b.attempt_id)
        (open_rows db.jobs db.attempts) in
    recover_from-Sound rows now db 0 c
