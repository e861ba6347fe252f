-- ===== src/Db/Attempts/Begun.antt =====
-- `begin_attempt` of db/engine.rs: what a begun attempt leaves in the database.
use zk_ie.Common.{
  ℕ, ◌+◌, ◌<◌, ◌≡◌, true, false, some, ok, String, if◌then◌else◌, ◌||◌, ◌&&◌, arith, u32_size,
}
use zk_ie.Common.Text.{str_eq, eq_iff}
use zk_ie.State.{JobState, JobEvent, starts_attempt, is_active, next_state}
use zk_ie.Db.Tables.{JobRow, RunDb, find_job, count_open, has_attempt}
use zk_ie.Db.Apply.{job_after}
use zk_ie.Db.Apply.Laws.{apply_event_tx-Applied, find_job-update_job, due-job_after}
use zk_ie.Db.Attempts.{start_matches_kind, attempt_row, begin_attempt, attempt_name}
use zk_ie.Db.Attempts.Laws.{
  begin_attempt_steps, count_open-inserted, has_attempt-append, has_attempt_fresh,
}

-- The attempt that began, and the database that it left.
pub record Began (db : RunDb) (job : String) (event : JobEvent) (db' : RunDb) (attempt : String)
    : Type 0 where
  pub row : JobRow
  pub found : find_job job db.jobs ≡ some row
  pub starts : starts_attempt event ≡ true
  pub kind : start_matches_kind row.kind event ≡ true
  pub closed : count_open job db.attempts ≡ 0
  pub counted : row.attempt_count + 1 < u32_size
  pub name : attempt ≡ attempt_name job (row.attempt_count + 1)
  pub fresh : (j : String) → has_attempt j attempt db.attempts ≡ false
  pub next : JobState
  pub moved : next_state row.state event ≡ some next
  pub active : is_active next ≡ true
  pub rows :
      (id : String)
      → find_job id db'.jobs ≡ (
          if str_eq id job
          then some (record row { state = next; attempt_count = row.attempt_count + 1 })
          else find_job id db.jobs)
  pub opens :
      (id : String)
      → count_open id db'.attempts ≡ (if str_eq id job then 1 else count_open id db.attempts)
  pub owners :
      (j a : String)
      → has_attempt j a db'.attempts
        ≡ (has_attempt j a db.attempts || (str_eq attempt a && str_eq job j))

starts-is_active :
    (s : JobState) (e : JobEvent) {t : JobState}
    → next_state s e ≡ some t
    → starts_attempt e ≡ true
    → is_active t ≡ true
unfolding next_state
starts-is_active s e h n = ground arith

-- A start event writes the state and the number of the attempt alone.
job_after_start :
    (e : JobEvent) (next : JobState) (n : ℕ) (r : JobRow)
    → starts_attempt e ≡ true
    → job_after e next (some n) r ≡ record r { state = next; attempt_count = n }
unfolding job_after
job_after_start e next n r s = ground arith

-- A begun attempt is a start event that matches the kind of its job and that its state allows,
-- for a job without an open attempt, under the next number, which is a u32, and under an id that
-- no attempt had; it leaves the job in the active state of the event with that number, in a row
-- that is otherwise as it was, with this one attempt open, which belongs to the job, and leaves
-- the rows, the open attempts and the ids of attempts of every other job as they were.
pub begin_attempt-Began :
    (db : RunDb) (job : String) (event : JobEvent) (now : ℕ) {db' : RunDb} {attempt : String}
    → begin_attempt db job event now ≡ ok (db', attempt)
    → Began db job event db' attempt
begin_attempt-Began db job event now {db'} {attempt} h =
    let b = begin_attempt_steps db job event now h in
    let n = b.row.attempt_count + 1 in
    let name = attempt_name job n in
    let a = apply_event_tx-Applied b.inserted job (some name) event (some n) now b.applied in
    let added = attempt_row job name b.next now in
    let same_jobs : b.inserted.jobs ≡ db.jobs = rw (b.is_inserted) in
    let same : a.row ≡ b.row = ground (arith, same_jobs, a.found, b.found) in
    let moved : b.entered ≡ b.next = ground (arith, same, a.moved, b.moved) in
    let active = starts-is_active b.row.state event b.moved b.starts in
    let rows = λ (id : String).
      find_job-update_job id job (job_after event b.entered (some n)) b.inserted.jobs
        (λ r. (due-job_after event b.entered (some n) r).1) in
    let started = job_after_start event b.entered n b.row b.starts in
    let opens = λ (id : String). count_open-inserted id job name b.next now db.attempts b.closed in
    record {
      row = b.row;
      found = b.found;
      starts = b.starts;
      kind = b.kind;
      closed = b.closed;
      counted = b.counted;
      name = b.name;
      fresh = λ j. rw (b.name) (has_attempt_fresh j name db.attempts b.fresh);
      next = b.next;
      moved = b.moved;
      active = active;
      rows =
          λ id. ground (arith, a.jobs, rows id, same_jobs, eq_iff id job, b.found, started, moved);
      opens =
          λ id. ground (arith, a.opens id, opens id, eq_iff id job, b.is_inserted, moved, active);
      owners = λ j i.
          ground
            (arith, a.owners j i, has_attempt-append j i db.attempts added, b.is_inserted, b.name);
    }
