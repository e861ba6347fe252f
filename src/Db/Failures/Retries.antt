-- ===== src/Db/Failures/Retries.antt =====
-- When a failed attempt is retried: the counter of its kind of failure against its limit.
use zk_ie.Common.{
  ℕ, ◌+◌, ◌≤◌, ◌<◌, ◌≡◌, refl, Bool, not, true, false, Option, some, none, ok_or, guard, Ensures,
  ◌∙◌, Ensures-bind, Ensures-pure, Ensures-if, String, arith, ltb, ok, ap, subst, ◌⊎◌, inl, inr,
  Bool-cases,
}
use zk_ie.Common.Text.{str_eq, eq_iff}
use zk_ie.State.{JobState, JobEvent, FailureRecord, next_state}
use zk_ie.Db.Tables.{
  JobRow, RunDb, RetryDecision, sql, ReservationKey, find_job, update_job,
  invalid_failure_observation,
}
use zk_ie.Db.Apply.{apply_event_tx, job_after}
use zk_ie.Db.Apply.Laws.{Applied, apply_event_tx-Applied, find_job-update_job, due-job_after}
use zk_ie.Db.Attempts.{require_unique_open_attempt}
use zk_ie.Db.Blocking.{set_terminal, awaits, block_descendants_tx}
use zk_ie.Db.Blocking.Settled.{Same}
use zk_ie.Db.Peaks.{record_resource_peak_tx}
use zk_ie.Db.Failures.{
  is_resource, failure_event, retries_of, retry_limit, count_retry, retry_event, retry_or_end,
  record_observation, handle_attempt_failure,
}
use zk_ie.Db.Failures.Ended.{failed_state, IsEnded, block_descendants-IsEnded, IsEnded-of_before}
use zk_ie.Db.Failures.Laws.{record_observation-rows}

-- The outcome for a job whose row was `old`: it is requeued, with one more retry of this kind and
-- as many of the other, where it had retries left; otherwise it is ended in the state of its failure.
abbrev pub IsDecision : String → Bool → RunDb → JobRow → RunDb → RetryDecision → Type 0
IsDecision job resource db old db' RetryDecision.requeued =
    (retries_of resource old < retry_limit resource)
    × ((row : JobRow) × (find_job job db'.jobs ≡ some row)
        × (row.state ≡ JobState.requeued)
        × (retries_of resource row ≡ retries_of resource old + 1)
        × (retries_of (not resource) row ≡ retries_of (not resource) old))
IsDecision job resource db old db' RetryDecision.terminal =
    (retry_limit resource ≤ retries_of resource old) × IsEnded job (failed_state resource) db db'

-- The row of the job after an event.
row_after :
    {db db' : RunDb} {job : String} {attempt : Option String} {event : JobEvent} {next : JobState}
    (a : Applied db job attempt event none db' next)
    → find_job job db'.jobs ≡ some (job_after event next none a.row)
row_after {db} {job = job} {event = event} {next = next} a =
    let at =
      find_job-update_job job job (job_after event next none) db.jobs
        (λ r. (due-job_after event next none r).1) in
    ground (arith, eq_iff job job, a.found, a.jobs, at)

job_after-counts :
    (event : JobEvent) (next : JobState) (r : JobRow)
    → (retries_of true (job_after event next none r) ≡ retries_of true r)
      × (retries_of false (job_after event next none r) ≡ retries_of false r)
      × ((job_after event next none r).state ≡ next)
unfolding job_after
job_after-counts event next r = ground arith

retry_event-requeues :
    (s : JobState) (resource : Bool) {t : JobState}
    → next_state s (retry_event resource) ≡ some t
    → t ≡ JobState.requeued
unfolding next_state
retry_event-requeues s true h = ground arith
retry_event-requeues s false h = ground arith

Counted : Bool → JobRow → JobRow → Type 0
Counted resource old row =
    (retries_of resource row ≡ retries_of resource old + 1)
    × (retries_of (not resource) row ≡ retries_of (not resource) old)

count_retry-Counted :
    (resource : Bool) (event : JobEvent) (next : JobState) (row : JobRow)
    → Counted resource row (job_after event next none (count_retry resource row))
unfolding Counted
count_retry-Counted true event next row =
    ground (arith, job_after-counts event next (count_retry true row))
count_retry-Counted false event next row =
    ground (arith, job_after-counts event next (count_retry false row))

count_retry_id : (resource : Bool) (r : JobRow) → (count_retry resource r).job_id ≡ r.job_id
count_retry_id true r = refl
count_retry_id false r = refl

-- The row that the retry starts from is the counted one.
counted_row :
    (db : RunDb) (job : String) (resource : Bool) (row : JobRow) {db' : RunDb}
    {attempt : Option String} {event : JobEvent} {next : JobState}
    → find_job job db.jobs ≡ some row
    → (a : Applied
        (record db { jobs = update_job job (count_retry resource) db.jobs })
        job
        attempt
        event
        none
        db'
        next)
    → a.row ≡ count_retry resource row
counted_row db job resource row found a =
    let at = find_job-update_job job job (count_retry resource) db.jobs (count_retry_id resource) in
    ground (arith, found, eq_iff job job, at, a.found)

failed_state-awaits : (resource : Bool) → awaits (failed_state resource) ≡ false
failed_state-awaits true = refl
failed_state-awaits false = refl

retry_or_end-IsDecision :
    (db : RunDb) (job attempt : String) (resource : Bool) (now : ℕ) (old : JobRow)
    → find_job job db.jobs ≡ some old
    → old.state ≡ failed_state resource
    → Ensures
        (λ out. IsDecision job resource db old out.0 out.1)
        (retry_or_end db job attempt resource now)
unfolding retry_or_end Counted
retry_or_end-IsDecision db job attempt resource now old found is_failed =
    Ensures-bind {m = ok_or (find_job job db.jobs) sql} λ row is.
      let same : old ≡ row = ground (arith, found, is) in
      Ensures-if (ltb (retries_of resource row) (retry_limit resource))
        (λ left.
          Ensures-bind
            {m = apply_event_tx (with_retry row) job (some attempt) (retry_event resource) none now}
            λ applied retried.
              let a =
                apply_event_tx-Applied (with_retry row) job (some attempt) (retry_event resource)
                  none now retried in
              let counts = count_retry-Counted resource (retry_event resource) applied.1 row in
              let here = counted_row db job resource row (ground arith) a in
              Ensures-pure (
                ground (arith, left, same),
                (
                  job_after (retry_event resource) applied.1 none (count_retry resource row),
                  rw (← here) (row_after a),
                  (job_after-counts (retry_event resource) applied.1 (count_retry resource row)).2
                      ∙ retry_event-requeues a.row.state resource a.moved,
                  rw same counts.0,
                  rw same counts.1,
                ),
              ))
        (λ spent.
          Ensures-bind {m = block_descendants_tx (set_terminal db job) job now} λ db' blocks.
            Ensures-pure (
              ground (arith, same, spent),
              subst (λ (s : JobState). IsEnded job s db db') is_failed
                  (block_descendants-IsEnded db job now old found
                    (ap awaits is_failed ∙ failed_state-awaits resource) blocks),
            ))
  where
    with_retry : JobRow → RunDb
    with_retry row = record db { jobs = update_job job (count_retry resource) db.jobs }

-- The failure of an attempt moves its job to the state of the failure.
failure_event-state :
    (s : JobState) (f : FailureRecord) {t : JobState}
    → next_state s (failure_event f) ≡ some t
    → t ≡ failed_state (is_resource f)
unfolding next_state
failure_event-state s f h = ground arith

-- A decision on the database that the failure left is one on the database before it.
IsDecision-of_failure :
    (job : String) (resource : Bool) (old before : JobRow) (db mid : RunDb) (out : RunDb)
    (d : RetryDecision)
    → retries_of true old ≡ retries_of true before
    → retries_of false old ≡ retries_of false before
    → ((id : String) → (id ≡ job) ⊎ Same db mid id)
    → mid.dependencies ≡ db.dependencies
    → IsDecision job resource mid old out d
    → IsDecision job resource db before out d
IsDecision-of_failure job true old before db mid out RetryDecision.requeued t f same edges
      (l, (row, at, is, own, rest)) =
    (ground (arith, t, l), (row, at, is, ground (arith, t, own), ground (arith, f, rest)))
IsDecision-of_failure job false old before db mid out RetryDecision.requeued t f same edges
      (l, (row, at, is, own, rest)) =
    (ground (arith, f, l), (row, at, is, ground (arith, f, own), ground (arith, t, rest)))
IsDecision-of_failure job true old before db mid out RetryDecision.terminal t f same edges
      (l, ended) =
    (ground (arith, t, l), IsEnded-of_before db mid out same edges ended)
IsDecision-of_failure job false old before db mid out RetryDecision.terminal t f same edges
      (l, ended) =
    (ground (arith, f, l), IsEnded-of_before db mid out same edges ended)

-- The rows that the event of another job leaves.
row_before :
    {db db' : RunDb} {job : String} {attempt : Option String} {event : JobEvent} {next : JobState}
    (a : Applied db job attempt event none db' next) (id : String)
    → (id ≡ job) ⊎ Same db db' id
row_before {db} {job = job} {event = event} {next = next} a id =
    let at =
      find_job-update_job id job (job_after event next none) db.jobs
        (λ r. (due-job_after event next none r).1) in
    elim (Bool-cases (str_eq id job)) [
      | inl same ↦ inl ((eq_iff id job).0 same)
      | inr other ↦ inr (ap (find_job id) a.jobs ∙ at ∙ rw other refl)
    ]

observed_edges :
    (db : RunDb) (o : Option (ReservationKey × ℕ)) {db' : RunDb}
    → record_observation db o ≡ ok db'
    → db'.dependencies ≡ db.dependencies
unfolding record_resource_peak_tx
observed_edges db none h = ground arith
observed_edges db (some (key, peak)) h = ground arith

-- Where a failed attempt is handled without an error, its job is requeued exactly if its kind of
-- failure had retries left (a limit of 3 for resources and of 2 for execution), with that counter
-- raised by one, the other kept and the job in the state requeued. Otherwise the job is marked
-- terminal in the state of the failure, none of its successors waits any more, and every other
-- job is as it was or was waiting and is blocked and terminal, with no successor that waits.
pub handle_attempt_failure-IsDecision :
    (db : RunDb) (job attempt : String) (f : FailureRecord) (o : Option (ReservationKey × ℕ))
    (now : ℕ)
    → Ensures
        (λ out.
          (row : JobRow) × (find_job job db.jobs ≡ some row)
          × IsDecision job (is_resource f) db row out.0 out.1)
        (handle_attempt_failure db job attempt f o now)
unfolding handle_attempt_failure
handle_attempt_failure-IsDecision db job attempt f o now =
    Ensures-bind {m = guard _ invalid_failure_observation} λ _ _.
      Ensures-bind {m = require_unique_open_attempt db job attempt} λ _ _.
        Ensures-bind {m = record_observation db o} λ observed is.
          Ensures-bind {m = apply_event_tx observed job (some attempt) (failure_event f) none now}
            λ failed applies.
              let rows = record_observation-rows db o is in
              let a =
                apply_event_tx-Applied observed job (some attempt) (failure_event f) none now
                  applies in
              let old = job_after (failure_event f) failed.1 none a.row in
              let counts = job_after-counts (failure_event f) failed.1 a.row in
              let after =
                retry_or_end-IsDecision failed.0 job attempt (is_resource f) now old (row_after a)
                  (counts.2 ∙ failure_event-state a.row.state f a.moved) in
              record {
                at = λ out e. (
                  a.row,
                  rw rows.0 at a.found,
                  IsDecision-of_failure job (is_resource f) old a.row db failed.0 out.0 out.1
                      counts.0 counts.1 (rw rows.0 at (row_before a))
                      (a.dependencies ∙ observed_edges db o is) (after.at out e),
                );
              }
