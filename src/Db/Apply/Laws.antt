-- ===== src/Db/Apply/Laws.antt =====
-- The rows of a job after an event, and the invariant that ties its open attempt to its state.
use zk_ie.Common.{
  ℕ, ◌≡◌, refl, sym, ◌∙◌, true, false, not, ◌&&◌, Option, none, some, List, [], ◌∷◌, ok, String,
  if◌then◌else◌, arith, Bool-cases, Option-cases, inl, inr,
}
use mathlib.Core.Option
use zk_ie.Common.Text.{str_eq, eq_iff}
use zk_ie.State.{JobState, JobEvent, is_active, starts_attempt, next_state}
use zk_ie.Db.Tables.{
  JobRow, AttemptRow, RunDb, find_job, update_job, count_open, finish_attempts, set_attempt_state,
  has_attempt,
}
use zk_ie.Db.Apply.{
  current_state, next_of, job_after, references_ok, attempts_after, audited, apply_event_tx,
}

-- A job's row after an update of some job's row.
pub find_job-update_job :
    (id job : String) (f : JobRow → JobRow) (rows : List JobRow)
    → ((r : JobRow) → (f r).job_id ≡ r.job_id)
    → find_job id (update_job job f rows)
      ≡ (if str_eq id job then Option.map f (find_job id rows) else find_job id rows)
find_job-update_job id job f [] k = ground (arith, eq_iff id job)
find_job-update_job id job f (r ∷ rs) k = ground (
  arith,
  k r,
  eq_iff id job,
  eq_iff r.job_id job,
  eq_iff r.job_id id,
  find_job-update_job id job f rs k,
)

pub count_open-finish_attempts :
    (id job : String) (next : JobState) (now : ℕ) (rows : List AttemptRow)
    → count_open id (finish_attempts job next now rows)
      ≡ (if str_eq id job then 0 else count_open id rows)
count_open-finish_attempts id job next now [] = ground (arith, eq_iff id job)
count_open-finish_attempts id job next now (a ∷ rows) = ground (
  arith,
  eq_iff id job,
  eq_iff a.job_id job,
  eq_iff a.job_id id,
  count_open-finish_attempts id job next now rows,
)

pub count_open-set_attempt_state :
    (id attempt : String) (next : JobState) (rows : List AttemptRow)
    → count_open id (set_attempt_state attempt next rows) ≡ count_open id rows
count_open-set_attempt_state id attempt next [] = refl
count_open-set_attempt_state id attempt next (a ∷ rows) =
    ground (arith, count_open-set_attempt_state id attempt next rows)

-- How many open attempts a job in this row has to have.
abbrev pub due_state : JobState → ℕ
due_state s = if is_active s then 1 else 0

abbrev pub due : Option JobRow → ℕ
due none = 0
due (some r) = due_state r.state

-- Every job has exactly one open attempt while it is active and none otherwise, there is no open
-- attempt without a job, and an attempt's id belongs to one job.
pub record IsConsistent (db : RunDb) : Type 0 where
  pub opens : (id : String) → count_open id db.attempts ≡ due (find_job id db.jobs)
  pub owned :
      (attempt job job' : String)
      → has_attempt job attempt db.attempts ≡ true
      → has_attempt job' attempt db.attempts ≡ true
      → job ≡ job'

-- The parts of a successful event.
pub record Applied (db : RunDb) (job : String) (attempt : Option String) (event : JobEvent)
    (attempt_count : Option ℕ) (db' : RunDb) (next : JobState) : Type 0 where
  pub row : JobRow
  pub found : find_job job db.jobs ≡ some row
  pub moved : next_state row.state event ≡ some next
  pub jobs : db'.jobs ≡ update_job job (job_after event next attempt_count) db.jobs
  pub opens :
      (id : String)
      → count_open id db'.attempts
        ≡ (if str_eq id job && not (is_active next) then 0 else count_open id db.attempts)
  pub owners : (j a : String) → has_attempt j a db'.attempts ≡ has_attempt j a db.attempts
  pub named : (a : String) → attempt ≡ some a → has_attempt job a db.attempts ≡ true
  pub dependencies : db'.dependencies ≡ db.dependencies
  pub history : db'.resource_history ≡ db.resource_history
  pub records : db'.verification_records ≡ db.verification_records

attempts_after_opens :
    (db : RunDb) (job : String) (attempt : Option String) (next : JobState) (now : ℕ) (id : String)
    → count_open id (attempts_after db job attempt next now).attempts
      ≡ (if str_eq id job && not (is_active next) then 0 else count_open id db.attempts)
unfolding attempts_after
attempts_after_opens db job none next now id =
    ground (arith, count_open-finish_attempts id job next now db.attempts)
attempts_after_opens db job (some a) next now id = ground (
  arith,
  count_open-finish_attempts id job next now db.attempts,
  count_open-set_attempt_state id a next db.attempts,
)

has_attempt-finish_attempts :
    (j a job : String) (next : JobState) (now : ℕ) (rows : List AttemptRow)
    → has_attempt j a (finish_attempts job next now rows) ≡ has_attempt j a rows
has_attempt-finish_attempts j a job next now [] = refl
has_attempt-finish_attempts j a job next now (r ∷ rows) =
    ground (arith, has_attempt-finish_attempts j a job next now rows)

has_attempt-set_attempt_state :
    (j a attempt : String) (next : JobState) (rows : List AttemptRow)
    → has_attempt j a (set_attempt_state attempt next rows) ≡ has_attempt j a rows
has_attempt-set_attempt_state j a attempt next [] = refl
has_attempt-set_attempt_state j a attempt next (r ∷ rows) =
    ground (arith, has_attempt-set_attempt_state j a attempt next rows)

attempts_after_owners :
    (db : RunDb) (job : String) (attempt : Option String) (next : JobState) (now : ℕ) (j a : String)
    → has_attempt j a (attempts_after db job attempt next now).attempts
      ≡ has_attempt j a db.attempts
unfolding attempts_after
attempts_after_owners db job none next now j a =
    ground (arith, has_attempt-finish_attempts j a job next now db.attempts)
attempts_after_owners db job (some b) next now j a = ground (
  arith,
  has_attempt-finish_attempts j a job next now db.attempts,
  has_attempt-set_attempt_state j a b next db.attempts,
)

attempts_after_rest :
    (db : RunDb) (job : String) (attempt : Option String) (next : JobState) (now : ℕ)
    → ((attempts_after db job attempt next now).jobs ≡ db.jobs)
      × ((attempts_after db job attempt next now).dependencies ≡ db.dependencies)
      × ((attempts_after db job attempt next now).resource_history ≡ db.resource_history)
      × ((attempts_after db job attempt next now).verification_records ≡ db.verification_records)
unfolding attempts_after
attempts_after_rest db job none next now = ground arith
attempts_after_rest db job (some a) next now = ground arith

apply_event_tx_parts :
    (db : RunDb) (job : String) (attempt : Option String) (event : JobEvent)
    (attempt_count : Option ℕ) (now : ℕ) (row : JobRow) {db' : RunDb} {next : JobState}
    → apply_event_tx db job attempt event attempt_count now ≡ ok (db', next)
    → find_job job db.jobs ≡ some row
    → (next_state row.state event ≡ some next)
      × (db'
          ≡ attempts_after
              (audited db job attempt event attempt_count now row.state next)
              job
              attempt
              next
              now)
unfolding apply_event_tx current_state next_of
apply_event_tx_parts db job attempt event attempt_count now row h e = ground arith

apply_event_tx_named :
    (db : RunDb) (job : String) (attempt : Option String) (event : JobEvent)
    (attempt_count : Option ℕ) (now : ℕ) (row : JobRow) {out : RunDb × JobState} (a : String)
    → apply_event_tx db job attempt event attempt_count now ≡ ok out
    → find_job job db.jobs ≡ some row
    → attempt ≡ some a
    → has_attempt job a db.attempts ≡ true
unfolding apply_event_tx current_state references_ok
apply_event_tx_named db job attempt event attempt_count now row a h e n = ground arith

apply_event_tx_found :
    (db : RunDb) (job : String) (attempt : Option String) (event : JobEvent)
    (attempt_count : Option ℕ) (now : ℕ) {db' : RunDb} {next : JobState}
    → apply_event_tx db job attempt event attempt_count now ≡ ok (db', next)
    → (row : JobRow) × (find_job job db.jobs ≡ some row)
unfolding apply_event_tx current_state
apply_event_tx_found db job attempt event attempt_count now h =
    elim (Option-cases (find_job job db.jobs)) [ inl e ↦ ground arith | inr found ↦ found ]

-- A successful event was one that the transition function allows in the state of its job: it
-- updates the row of that job alone, leaves that job no open attempt where the next state is not
-- active and every other count of open attempts as it was, keeps the owners of attempts, names no
-- attempt but one of the job, and leaves dependencies, peaks and verification records alone.
pub apply_event_tx-Applied :
    (db : RunDb) (job : String) (attempt : Option String) (event : JobEvent)
    (attempt_count : Option ℕ) (now : ℕ) {db' : RunDb} {next : JobState}
    → apply_event_tx db job attempt event attempt_count now ≡ ok (db', next)
    → Applied db job attempt event attempt_count db' next
unfolding audited
apply_event_tx-Applied db job attempt event attempt_count now {db'} {next} h =
    let (row, e) = apply_event_tx_found db job attempt event attempt_count now h in
    let (moved, is) = apply_event_tx_parts db job attempt event attempt_count now row h e in
    let mid = audited db job attempt event attempt_count now row.state next in
    let (jobs, dependencies, history, records) = attempts_after_rest mid job attempt next now in
    record {
      row = row;
      found = e;
      moved = moved;
      jobs = rw is jobs;
      opens = λ id. rw is (attempts_after_opens mid job attempt next now id);
      owners = λ j a. rw is (attempts_after_owners mid job attempt next now j a);
      named = λ a n. apply_event_tx_named db job attempt event attempt_count now row a h e n;
      dependencies = rw is dependencies;
      history = rw is history;
      records = rw is records;
    }

pub due-job_after :
    (event : JobEvent) (next : JobState) (attempt_count : Option ℕ) (r : JobRow)
    → (due (some (job_after event next attempt_count r)) ≡ due_state next)
      × ((job_after event next attempt_count r).job_id ≡ r.job_id)
unfolding job_after
due-job_after event next attempt_count r = ground arith

-- What an event does to the number of open attempts that any job has to have.
pub due-Applied :
    {db db' : RunDb} {job : String} {attempt : Option String} {event : JobEvent}
    {attempt_count : Option ℕ} {next : JobState} (id : String)
    → Applied db job attempt event attempt_count db' next
    → due (find_job id db'.jobs)
      ≡ (if str_eq id job then due_state next else due (find_job id db.jobs))
due-Applied {db} {job = job} {event = event} {attempt_count = attempt_count} {next = next} id a =
    rw (a.jobs) (
      rw
        (find_job-update_job id job (job_after event next attempt_count) db.jobs
          (λ r. (due-job_after event next attempt_count r).1))
        (ground (arith, eq_iff id job, a.found, due-job_after event next attempt_count a.row)))

-- Consistent except, perhaps, at one job.
abbrev pub IsConsistentBut : String → RunDb → Type 0
IsConsistentBut job db =
    (id : String) → str_eq id job ≡ false → count_open id db.attempts ≡ due (find_job id db.jobs)

-- An attempt's id belongs to one job.
abbrev pub OwnsIds : RunDb → Type 0
OwnsIds db =
    (attempt job job' : String)
    → has_attempt job attempt db.attempts ≡ true
    → has_attempt job' attempt db.attempts ≡ true
    → job ≡ job'

pub Applied-IsConsistent :
    {db db' : RunDb} {job : String} {attempt : Option String} {event : JobEvent}
    {attempt_count : Option ℕ} {next : JobState}
    → Applied db job attempt event attempt_count db' next
    → IsConsistentBut job db
    → OwnsIds db
    → (is_active next ≡ true → count_open job db.attempts ≡ 1)
    → IsConsistent db'
Applied-IsConsistent {db = db} {job = job} {next = next} a others owned one = record {
  opens = λ id.
      rw (a.opens id, due-Applied id a)
        (elim (Bool-cases (str_eq id job)) [
          | inl same ↦ ground (arith, (eq_iff id job).0 same, Bool-cases (is_active next))
          | inr other ↦ rw other (others id other)
        ]);
  owned = λ b j j' h k. owned b j j' (rw (a.owners j b) at h) (rw (a.owners j' b) at k);
}

-- Only the start of an attempt enters an active state.
next_state_inactive :
    (s : JobState) (e : JobEvent) {t : JobState}
    → next_state s e ≡ some t
    → starts_attempt e ≡ false
    → is_active t ≡ false
unfolding next_state
next_state_inactive s e h n = ground arith

pub apply_event_tx-IsConsistent :
    (db : RunDb) (job : String) (attempt : Option String) (event : JobEvent)
    (attempt_count : Option ℕ) (now : ℕ) {db' : RunDb} {next : JobState}
    → apply_event_tx db job attempt event attempt_count now ≡ ok (db', next)
    → starts_attempt event ≡ false
    → IsConsistent db
    → IsConsistent db'
apply_event_tx-IsConsistent db job attempt event attempt_count now h quiet c =
    let a = apply_event_tx-Applied db job attempt event attempt_count now h in
    let off = next_state_inactive a.row.state event a.moved quiet in
    Applied-IsConsistent a (λ id _. c.opens id) c.owned (λ on. cc)

-- An update that leaves ids and states alone.
abbrev pub KeepsState : (JobRow → JobRow) → Type 0
KeepsState f = (r : JobRow) → ((f r).job_id ≡ r.job_id) × ((f r).state ≡ r.state)

pub update_job-IsConsistent :
    (db : RunDb) (job : String) (f : JobRow → JobRow)
    → KeepsState f
    → IsConsistent db
    → IsConsistent (record db { jobs = update_job job f db.jobs })
update_job-IsConsistent db job f k c = record {
  opens = λ id. c.opens id ∙ sym (due-update_job id db.jobs);
  owned = c.owned;
}
  where
    due-update_job :
        (id : String) (rows : List JobRow)
        → due (find_job id (update_job job f rows)) ≡ due (find_job id rows)
    due-update_job id [] = refl
    due-update_job id (r ∷ rows) = ground (arith, k r, due-update_job id rows)

pub IsConsistent-of_rows :
    (db db' : RunDb)
    → db'.jobs ≡ db.jobs
    → db'.attempts ≡ db.attempts
    → IsConsistent db
    → IsConsistent db'
IsConsistent-of_rows db db' j a c = record {
  opens = λ id. rw (j, a) (c.opens id);
  owned = rw a c.owned;
}
