-- ===== src/Db/Attempts/Laws.antt =====
-- `begin_attempt`: its steps, and the invariant of open attempts is kept.
use zk_ie.Common.{
  ℕ, ◌+◌, ◌<◌, ◌≡◌, refl, true, false, none, some, List, [], ◌∷◌, ◌++◌, ◌&&◌, ◌||◌, any, ok,
  Result-cases, String, if◌then◌else◌, arith, u32_size, Option-cases, inl, inr,
}
use zk_ie.Common.Text.{str_eq, eq_iff, eq_refl}
use zk_ie.State.{JobState, JobEvent, starts_attempt, next_state}
use zk_ie.Db.Tables.{JobRow, AttemptRow, RunDb, find_job, count_open, is_open_for, has_attempt}
use zk_ie.Db.Apply.{apply_event_tx, current_state, next_of}
use zk_ie.Db.Apply.Laws.{
  apply_event_tx-Applied, IsConsistent, Applied-IsConsistent, apply_event_tx-IsConsistent,
}
use zk_ie.Db.Attempts.{
  start_matches_kind, attempt_row, insert_attempt, begin_attempt, apply_attempt_event, attempt_name,
}

count_open-append :
    (id : String) (rows : List AttemptRow) (a : AttemptRow)
    → count_open id (rows ++ a ∷ []) ≡ count_open id rows + (if is_open_for id a then 1 else 0)
count_open-append id [] a = ground arith
count_open-append id (b ∷ rows) a = ground (arith, count_open-append id rows a)

-- The steps of a `begin_attempt` that succeeded.
pub record BeginSteps (db : RunDb) (job : String) (event : JobEvent) (now : ℕ) (db' : RunDb)
    (attempt : String) : Type 0 where
  pub row : JobRow
  pub found : find_job job db.jobs ≡ some row
  pub starts : starts_attempt event ≡ true
  pub kind : start_matches_kind row.kind event ≡ true
  pub closed : count_open job db.attempts ≡ 0
  pub counted : row.attempt_count + 1 < u32_size
  pub name : attempt ≡ attempt_name job (row.attempt_count + 1)
  pub next : JobState
  pub moved : next_state row.state event ≡ some next
  pub inserted : RunDb
  pub is_inserted : inserted ≡ record db {
    attempts =
        db.attempts ++ attempt_row job (attempt_name job (row.attempt_count + 1)) next now ∷ [];
  }
  pub fresh :
      any (λ b. str_eq b.attempt_id (attempt_name job (row.attempt_count + 1))) db.attempts ≡ false
  pub entered : JobState
  pub applied :
      apply_event_tx inserted job
        (some (attempt_name job (row.attempt_count + 1)))
        event
        (some (row.attempt_count + 1))
        now
      ≡ ok (db', entered)

begin_attempt_row :
    (db : RunDb) (job : String) (event : JobEvent) (now : ℕ) {out : RunDb × String}
    → begin_attempt db job event now ≡ ok out
    → (row : JobRow) × (find_job job db.jobs ≡ some row)
unfolding begin_attempt
begin_attempt_row db job event now h = elim (Option-cases (find_job job db.jobs)) [
  | inl e ↦ ground arith
  | inr found ↦ found
]

module _ (db : RunDb) (job : String) (event : JobEvent) (now : ℕ) {db' : RunDb} {attempt : String}
    (h : begin_attempt db job event now ≡ ok (db', attempt)) (row : JobRow)
    (found : find_job job db.jobs ≡ some row) where
  abbrev new_name : String
  new_name = attempt_name job (row.attempt_count + 1)

  begin_attempt_checks :
      (starts_attempt event ≡ true)
      × (start_matches_kind row.kind event ≡ true)
      × (count_open job db.attempts ≡ 0)
      × (row.attempt_count + 1 < u32_size)
      × (attempt ≡ new_name)
  unfolding begin_attempt
  begin_attempt_checks = ground arith

  begin_attempt_next : (next : JobState) × (next_state row.state event ≡ some next)
  unfolding begin_attempt current_state next_of
  begin_attempt_next = elim (Option-cases (next_state row.state event)) [
    | inl e ↦ absurd (ground arith)
    | inr next ↦ next
  ]

  begin_attempt_inserted :
      (next : JobState)
      → next_state row.state event ≡ some next
      → (inserted : RunDb) × (insert_attempt db (attempt_row job new_name next now) ≡ ok inserted)
        × (st : JobState) × (apply_event_tx inserted job
              (some new_name)
              event
              (some (row.attempt_count + 1))
              now
            ≡ ok (db', st))
  unfolding begin_attempt current_state next_of
  begin_attempt_inserted next moved =
      elim (Result-cases (insert_attempt db (attempt_row job new_name next now))) [
        | inr (e, is) ↦ absurd (ground arith)
        | inl (inserted, is) ↦
            let call =
              apply_event_tx inserted job (some new_name) event (some (row.attempt_count + 1))
                now in
            elim (Result-cases call) [
              | inr (e, isnt) ↦ absurd (ground arith)
              | inl ((after, st), applies) ↦
                  let same : after ≡ db' = ground arith in (inserted, is, st, rw same at applies)
            ]
      ]

insert_attempt_rows :
    (db : RunDb) (a : AttemptRow) {db' : RunDb}
    → insert_attempt db a ≡ ok db'
    → (db' ≡ record db { attempts = db.attempts ++ a ∷ [] })
      × (any (λ b. str_eq b.attempt_id a.attempt_id) db.attempts ≡ false)
unfolding insert_attempt
insert_attempt_rows db a h = ground arith

-- The checks and calls of a `begin_attempt` that succeeded.
pub begin_attempt_steps :
    (db : RunDb) (job : String) (event : JobEvent) (now : ℕ) {db' : RunDb} {attempt : String}
    → begin_attempt db job event now ≡ ok (db', attempt)
    → BeginSteps db job event now db' attempt
begin_attempt_steps db job event now h =
    let (row, found) = begin_attempt_row db job event now h in
    let (starts, kind, closed, counted, name) = begin_attempt_checks db job event now h row found in
    let (next, moved) = begin_attempt_next db job event now h row found in
    let (inserted, insert, st, applied) =
      begin_attempt_inserted db job event now h row found next moved in
    let rows =
      insert_attempt_rows db (attempt_row job (attempt_name job (row.attempt_count + 1)) next now)
        insert in
    record {
      row = row;
      found = found;
      starts = starts;
      kind = kind;
      closed = closed;
      counted = counted;
      name = name;
      next = next;
      moved = moved;
      inserted = inserted;
      is_inserted = rows.0;
      fresh = rows.1;
      entered = st;
      applied = applied;
    }

-- The inserted row is the one open attempt of its job, and opens nothing for the others.
pub count_open-inserted :
    (id job attempt : String) (next : JobState) (now : ℕ) (rows : List AttemptRow)
    → count_open job rows ≡ 0
    → count_open id (rows ++ attempt_row job attempt next now ∷ [])
      ≡ (if str_eq id job then 1 else count_open id rows)
count_open-inserted id job attempt next now rows closed = ground (
  arith,
  count_open-append id rows (attempt_row job attempt next now),
  eq_iff id job,
  eq_iff job id,
  eq_iff job job,
)

pub has_attempt-append :
    (j a : String) (rows : List AttemptRow) (x : AttemptRow)
    → has_attempt j a (rows ++ x ∷ [])
      ≡ (has_attempt j a rows || (str_eq x.attempt_id a && str_eq x.job_id j))
has_attempt-append j a [] x = ground arith
has_attempt-append j a (r ∷ rows) x = ground (arith, has_attempt-append j a rows x)

pub has_attempt_fresh :
    (j a : String) (rows : List AttemptRow)
    → any (λ b. str_eq b.attempt_id a) rows ≡ false
    → has_attempt j a rows ≡ false
has_attempt_fresh j a [] f = refl
has_attempt_fresh j a (r ∷ rows) f = ground (arith, has_attempt_fresh j a rows)

-- A new id belongs to the one job of its row, and the old ids stay where they were.
owned-inserted :
    (job name : String) (next : JobState) (now : ℕ) (rows : List AttemptRow)
    → any (λ b. str_eq b.attempt_id name) rows ≡ false
    → ((a j j' : String) → has_attempt j a rows ≡ true → has_attempt j' a rows ≡ true → j ≡ j')
    → (a j j' : String) → has_attempt j a (rows ++ attempt_row job name next now ∷ []) ≡ true
    → has_attempt j' a (rows ++ attempt_row job name next now ∷ []) ≡ true
    → j ≡ j'
owned-inserted job name next now rows fresh owned a j j' h k =
    let row = attempt_row job name next now in
    ground (
      arith,
      owned a j j',
      has_attempt-append j a rows row,
      has_attempt-append j' a rows row,
      has_attempt_fresh j name rows fresh,
      has_attempt_fresh j' name rows fresh,
      eq_iff name a,
      eq_iff job j,
      eq_iff job j',
    )

-- A begun attempt leaves the database consistent: the job is active, with the one open attempt.
pub begin_attempt-IsConsistent :
    (db : RunDb) (job : String) (event : JobEvent) (now : ℕ) {db' : RunDb} {attempt : String}
    → begin_attempt db job event now ≡ ok (db', attempt)
    → IsConsistent db
    → IsConsistent db'
begin_attempt-IsConsistent db job event now h c =
    let b = begin_attempt_steps db job event now h in
    let name = attempt_name job (b.row.attempt_count + 1) in
    let opens = λ (id : String). count_open-inserted id job name b.next now db.attempts b.closed in
    Applied-IsConsistent
      (apply_event_tx-Applied b.inserted job (some name) event (some (b.row.attempt_count + 1)) now
        b.applied)
      (λ id other. rw (b.is_inserted) (rw (opens id) (rw other (c.opens id))))
      (rw (b.is_inserted) (owned-inserted job name b.next now db.attempts b.fresh c.owned))
      (λ _. rw (b.is_inserted) (rw (opens job) (rw (eq_refl job))))

-- So does an event of the attempt itself, whatever it is.
pub apply_attempt_event-IsConsistent :
    (db : RunDb) (job attempt : String) (event : JobEvent) (now : ℕ) {db' : RunDb} {next : JobState}
    → apply_attempt_event db job attempt event now ≡ ok (db', next)
    → IsConsistent db
    → IsConsistent db'
unfolding apply_attempt_event
apply_attempt_event-IsConsistent db job attempt event now {db'} {next} h c =
    let applied : apply_event_tx db job (some attempt) event none now ≡ ok (db', next) =
      ground arith in
    let quiet : starts_attempt event ≡ false = ground arith in
    apply_event_tx-IsConsistent db job (some attempt) event none now applied quiet c
