-- ===== src/Db/Blocking/Laws.antt =====
-- The blocking of descendants ends, keeps the invariant of open attempts, and blocks what it pushes.
use zk_ie.Common.{
  ℕ, zero, suc, ◌+◌, ◌≤◌, ◌≡◌, refl, ◌≢◌, ◌⊎◌, ◌∙◌, ap, subst, true, false, none, some, List, [],
  ◌∷◌, ok, Result-cases, Bool-cases, inl, inr, String, length, arith,
}
use zk_ie.State.{JobState, JobEvent, next_state}
use zk_ie.Db.Tables.{JobRow, RunDb, find_job, update_job}
use zk_ie.Db.Apply.{current_state, apply_event_tx, job_after}
use zk_ie.Db.Apply.Laws.{
  apply_event_tx-Applied, IsConsistent, apply_event_tx-IsConsistent, update_job-IsConsistent,
}
use zk_ie.Db.Blocking.{
  as_terminal, set_terminal, awaits, block_successors, done, out_of_fuel, drain, count_awaiting,
  block_descendants_fueled, block_descendants_tx, successors,
}

-- A waiting job that turns to another state lowers the number of waiting jobs.
count_awaiting-update_job :
    (job : String) (f : JobRow → JobRow) (rows : List JobRow)
    → ((r : JobRow) → awaits (f r).state ≡ false)
    → count_awaiting (update_job job f rows) ≤ count_awaiting rows
count_awaiting-update_job job f [] k = omega arith
count_awaiting-update_job job f (r ∷ rows) k =
    ground (arith, k r, count_awaiting-update_job job f rows k)

count_awaiting-update_job_lt :
    (job : String) (f : JobRow → JobRow) (rows : List JobRow) (row : JobRow)
    → ((r : JobRow) → awaits (f r).state ≡ false)
    → find_job job rows ≡ some row
    → awaits row.state ≡ true
    → suc (count_awaiting (update_job job f rows)) ≤ count_awaiting rows
count_awaiting-update_job_lt job f [] row k e w = cc
count_awaiting-update_job_lt job f (r ∷ rows) row k e w = ground (
  arith,
  k r,
  count_awaiting-update_job job f rows k,
  count_awaiting-update_job_lt job f rows row k,
)

count_awaiting-set_terminal :
    (job : String) (rows : List JobRow)
    → count_awaiting (update_job job as_terminal rows) ≡ count_awaiting rows
count_awaiting-set_terminal job [] = refl
count_awaiting-set_terminal job (r ∷ rows) = ground (arith, count_awaiting-set_terminal job rows)

pub next_state_blocked :
    (s : JobState) (predecessor : String) {t : JobState}
    → next_state s (JobEvent.dependency_blocked predecessor) ≡ some t
    → t ≡ JobState.blocked
unfolding next_state
next_state_blocked s predecessor h = ground arith

job_after_halts :
    (predecessor : String) (next : JobState) (r : JobRow)
    → next ≡ JobState.blocked
    → awaits (job_after (JobEvent.dependency_blocked predecessor) next none r).state ≡ false
unfolding job_after
job_after_halts predecessor next r h = ground arith

-- One blocked successor.
blocked_step :
    (predecessor s : String) (now : ℕ) (db : RunDb) {current : JobState} {db' : RunDb}
    {next : JobState}
    → current_state db s ≡ ok current
    → awaits current ≡ true
    → apply_event_tx db s none (JobEvent.dependency_blocked predecessor) none now ≡ ok (db', next)
    → suc (count_awaiting (set_terminal db' s).jobs) ≤ count_awaiting db.jobs
unfolding current_state
blocked_step predecessor s now db {current} {db'} {next} c w h =
    let a = apply_event_tx-Applied db s none (JobEvent.dependency_blocked predecessor) none now h in
    let waits : awaits a.row.state ≡ true = ground (arith, a.found) in
    let halts = λ (r : JobRow).
      job_after_halts predecessor next r (next_state_blocked a.row.state predecessor a.moved) in
    rw (count_awaiting-set_terminal s db'.jobs) (
      rw (a.jobs) (
        count_awaiting-update_job_lt s
          (job_after (JobEvent.dependency_blocked predecessor) next none) db.jobs a.row halts
          a.found waits))

module _ (predecessor : String) (now : ℕ) where
  -- The body of the loop left the successor alone.
  pub record Skipped (s : String) (ss : List String) (db : RunDb) (frontier : List String)
      (out : RunDb × List String) : Type 0 where
    pub current : JobState
    pub is_current : current_state db s ≡ ok current
    pub settled : awaits current ≡ false
    pub rest : block_successors predecessor ss now db frontier ≡ ok out

  -- The body of the loop blocked the successor.
  pub record Pushed (s : String) (ss : List String) (db : RunDb) (frontier : List String)
      (out : RunDb × List String) : Type 0 where
    pub current : JobState
    pub is_current : current_state db s ≡ ok current
    pub waits : awaits current ≡ true
    pub after : RunDb
    pub next : JobState
    pub applied :
        apply_event_tx db s none (JobEvent.dependency_blocked predecessor) none now
        ≡ ok (after, next)
    pub rest : block_successors predecessor ss now (set_terminal after s) (s ∷ frontier) ≡ ok out

  pub block_successors-cons :
      (s : String) (ss : List String) (db : RunDb) (frontier : List String)
      {out : RunDb × List String}
      → block_successors predecessor (s ∷ ss) now db frontier ≡ ok out
      → Skipped s ss db frontier out ⊎ Pushed s ss db frontier out
  unfolding block_successors
  block_successors-cons s ss db frontier h = elim (Result-cases (current_state db s)) [
    | inr (e, is) ↦ absurd (ground arith)
    | inl (current, is) ↦ elim (Bool-cases (awaits current)) [
      | inr settled ↦
          inl
            (record { current = current; is_current = is; settled = settled; rest = ground arith })
      | inl waits ↦
          let call = apply_event_tx db s none (JobEvent.dependency_blocked predecessor) none now in
          elim (Result-cases call) [
            | inr (e, isnt) ↦ absurd (ground arith)
            | inl ((after, next), applied) ↦ inr (record {
              current = current;
              is_current = is;
              waits = waits;
              after = after;
              next = next;
              applied = applied;
              rest = ground arith;
            })
          ]
    ]
  ]

  -- Every push is paid for by a job that no longer waits.
  block_successors-le :
      (ss : List String) (db : RunDb) (frontier : List String) {db' : RunDb}
      {frontier' : List String}
      → block_successors predecessor ss now db frontier ≡ ok (db', frontier')
      → length frontier' + count_awaiting db'.jobs ≤ length frontier + count_awaiting db.jobs
  unfolding block_successors
  block_successors-le [] db frontier h = ground arith
  block_successors-le (s ∷ ss) db frontier h = elim (block_successors-cons s ss db frontier h) [
    | inl k ↦ block_successors-le ss db frontier k.rest
    | inr p ↦ omega (
      arith,
      block_successors-le ss (set_terminal p.after s) (s ∷ frontier) p.rest,
      blocked_step predecessor s now db p.is_current p.waits p.applied,
    )
  ]

  block_successors-IsConsistent :
      (ss : List String) (db : RunDb) (frontier : List String) {db' : RunDb}
      {frontier' : List String}
      → block_successors predecessor ss now db frontier ≡ ok (db', frontier')
      → IsConsistent db
      → IsConsistent db'
  unfolding block_successors
  block_successors-IsConsistent [] db frontier {db'} h c =
      let e : db ≡ db' = ground arith in subst IsConsistent e c
  block_successors-IsConsistent (s ∷ ss) db frontier h c =
      elim (block_successors-cons s ss db frontier h) [
        | inl k ↦ block_successors-IsConsistent ss db frontier k.rest c
        | inr p ↦ block_successors-IsConsistent ss (set_terminal p.after s) (s ∷ frontier) p.rest (
            update_job-IsConsistent p.after s as_terminal (λ r. (refl, refl))
              (apply_event_tx-IsConsistent db s none (JobEvent.dependency_blocked predecessor) none
                now p.applied refl c))
      ]

-- With a round for each stacked and each waiting job the loop comes to its end.
drain-done :
    (fuel now : ℕ) (db : RunDb) (frontier : List String)
    → length frontier + count_awaiting db.jobs ≤ fuel
    → drain fuel now db frontier ≢ out_of_fuel
unfolding drain
drain-done fuel now db [] h = λ e. cc
drain-done zero now db (p ∷ frontier) h = absurd (omega arith)
drain-done (suc fuel) now db (p ∷ frontier) h =
    elim (Result-cases (block_successors p (successors db p) now db frontier)) [
      | inr (e, is) ↦ rw (is, drain) (λ n. cc)
      | inl ((db', frontier'), is) ↦
          let le = block_successors-le p now (successors db p) db frontier is in
          rw (is, drain) (drain-done fuel now db' frontier' (omega arith))
    ]

-- The loop that blocks the descendants of a failed job ends within one round for the job and one
-- for each waiting job, on any dependency graph.
pub block_descendants_done :
    (db : RunDb) (failed : String) (now : ℕ)
    → block_descendants_fueled db failed now ≡ done (block_descendants_tx db failed now)
unfolding block_descendants_fueled block_descendants_tx
block_descendants_done db failed now =
    let fuel = suc (count_awaiting db.jobs) in
    let n = drain-done fuel now db (failed ∷ []) (omega arith) in ground arith

drain-IsConsistent :
    (fuel now : ℕ) (db : RunDb) (frontier : List String) {db' : RunDb}
    → drain fuel now db frontier ≡ done (ok db')
    → IsConsistent db
    → IsConsistent db'
unfolding drain
drain-IsConsistent fuel now db [] {db'} h c =
    let e : db ≡ db' = ground arith in subst IsConsistent e c
drain-IsConsistent zero now db (p ∷ frontier) h c = absurd (ground arith)
drain-IsConsistent (suc fuel) now db (p ∷ frontier) {db'} h c =
    elim (Result-cases (block_successors p (successors db p) now db frontier)) [
      | inr (e, is) ↦ absurd (ground arith)
      | inl ((mid, frontier'), is) ↦
          let e : drain fuel now mid frontier' ≡ done (ok db') = ground arith in
          drain-IsConsistent fuel now mid frontier' e
            (block_successors-IsConsistent p now (successors db p) db frontier is c)
    ]

pub block_descendants-IsConsistent :
    (db : RunDb) (failed : String) (now : ℕ) {db' : RunDb}
    → block_descendants_tx db failed now ≡ ok db'
    → IsConsistent db
    → IsConsistent db'
unfolding block_descendants_fueled
block_descendants-IsConsistent db failed now h c =
    drain-IsConsistent (suc (count_awaiting db.jobs)) now db (failed ∷ [])
      (block_descendants_done db failed now ∙ ap done h) c
