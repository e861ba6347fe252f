-- ===== src/Db/Blocking.antt =====
-- `block_descendants_tx` of db.rs: what waits for a failed job is blocked, and what waits for that.
pub mod Laws
pub mod Settled
use zk_ie.Common.{
  ℕ, zero, suc, ◌+◌, Bool, true, false, Option, none, some, List, [], ◌∷◌, map, Result, ok, err,
  ◌>>=◌, String, if◌then◌else◌, length,
}
use zk_ie.Common.Sort.{sort_by}
use zk_ie.Common.Text.{str_eq, cmp_str}
use zk_ie.State.{JobState, JobEvent}
use zk_ie.Db.Tables.{JobRow, RunDb, DependencyRow, DbError, sql, find_job, update_job}
use zk_ie.Db.Apply.{current_state, apply_event_tx}

-- `UPDATE jobs SET terminal_failure=1 WHERE job_id=?`.
abbrev pub as_terminal : JobRow → JobRow
as_terminal r = record r { terminal_failure = true }

abbrev pub set_terminal : RunDb → String → RunDb
set_terminal db job = record db { jobs = update_job job as_terminal db.jobs }

abbrev pub successor_ids : String → List DependencyRow → List String
successor_ids predecessor [] = []
successor_ids predecessor (d ∷ ds) =
    if str_eq d.predecessor predecessor
    then d.successor ∷ successor_ids predecessor ds
    else successor_ids predecessor ds

-- `SELECT successor_job_id … ORDER BY successor_job_id`.
unfoldable pub successors : RunDb → String → List String
successors db predecessor = sort_by cmp_str (successor_ids predecessor db.dependencies)

-- `matches!(state, Pending | Requeued)`.
abbrev pub awaits : JobState → Bool
awaits JobState.pending = true
awaits JobState.requeued = true
awaits _ = false

-- The `for` loop over the successors of one job: the waiting ones are blocked and pushed.
unfoldable pub block_successors :
    String → List String → ℕ → RunDb → List String → Result DbError (RunDb × List String)
block_successors predecessor [] now db frontier = ok (db, frontier)
block_successors predecessor (s ∷ ss) now db frontier =
    let skip = block_successors predecessor ss now db frontier in
    let block =
      apply_event_tx db s none (JobEvent.dependency_blocked predecessor) none now >>= λ applied.
      block_successors predecessor ss now (set_terminal applied.0 s) (s ∷ frontier) in
    current_state db s >>= λ current. if awaits current then block else skip

-- How a loop with fuel ends: with its result, or with the fuel used up.
pub data Fueled (A : Type 0) : Type 0 where
  done : A → Fueled A
  out_of_fuel : Fueled A

-- The `while let Some(predecessor) = frontier.pop()`; the top of the stack is the head.
unfoldable pub drain : ℕ → ℕ → RunDb → List String → Fueled (Result DbError RunDb)
drain fuel now db [] = done (ok db)
drain zero now db (p ∷ frontier) = out_of_fuel
drain (suc fuel) now db (p ∷ frontier) =
    elim (block_successors p (successors db p) now db frontier) [
      | ok (db', frontier') ↦ drain fuel now db' frontier'
      | err e ↦ done (err e)
    ]

abbrev pub count_awaiting : List JobRow → ℕ
count_awaiting [] = 0
count_awaiting (r ∷ rows) =
    if awaits r.state then suc (count_awaiting rows) else count_awaiting rows

-- Each pushed job was waiting and is blocked from then on, so one round for the failed job and one
-- for each waiting job is enough.
unfoldable pub block_descendants_fueled : RunDb → String → ℕ → Fueled (Result DbError RunDb)
block_descendants_fueled db failed now = drain (suc (count_awaiting db.jobs)) now db (failed ∷ [])

unfoldable pub block_descendants_tx : RunDb → String → ℕ → Result DbError RunDb
block_descendants_tx db failed now = elim (block_descendants_fueled db failed now) [
  | done r ↦ r
  | out_of_fuel ↦ err sql
]
