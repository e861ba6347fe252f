-- ===== src/Queue/Plans.antt =====
-- crates/zkie-runtime/src/queue.rs, ensure_planned, ready_candidates and summarize: the jobs of a plan
-- in the database.
use zk_ie.Common.{
  Bool, true, false, Option, none, some, List, [], ◌∷◌, Result, ok, err, String, if◌then◌else◌,
  find,
}
use mathlib.Core.Option
use zk_ie.Common.Int.{ℤ}
use zk_ie.Common.Text.{str_eq, cmp_str}
use zk_ie.Common.Sort.{sort_by}
use zk_ie.State.{JobState}
use zk_ie.Db.Tables.{JobRow, RunDb, DbError, job_not_found, find_job}
use zk_ie.Db.Jobs.{insert_job, add_dependency}
use zk_ie.Scheduler.{SchedulableJob, is_ready}
use zk_ie.Queue.{
  Engine, PlannedJob, QueueError, QueueOutcome, QueuePlan, database, index_out_of_range, pure,
  transact, unknown_predecessor, ◌>>=◌, ◌>>◌,
}

-- `RunDb::jobs`, in the order of the logical ids.
abbrev pub jobs_of : RunDb → List JobRow
jobs_of db = sort_by (λ a b. cmp_str a.logical_job_id b.logical_job_id) db.jobs

unfoldable pub existing : RunDb → String → Option String
existing db logical_id =
    Option.map (λ (r : JobRow). r.job_id)
      (find (λ r. str_eq r.logical_job_id logical_id) (jobs_of db))

-- The first loop of `ensure_planned`: the id of each job, and whether it was created.
unfoldable pub create_jobs : List PlannedJob → Engine (List (String × String × Bool))
create_jobs [] = pure []
create_jobs (planned ∷ rest) = λ db. elim (existing db planned.logical_id) [
  | some id ↦ (create_jobs rest >>= λ more. pure ((planned.logical_id, id, false) ∷ more)) db
  | none ↦
      (transact (λ d. insert_job d planned.logical_id planned.kind) >>= λ id.
      create_jobs rest >>= λ more. pure ((planned.logical_id, id, true) ∷ more))
        db
]

abbrev pub Ids : Type 0
Ids = List (String × String × Bool)

-- `ids.iter().find(..)`.
unfoldable pub id_of : String → Ids → Option String
id_of name [] = none
id_of name (row ∷ rest) = if str_eq row.0 name then some row.1 else id_of name rest

-- `db.add_dependency(&predecessor, &successor)`.
abbrev pub edge : String → String → RunDb → Result DbError (RunDb × Unit {0})
edge predecessor successor db = elim (add_dependency db predecessor successor) [
  | ok db' ↦ ok (db', tt)
  | err e ↦ err e
]

-- The edges of one job that was created.
unfoldable pub add_edges : Ids → String → String → List String → Engine (Unit {0})
add_edges ids job successor [] = pure tt
add_edges ids job successor (name ∷ rest) = λ db. elim (id_of name ids) [
  | none ↦ (db, err (unknown_predecessor job name))
  | some predecessor ↦
      (transact (edge predecessor successor) >>= λ _. add_edges ids job successor rest) db
]

-- The second loop of `ensure_planned`, over the jobs and their rows in `ids`.
unfoldable pub connect : Ids → List PlannedJob → Ids → Engine (Unit {0})
connect ids [] rows = pure tt
connect ids (planned ∷ rest) [] = λ db. (db, err index_out_of_range)
connect ids (planned ∷ rest) (row ∷ rows) =
    let later = connect ids rest rows in
    if row.2
    then (add_edges ids planned.logical_id row.1 planned.depends_on >>= λ _. later)
    else later

unfoldable pub ensure_planned : QueuePlan → Engine Ids
ensure_planned plan = do ids ← create_jobs plan.jobs; connect ids plan.jobs ids; pure ids

-- `ready_candidates`.
unfoldable pub ready_candidates :
    RunDb → List PlannedJob → Ids → Result QueueError (List SchedulableJob)
ready_candidates db [] ids = ok []
ready_candidates db (planned ∷ rest) ids =
    let later = ready_candidates db rest ids in
    elim (id_of planned.logical_id ids) [
      | none ↦ err (unknown_predecessor planned.logical_id planned.logical_id)
      | some id ↦ elim (find_job id db.jobs) [
        | none ↦ err (database (job_not_found id))
        | some row ↦ elim later [
          | err e ↦ err e
          | ok more ↦ ok (
              if is_ready row.state
              then record {
                job_id = id;
                request = planned.request;
                ready_since_unix_seconds = ℤ.pos 0;
              }
                ∷ more
              else more)
        ]
      ]
    ]

-- `summarize`, with the rounds filled in later.
abbrev pub with_row : JobRow → QueueOutcome → QueueOutcome
with_row r o = elim r.state [
  | JobState.verified ↦ record o { verified = r.job_id ∷ o.verified }
  | JobState.blocked ↦ record o { blocked = r.job_id ∷ o.blocked }
  | JobState.verification_failed ↦ record o { terminal = r.job_id ∷ o.terminal }
  | _ ↦ if r.terminal_failure then record o { terminal = r.job_id ∷ o.terminal } else o
]

unfoldable pub summarize_rows : List JobRow → QueueOutcome
summarize_rows [] = record { verified = []; terminal = []; blocked = []; rounds = 0 }
summarize_rows (r ∷ rs) = with_row r (summarize_rows rs)
