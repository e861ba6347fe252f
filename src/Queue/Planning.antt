-- ===== src/Queue/Planning.antt =====
-- crates/zkie-runtime/src/queue.rs, ensure_planned: what a second call does.
use zk_ie.Common.{
  suc, Bool, false, some, List, [], ◌∷◌, Result, ok, err, String, ◌≡◌, refl, ap, All, length, arith,
  ◌∙◌,
}
use zk_ie.Db.Tables.{RunDb}
use zk_ie.Queue.{PlannedJob, QueuePlan, QueueError, Engine, ◌>>=◌}
use zk_ie.Queue.Plans.{existing, create_jobs, Ids, connect, ensure_planned}

-- The run has a job under the name.
abbrev pub IsKnown : RunDb → PlannedJob → Type 0
IsKnown db job = (id : String) × (existing db job.logical_id ≡ some id)

-- The row that planning makes of a job that is known.
abbrev IsOld : String × String × Bool → Type 0
IsOld row = row.2 ≡ false

pub bind-ok :
    {A B : Type 0} (m : Engine A) (f : A → Engine B) (db db' : RunDb) (a : A)
    → m db ≡ (db', ok a)
    → (m >>= f) db ≡ f a db'
unfolding ◌>>=◌
bind-ok m f db db' a h =
    ap
      (λ (out : RunDb × Result QueueError _). elim out.1 [
        | ok x ↦ f x out.0
        | err e ↦ (out.0, err e)
      ])
      h

record Known (jobs : List PlannedJob) (db : RunDb) : Type 0 where
  ids : Ids
  made : create_jobs jobs db ≡ (db, ok ids)
  old : All IsOld ids
  sized : length ids ≡ length jobs

create_jobs-Known : (jobs : List PlannedJob) (db : RunDb) → All (IsKnown db) jobs → Known jobs db
unfolding create_jobs
create_jobs-Known [] db k = record { ids = []; made = refl; old = tt; sized = refl }
create_jobs-Known (job ∷ rest) db ((id, e), k) =
    let r = create_jobs-Known rest db k in
    record {
      ids = (job.logical_id, id, false) ∷ r.ids;
      made = rw (e, create_jobs) (bind-ok (create_jobs rest) _ db db r.ids r.made);
      old = (refl, r.old);
      sized = ap suc r.sized;
    }

connect-IsOld :
    (ids : Ids) (jobs : List PlannedJob) (rows : Ids) (db : RunDb)
    → All IsOld rows
    → length rows ≡ length jobs
    → connect ids jobs rows db ≡ (db, ok tt)
unfolding connect
connect-IsOld ids [] rows db o n = refl
connect-IsOld ids (job ∷ rest) [] db o n = absurd (omega arith)
connect-IsOld ids (job ∷ rest) (row ∷ rows) db o n =
    rw (o.0) (connect-IsOld ids rest rows db o.1 (omega arith))

-- Where every job of the plan is known to the run, planning succeeds and changes nothing,
-- whatever edges the run has.
pub ensure_planned_again :
    (plan : QueuePlan) (db : RunDb)
    → All (IsKnown db) plan.jobs
    → (ids : Ids) × (ensure_planned plan db ≡ (db, ok ids))
unfolding ensure_planned
ensure_planned_again plan db k =
    let r = create_jobs-Known plan.jobs db k in
    (
      r.ids,
      bind-ok (create_jobs plan.jobs) _ db db r.ids r.made
          ∙ bind-ok (connect r.ids plan.jobs r.ids) _ db db tt
              (connect-IsOld r.ids plan.jobs r.ids db r.old r.sized),
    )
