-- ===== src/Db/Failures/Ended.antt =====
-- `handle_attempt_failure` of db/engine.rs where no retry is left: the job ends, and what waits for
-- it is blocked.
use zk_ie.Common.{
  ℕ, ◌≡◌, refl, ◌⊎◌, inl, inr, ◌∙◌, subst, Bool, Bool-cases, true, false, some, ok, String, arith,
  All,
}
use zk_ie.Common.Text.{str_eq, eq_iff}
use zk_ie.State.{JobState}
use zk_ie.Db.Tables.{JobRow, RunDb, find_job}
use zk_ie.Db.Apply.Laws.{find_job-update_job}
use zk_ie.Db.Blocking.{as_terminal, set_terminal, awaits, block_descendants_tx, successors}
use zk_ie.Db.Blocking.Settled.{
  IsSettled, IsClosed, Same, kept, IsClosed-changed, IsClosed-of_before, successors-of_edges,
  block_descendants-Drained,
}

-- The state of a failure, by whether it is one of resources.
abbrev pub failed_state : Bool → JobState
failed_state true = JobState.resource_exceeded
failed_state false = JobState.execution_failed

-- The job is marked terminal in the state `s`; none of its successors waits any more, and every
-- other job is as it was or was waiting and is blocked, with no successor that waits.
pub record IsEnded (job : String) (s : JobState) (db db' : RunDb) : Type 0 where
  pub row : JobRow
  pub is_row : find_job job db'.jobs ≡ some row
  pub in_state : row.state ≡ s
  pub ends : row.terminal_failure ≡ true
  pub settled : All (IsSettled db') (successors db job)
  pub others : (id : String) → (id ≡ job) ⊎ IsClosed db db' id

pub block_descendants-IsEnded :
    (db : RunDb) (job : String) (now : ℕ) (row : JobRow) {db' : RunDb}
    → find_job job db.jobs ≡ some row
    → awaits row.state ≡ false
    → block_descendants_tx (set_terminal db job) job now ≡ ok db'
    → IsEnded job row.state db db'
block_descendants-IsEnded db job now row {db'} found still h =
    let mid = set_terminal db job in
    let d = block_descendants-Drained mid job now h in
    let at = λ (id : String). find_job-update_job id job as_terminal db.jobs (λ r. refl) in
    let here : find_job job mid.jobs ≡ some (as_terminal row) =
      at job ∙ ground (arith, eq_iff job job, found) in
    let edges = λ (id : String). successors-of_edges db mid id refl in
    record {
      row = as_terminal row;
      is_row = kept (IsClosed-changed (d.closed job)) here still;
      in_state = refl;
      ends = refl;
      settled = subst (All (IsSettled db')) (edges job) d.settled.0;
      others = λ id. elim (Bool-cases (str_eq id job)) [
        | inl same ↦ inl ((eq_iff id job).0 same)
        | inr other ↦ inr (IsClosed-of_before (at id ∙ rw other refl) (edges id) (d.closed id))
      ];
    }

-- The same, before an event of the job itself.
pub IsEnded-of_before :
    {job : String} {s : JobState} (db mid db' : RunDb)
    → ((id : String) → (id ≡ job) ⊎ Same db mid id)
    → mid.dependencies ≡ db.dependencies
    → IsEnded job s mid db'
    → IsEnded job s db db'
IsEnded-of_before {job} db mid db' same edges e = record {
  row = e.row;
  is_row = e.is_row;
  in_state = e.in_state;
  ends = e.ends;
  settled = subst (All (IsSettled db')) (successors-of_edges db mid job edges) e.settled;
  others = λ id. before id (same id) (e.others id);
}
  where
    before :
        (id : String)
        → (id ≡ job) ⊎ Same db mid id
        → (id ≡ job) ⊎ IsClosed mid db' id
        → (id ≡ job) ⊎ IsClosed db db' id
    before id (inl e) _ = inl e
    before id _ (inl e) = inl e
    before id (inr s) (inr c) = inr (IsClosed-of_before s (successors-of_edges db mid id edges) c)
