-- ===== src/Db/Blocking/Settled.antt =====
-- What the blocking of descendants leaves: the jobs that it blocked, and no waiting successor of any
-- of them.
use zk_ie.Common.{
  ℕ, zero, suc, ◌≡◌, refl, sym, ◌∙◌, ap, subst, ◌⊎◌, inl, inr, true, false, none, some, List, [],
  ◌∷◌, ok, Result-cases, Bool-cases, Option-cases, if◌then◌else◌, String, arith, All, All-map_of,
}
use mathlib.Core.Option
use zk_ie.Common.Text.{str_eq, eq_iff, cmp_str}
use zk_ie.Common.Sort.{sort_by}
use zk_ie.State.{JobState, JobEvent}
use zk_ie.Db.Tables.{JobRow, RunDb, find_job}
use zk_ie.Db.Apply.{current_state, job_after}
use zk_ie.Db.Apply.Laws.{apply_event_tx-Applied, find_job-update_job, due-job_after}
use zk_ie.Db.Blocking.{
  as_terminal, set_terminal, awaits, block_successors, done, drain, count_awaiting, successor_ids,
  block_descendants_fueled, block_descendants_tx, successors,
}
use zk_ie.Db.Blocking.Laws.{
  Pushed, block_successors-cons, next_state_blocked, block_descendants_done,
}

-- The job has a row, and no longer waits.
abbrev pub IsSettled : RunDb → String → Type 0
IsSettled db id = (row : JobRow) × (find_job id db.jobs ≡ some row) × (awaits row.state ≡ false)

-- The job waited in the first database, and is blocked for good in the second.
pub record Blocked (db db' : RunDb) (id : String) : Type 0 where
  pub before : JobRow
  pub was : find_job id db.jobs ≡ some before
  pub waited : awaits before.state ≡ true
  pub after : JobRow
  pub is : find_job id db'.jobs ≡ some after
  pub blocks : after.state ≡ JobState.blocked
  pub ends : after.terminal_failure ≡ true

abbrev pub Same : RunDb → RunDb → String → Type 0
Same db db' id = find_job id db'.jobs ≡ find_job id db.jobs

pub Blocked-of_before :
    {db mid db' : RunDb} {id : String} → Same db mid id → Blocked mid db' id → Blocked db db' id
Blocked-of_before s b = record {
  before = b.before;
  was = sym s ∙ b.was;
  waited = b.waited;
  after = b.after;
  is = b.is;
  blocks = b.blocks;
  ends = b.ends;
}

Blocked-of_after :
    {db mid db' : RunDb} {id : String} → Blocked db mid id → Same mid db' id → Blocked db db' id
Blocked-of_after b s = record {
  before = b.before;
  was = b.was;
  waited = b.waited;
  after = b.after;
  is = s ∙ b.is;
  blocks = b.blocks;
  ends = b.ends;
}

-- A blocked job is not blocked again.
Blocked-once : {db mid db' : RunDb} {id : String} → Blocked db mid id → Blocked mid db' id → ⊥
Blocked-once b c =
    let same : b.after ≡ c.before = ground (arith, b.is, c.was) in
    ground (arith, same, b.blocks, c.waited)

changed_by :
    {db mid db' : RunDb} {id : String}
    → Same db mid id ⊎ Blocked db mid id
    → Same mid db' id ⊎ Blocked mid db' id
    → Same db db' id ⊎ Blocked db db' id
changed_by (inl s) (inl t) = inl (t ∙ s)
changed_by (inl s) (inr c) = inr (Blocked-of_before s c)
changed_by (inr b) (inl t) = inr (Blocked-of_after b t)
changed_by (inr b) (inr c) = absurd (Blocked-once b c)

-- A job that does not wait keeps its row.
pub kept :
    {db db' : RunDb} {id : String} {row : JobRow}
    → Same db db' id ⊎ Blocked db db' id
    → find_job id db.jobs ≡ some row
    → awaits row.state ≡ false
    → find_job id db'.jobs ≡ some row
kept (inl s) at w = s ∙ at
kept {row = row} (inr b) at w =
    let same : b.before ≡ row = ground (arith, b.was, at) in
    absurd (ground (arith, same, b.waited, w))

pub IsSettled-kept :
    {db db' : RunDb}
    → ((id : String) → Same db db' id ⊎ Blocked db db' id)
    → (ids : List String) → All (IsSettled db) ids
    → All (IsSettled db') ids
IsSettled-kept c [] a = tt
IsSettled-kept c (id ∷ ids) ((row, at, w), rest) =
    ((row, kept (c id) at w, w), IsSettled-kept c ids rest)

current_state-row :
    (db : RunDb) (id : String) {s : JobState}
    → current_state db id ≡ ok s
    → (row : JobRow) × (find_job id db.jobs ≡ some row) × (row.state ≡ s)
unfolding current_state
current_state-row db id h = elim (Option-cases (find_job id db.jobs)) [
  | inl e ↦ absurd (ground arith)
  | inr (row, at) ↦ (row, at, ground arith)
]

job_after-state :
    (event : JobEvent) (next : JobState) (r : JobRow) → (job_after event next none r).state ≡ next
unfolding job_after
job_after-state event next r = refl

module _ (predecessor : String) (now : ℕ) where
  -- One blocked successor, and no other row changes.
  module _ (s : String) (ss : List String) (db : RunDb) (frontier : List String)
      {out : RunDb × List String} (p : Pushed predecessor now s ss db frontier out) where
    abbrev pushed_db : RunDb
    pushed_db = set_terminal p.after s

    pushed-row :
        (id : String)
        → find_job id pushed_db.jobs ≡ (
            if str_eq id s
            then Option.map as_terminal (
                Option.map
                  (job_after (JobEvent.dependency_blocked predecessor) p.next none)
                  (find_job id db.jobs))
            else find_job id db.jobs)
    pushed-row id =
        let event = JobEvent.dependency_blocked predecessor in
        let a = apply_event_tx-Applied db s none event none now p.applied in
        let first =
          find_job-update_job id s (job_after event p.next none) db.jobs
            (λ r. (due-job_after event p.next none r).1) in
        let second = find_job-update_job id s as_terminal p.after.jobs (λ r. refl) in
        ground (arith, first, second, a.jobs)

    pushed-Blocked : Blocked db pushed_db s
    pushed-Blocked =
        let event = JobEvent.dependency_blocked predecessor in
        let a = apply_event_tx-Applied db s none event none now p.applied in
        let (row, at, is) = current_state-row db s p.is_current in
        let same : row ≡ a.row = ground (arith, at, a.found) in
        record {
          before = a.row;
          was = a.found;
          waited = ap (λ (r : JobRow). awaits r.state) (sym same) ∙ (ap awaits is ∙ p.waits);
          after = as_terminal (job_after event p.next none a.row);
          is = pushed-row s ∙ ground (arith, eq_iff s s, a.found);
          blocks =
              job_after-state event p.next a.row
              ∙ next_state_blocked a.row.state predecessor a.moved;
          ends = refl;
        }

    pushed-changed : (id : String) → Same db pushed_db id ⊎ (s ≡ id)
    pushed-changed id = elim (Bool-cases (str_eq id s)) [
      | inl here ↦ inr (sym ((eq_iff id s).0 here))
      | inr other ↦ inl (pushed-row id ∙ rw other refl)
    ]

  pub record Round (ss : List String) (db : RunDb) (frontier : List String) (db' : RunDb)
      (frontier' : List String) : Type 1 where
    pub changed : (id : String) → Same db db' id ⊎ Blocked db db' id
    pub settled : All (IsSettled db') ss
    pub edges : db'.dependencies ≡ db.dependencies
    pub stacked :
        (P : String → Type 0)
        → All P frontier'
        → All P frontier × ((id : String) → Blocked db db' id → P id)

  -- One round of the loop: the successors no longer wait, and what it blocked is on the stack.
  block_successors-Round :
      (ss : List String) (db : RunDb) (frontier : List String) {db' : RunDb}
      {frontier' : List String}
      → block_successors predecessor ss now db frontier ≡ ok (db', frontier')
      → Round ss db frontier db' frontier'
  unfolding block_successors
  block_successors-Round [] db frontier {db'} {frontier'} h =
      let e : db ≡ db' = ground arith in
      let f : frontier' ≡ frontier = ground arith in
      record {
        changed = λ id. inl (ap (λ (d : RunDb). find_job id d.jobs) (sym e));
        settled = tt;
        edges = ap (λ (d : RunDb). d.dependencies) (sym e);
        stacked = λ P all. (
          subst (All P) f all,
          λ id b.
              absurd
                (Blocked-once b (Blocked-of_before (ap (λ (d : RunDb). find_job id d.jobs) e) b)),
        );
      }
  block_successors-Round (s ∷ ss) db frontier {db'} h =
      elim (block_successors-cons predecessor now s ss db frontier h) [
        | inl k ↦
            let r = block_successors-Round ss db frontier k.rest in
            let (row, at, is) = current_state-row db s k.is_current in
            let still : awaits row.state ≡ false = ap awaits is ∙ k.settled in
            record {
              changed = r.changed;
              settled = ((row, kept (r.changed s) at still, still), r.settled);
              edges = r.edges;
              stacked = r.stacked;
            }
        | inr p ↦
            let mid = set_terminal p.after s in
            let pushes = pushed-Blocked s ss db frontier p in
            let r = block_successors-Round ss mid (s ∷ frontier) p.rest in
            let a =
              apply_event_tx-Applied db s none (JobEvent.dependency_blocked predecessor) none now
                p.applied in
            record {
              changed = λ id.
                  changed_by
                    (elim (pushed-changed s ss db frontier p id) [
                      | inl same ↦ inl same
                      | inr here ↦ inr (subst (Blocked db mid) here pushes)
                    ])
                    (r.changed id);
              settled = (
                (
                  pushes.after,
                  kept (r.changed s) pushes.is (ap awaits pushes.blocks),
                  ap awaits pushes.blocks,
                ),
                r.settled,
              );
              edges = r.edges ∙ a.dependencies;
              stacked = λ P all. (
                (r.stacked P all).0.1,
                λ id b. elim (pushed-changed s ss db frontier p id) [
                  | inl same ↦ (r.stacked P all).1 id (Blocked-of_before (sym same) b)
                  | inr here ↦ subst P here (r.stacked P all).0.0
                ],
              );
            }
      ]

-- Every job is as it was, or it was blocked and none of its successors waits.
abbrev pub IsClosed : RunDb → RunDb → String → Type 0
IsClosed db db' id = Same db db' id ⊎ (Blocked db db' id × All (IsSettled db') (successors db id))

pub record Drained (db : RunDb) (frontier : List String) (db' : RunDb) : Type 0 where
  pub closed : (id : String) → IsClosed db db' id
  pub settled : All (λ p. All (IsSettled db') (successors db p)) frontier

pub IsClosed-changed :
    {db db' : RunDb} {id : String} → IsClosed db db' id → Same db db' id ⊎ Blocked db db' id
IsClosed-changed (inl s) = inl s
IsClosed-changed (inr (b, _)) = inr b

pub successors-of_edges :
    (db db' : RunDb) (id : String)
    → db'.dependencies ≡ db.dependencies
    → successors db' id ≡ successors db id
unfolding successors
successors-of_edges db db' id e = ap (λ l. sort_by cmp_str (successor_ids id l)) e

pub IsClosed-of_before :
    {db mid db' : RunDb} {id : String}
    → Same db mid id
    → successors mid id ≡ successors db id
    → IsClosed mid db' id
    → IsClosed db db' id
IsClosed-of_before s e (inl t) = inl (t ∙ s)
IsClosed-of_before {db' = db'} s e (inr (c, l)) =
    inr (Blocked-of_before s c, subst (All (IsSettled db')) e l)

drain-Drained :
    (fuel now : ℕ) (db : RunDb) (frontier : List String) {db' : RunDb}
    → drain fuel now db frontier ≡ done (ok db')
    → Drained db frontier db'
unfolding drain
drain-Drained fuel now db [] {db'} h =
    let e : db ≡ db' = ground arith in
    record { closed = λ id. inl (ap (λ (d : RunDb). find_job id d.jobs) (sym e)); settled = tt }
drain-Drained zero now db (p ∷ frontier) h = absurd (ground arith)
drain-Drained (suc fuel) now db (p ∷ frontier) {db'} h =
    elim (Result-cases (block_successors p (successors db p) now db frontier)) [
      | inr (e, is) ↦ absurd (ground arith)
      | inl ((mid, frontier'), is) ↦
          let e : drain fuel now mid frontier' ≡ done (ok db') = ground arith in
          let d = drain-Drained fuel now mid frontier' e in
          let r = block_successors-Round p now (successors db p) db frontier is in
          let same = λ (id : String). successors-of_edges db mid id r.edges in
          let stacked =
            r.stacked (λ q. All (IsSettled db') (successors db q))
              (All-map_of _ _ frontier' (λ q. subst (All (IsSettled db')) (same q)) d.settled) in
          record {
            closed = λ id. close id (r.changed id) (d.closed id) (stacked.1 id) (same id);
            settled = (
              IsSettled-kept (λ id. IsClosed-changed (d.closed id)) (successors db p) r.settled,
              stacked.0,
            );
          }
    ]
  where
    close :
        {mid : RunDb} (id : String)
        → Same db mid id ⊎ Blocked db mid id
        → IsClosed mid db' id
        → (Blocked db mid id → All (IsSettled db') (successors db id))
        → successors mid id ≡ successors db id
        → IsClosed db db' id
    close id (inl s) c k e = IsClosed-of_before s e c
    close id (inr b) (inl t) k e = inr (Blocked-of_after b t, k b)
    close id (inr b) (inr (c, l)) k e = absurd (Blocked-once b c)

-- What the blocking of the descendants of a failed job leaves.
pub block_descendants-Drained :
    (db : RunDb) (failed : String) (now : ℕ) {db' : RunDb}
    → block_descendants_tx db failed now ≡ ok db'
    → Drained db (failed ∷ []) db'
unfolding block_descendants_fueled
block_descendants-Drained db failed now h =
    drain-Drained (suc (count_awaiting db.jobs)) now db (failed ∷ [])
      (block_descendants_done db failed now ∙ ap done h)
