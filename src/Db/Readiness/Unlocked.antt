-- ===== src/Db/Readiness/Unlocked.antt =====
-- A job leaves the waiting states only once every job that it depends on is verified.
use zk_ie.Common.{
  ℕ, ◌+◌, ◌≡◌, ◌≢◌, Bool, true, false, ◌&&◌, Option, none, some, List, [], ◌∷◌, ok, ◌>>=◌, Ensures,
  Ensures-bind, Ensures-pure, Ensures-if, String, ◌⊎◌, arith, Bool-cases, Option-cases, inl, inr,
  all, any, find, All,
}
use zk_ie.Common.Sort.{sort_by, All-of_sort_by}
use zk_ie.Common.Text.{str_eq, eq_iff, cmp_str}
use zk_ie.State.{JobState, JobEvent, next_state}
use zk_ie.State.Transition.{is_waiting}
use zk_ie.Db.Tables.{JobRow, RunDb, DependencyRow, DbError, find_job}
use zk_ie.Db.Apply.{apply_event_tx, job_after}
use zk_ie.Db.Apply.Laws.{Applied, apply_event_tx-Applied, find_job-update_job, due-job_after}
use zk_ie.Db.Readiness.{
  predecessor_rows, predecessor_states, is_verified_row, has_failed, refresh_one, refresh_from,
  awaiting_ids, refresh_readiness,
}

abbrev pub depends : String → String → List DependencyRow → Bool
depends p job = any (λ d. str_eq d.predecessor p && str_eq d.successor job)

-- Every predecessor of the job is verified.
abbrev pub AllVerified : String → RunDb → Type 0
AllVerified job db =
    (p : String) (r : JobRow)
    → depends p job db.dependencies ≡ true
    → find_job p db.jobs ≡ some r
    → r.state ≡ JobState.verified

-- A job that is past waiting has only verified predecessors.
abbrev pub IsUnlocked : RunDb → Type 0
IsUnlocked db =
    (job : String) (r : JobRow)
    → find_job job db.jobs ≡ some r
    → is_waiting r.state ≡ false
    → AllVerified job db

-- The test of the loop decides it.
predecessor_rows-verified :
    (job : String) (jobs : List JobRow) (ds : List DependencyRow)
    → All (λ r. is_verified_row r ≡ true) (predecessor_rows job jobs ds)
    → (p : String) (r : JobRow) → depends p job ds ≡ true
    → find_job p jobs ≡ some r
    → r.state ≡ JobState.verified
predecessor_rows-verified job jobs [] h p r d f = cc
predecessor_rows-verified job jobs (x ∷ ds) h p r d f =
    let ih = predecessor_rows-verified job jobs ds in
    elim (Bool-cases (str_eq x.successor job)) [
      | inl hit ↦ elim (Option-cases (find_job x.predecessor jobs)) [
        | inl missing ↦ ground (arith, ih (ground arith) p r, eq_iff x.predecessor p, eq_iff p p)
        | inr (q, is) ↦ ground (arith, ih (ground arith) p r, eq_iff x.predecessor p, eq_iff p p)
      ]
      | inr miss ↦ ground (arith, ih (ground arith) p r, eq_iff x.predecessor p, eq_iff p p)
    ]

-- No event leaves `verified`, and only one enters a state past waiting from a waiting one.
verified_is_final : (e : JobEvent) → next_state JobState.verified e ≡ none
unfolding next_state
verified_is_final e = ground arith

leaves_waiting :
    (s : JobState) (e : JobEvent) {t : JobState}
    → next_state s e ≡ some t
    → is_waiting s ≡ true
    → is_waiting t ≡ false
    → e ≡ JobEvent.dependencies_satisfied
unfolding next_state
leaves_waiting s e h w n = ground arith

-- The row of a job after an event.
state_after :
    {db db' : RunDb} {job : String} {attempt : Option String} {event : JobEvent}
    {attempt_count : Option ℕ} {next : JobState}
    → Applied db job attempt event attempt_count db' next
    → (id : String) (r : JobRow) → find_job id db'.jobs ≡ some r
    → ((id ≡ job) × (r.state ≡ next)) ⊎ ((id ≢ job) × (find_job id db.jobs ≡ some r))
unfolding job_after
state_after {db} {job = job} {event = event} {attempt_count = attempt_count} {next = next} a id r
      f =
    let at =
      find_job-update_job id job (job_after event next attempt_count) db.jobs
        (λ r. (due-job_after event next attempt_count r).1) in
    ground (arith, eq_iff id job, a.found, a.jobs, at)

module _ {db db' : RunDb} {job : String} {attempt : Option String} {event : JobEvent}
    {attempt_count : Option ℕ} {next : JobState}
    (a : Applied db job attempt event attempt_count db' next) where
  AllVerified-Applied : (id : String) → AllVerified id db → AllVerified id db'
  AllVerified-Applied id v p r d f = elim (state_after a p r f) [
    | inl (is, _) ↦
        let was = v p a.row (rw a.dependencies at d) (rw is a.found) in
        absurd (ground (arith, a.moved, was, verified_is_final event))
    | inr (_, same) ↦ v p r (rw a.dependencies at d) same
  ]

  -- An event keeps every job behind its dependencies, where the one event that leaves the waiting
  -- states is applied to a job whose predecessors are verified.
  pub Applied-IsUnlocked :
      IsUnlocked db
      → (event ≡ JobEvent.dependencies_satisfied → AllVerified job db)
      → IsUnlocked db'
  Applied-IsUnlocked u k id r f w = AllVerified-Applied id (elim (state_after a id r f) [
    | inr (_, same) ↦ u id r same w
    | inl (is, now) ↦ elim (Bool-cases (is_waiting a.row.state)) [
      | inl waits ↦
          rw is (k (leaves_waiting a.row.state event a.moved waits (ground (arith, now, w))))
      | inr past ↦ rw is (u job a.row a.found past)
    ]
  ])

all_verified :
    (rows : List JobRow)
    → all is_verified_row rows ≡ true
    → All (λ r. is_verified_row r ≡ true) rows
all_verified [] h = tt
all_verified (r ∷ rows) h = (ground arith, all_verified rows (ground arith))

predecessor_states-AllVerified :
    (db : RunDb) (job : String)
    → all is_verified_row (predecessor_states db job) ≡ true
    → AllVerified job db
unfolding predecessor_states
predecessor_states-AllVerified db job h = predecessor_rows-verified job db.jobs db.dependencies (
    All-of_sort_by (λ a b. cmp_str a.job_id b.job_id) (λ r. is_verified_row r ≡ true)
      (predecessor_rows job db.jobs db.dependencies) (all_verified (predecessor_states db job) h))

refresh_one-IsUnlocked :
    (db : RunDb) (job : String) (now : ℕ)
    → IsUnlocked db
    → Ensures (λ out. IsUnlocked out.0) (refresh_one db job now)
unfolding refresh_one
refresh_one-IsUnlocked db job now u =
    Ensures-if (all is_verified_row (predecessor_states db job))
      (λ h.
        Ensures-bind {m = apply_event_tx db job none JobEvent.dependencies_satisfied none now}
          λ out is. Ensures-pure (
            Applied-IsUnlocked
              (apply_event_tx-Applied db job none JobEvent.dependencies_satisfied none now is) u
              (λ _. predecessor_states-AllVerified db job h)))
      (λ _. waits (find has_failed (predecessor_states db job)))
  where
    waits :
        (found : Option JobRow)
        → Ensures {E = DbError} {A = RunDb × ℕ}
            (λ out. IsUnlocked out.0)
            (elim found [
              | none ↦ ok (db, 0)
              | some p ↦
                  apply_event_tx db job none (JobEvent.dependency_blocked p.job_id) none now
                  >>= λ applied. ok (applied.0, 0)
            ])
    waits none = Ensures-pure u
    waits (some p) =
        Ensures-bind
          {m = apply_event_tx db job none (JobEvent.dependency_blocked p.job_id) none now}
          λ out is. Ensures-pure (
            Applied-IsUnlocked
              (apply_event_tx-Applied db job none (JobEvent.dependency_blocked p.job_id) none now
                is)
              u (λ e. cc))

refresh_from-IsUnlocked :
    (ids : List String) (now : ℕ) (db : RunDb) (ready : ℕ)
    → IsUnlocked db
    → Ensures (λ out. IsUnlocked out.0) (refresh_from ids now db ready)
unfolding refresh_from
refresh_from-IsUnlocked [] now db ready u = Ensures-pure u
refresh_from-IsUnlocked (job ∷ ids) now db ready u =
    Ensures-bind {m = refresh_one db job now} λ out is.
      refresh_from-IsUnlocked ids now out.0 (ready + out.1)
        ((refresh_one-IsUnlocked db job now u).at out is)

pub refresh_readiness-IsUnlocked :
    (db : RunDb) (now : ℕ)
    → IsUnlocked db
    → Ensures (λ out. IsUnlocked out.0) (refresh_readiness db now)
unfolding refresh_readiness
refresh_readiness-IsUnlocked db now u =
    refresh_from-IsUnlocked (sort_by cmp_str (awaiting_ids db.jobs)) now db 0 u
