-- ===== src/Scheduler/Decide.antt =====
-- What a decision starts and what it leaves, on the database that the refresh left.
use zk_ie.Common.{
  ℕ, ◌≤◌, ◌≡◌, ◌⊎◌, inl, inr, true, false, none, List, [], ◌∷◌, arith, All, Option-cases, ok,
  Result-cases, String, >>=-eq-ok, any, subst, ok-injective, sym, ◌∙◌, ap,
}
use zk_ie.Common.Int.{ℤ}
use zk_ie.Common.Sort.{sort_by, sort_by-All, All-of_sort_by, tally-sort_by}
use zk_ie.Common.Text.{str_eq, eq_iff}
use zk_ie.Resource.{ResourceCapacity, fits}
use zk_ie.Db.Tables.{RunDb}
use zk_ie.Db.Readiness.{refresh_readiness}
use zk_ie.Scheduler.{
  SchedulerConfig, SchedulableJob, SchedulerDecision, compare_age, first_duplicate, clamp,
  is_eligible, eligible_of, place, decide_ready, decide,
}
use zk_ie.Scheduler.Fill.{Granted, count, ids}
use zk_ie.Scheduler.Place.{IsIn, Placed, place-Placed}

-- What the filter of `decide` keeps.
pub record Kept (db : RunDb) (candidates eligible : List SchedulableJob) : Type 1 where
  pub eligible_now : All (λ c. is_eligible db c ≡ ok true) eligible
  pub counts : (id : String) → count id eligible ≤ count id candidates
  pub covers :
      (P : SchedulableJob → Type 0)
      → All P eligible
      → All (λ c. is_eligible db c ≡ ok true → P c) candidates

pub eligible_of-Kept :
    (db : RunDb) (candidates : List SchedulableJob) {eligible : List SchedulableJob}
    → eligible_of db candidates ≡ ok eligible
    → Kept db candidates eligible
unfolding eligible_of
eligible_of-Kept db [] {eligible} h =
    let is : eligible ≡ [] = cc in
    rw is (record { eligible_now = tt; counts = λ id. omega arith; covers = λ P a. tt })
eligible_of-Kept db (c ∷ cs) {eligible} h = elim (Result-cases (is_eligible db c)) [
  | inr (e, is) ↦ absurd (ground (arith, h, is))
  | inl (true, is) ↦
      let (kept, ran, out) =
        >>=-eq-ok (eligible_of db cs) (λ kept. ok (c ∷ kept)) (rw (is, eligible_of) at h) in
      let k = eligible_of-Kept db cs ran in
      rw (← ok-injective out) (record {
        eligible_now = (is, k.eligible_now);
        counts = λ id. ground (arith, k.counts id);
        covers = λ P a. ((λ _. a.0), k.covers P a.1);
      })
  | inl (false, is) ↦
      let (kept, ran, out) =
        >>=-eq-ok (eligible_of db cs) (λ kept. ok kept) (rw (is, eligible_of) at h) in
      let k = eligible_of-Kept db cs ran in
      rw (← ok-injective out) (record {
        eligible_now = k.eligible_now;
        counts = λ id. ground (arith, k.counts id);
        covers = λ P a. ((λ e. absurd (ground (arith, e, is))), k.covers P a);
      })
]

-- The candidates' ids are distinct where no duplicate is found.
distinct :
    (seen : List String) (cs : List SchedulableJob) (id : String)
    → first_duplicate seen cs ≡ none
    → (count id cs ≤ 1) × (any (λ s. str_eq s id) seen ≡ true → count id cs ≡ 0)
unfolding first_duplicate
distinct seen [] id h = ground arith
distinct seen (c ∷ cs) id h = ground (
  arith,
  distinct (c.job_id ∷ seen) cs id,
  eq_iff id c.job_id,
  eq_iff c.job_id id,
  eq_iff c.job_id c.job_id,
)

-- What a decision promises: the jobs it selects are ready with verified predecessors, no job twice,
-- and their reservations come out of what is available one after the other; a ready candidate that
-- it leaves does not fit what remains, unless the machine is held for one.
pub record Decided (config : SchedulerConfig) (db : RunDb) (candidates : List SchedulableJob)
    (available : ResourceCapacity) (d : SchedulerDecision) : Type 1 where
  pub picked : List SchedulableJob
  pub named : d.selected ≡ ids picked
  pub granted : Granted (clamp config available) picked d.remaining
  pub once : (id : String) → count id picked ≤ 1
  pub runnable : All (λ j. is_eligible db j ≡ ok true) picked
  pub full :
      d.reserved_for ≡ none
      → All
          (λ j. is_eligible db j ≡ ok true → IsIn picked j ⊎ (fits d.remaining j.request ≡ false))
          candidates

decide_ready-Decided :
    (config : SchedulerConfig) (db : RunDb) (candidates : List SchedulableJob)
    (available : ResourceCapacity) (now : ℤ) {d : SchedulerDecision}
    → first_duplicate [] candidates ≡ none
    → decide_ready config db candidates available now ≡ ok d
    → Decided config db candidates available d
unfolding decide_ready
decide_ready-Decided config db candidates available now {d} distinct_ids h =
    let (eligible, ran, placed) =
      >>=-eq-ok (eligible_of db candidates)
        (λ es. place config (clamp config available) (sort_by compare_age es) now) h in
    let k = eligible_of-Kept db candidates ran in
    let (e, is, p) =
      place-Placed config (clamp config available) (sort_by compare_age eligible) now in
    let same : e ≡ d = ok-injective (sym is ∙ placed) in
    let q = subst (Placed (clamp config available) (sort_by compare_age eligible)) same p in
    record {
      picked = q.picked;
      named = q.named;
      granted = q.granted;
      once = λ id. omega (
        arith,
        q.counts id,
        tally-sort_by compare_age (λ j. str_eq id j.job_id) eligible,
        k.counts id,
        (distinct [] candidates id distinct_ids).0,
      );
      runnable = q.keeps _ (sort_by-All compare_age _ eligible k.eligible_now);
      full = λ free. k.covers _ (All-of_sort_by compare_age _ eligible (q.full free));
    }

-- A returned decision selects only ready candidates with verified predecessors, none twice, by
-- reservations taken one after the other from the clamped capacity, and leaves no eligible
-- candidate that still fits unless the machine is held for one.
pub decide-Decided :
    (config : SchedulerConfig) (db : RunDb) (candidates : List SchedulableJob)
    (available : ResourceCapacity) (now_ms : ℕ) (now : ℤ) {db' : RunDb} {d : SchedulerDecision}
    → decide config db candidates available now_ms now ≡ (db', ok d)
    → Decided config db' candidates available d
unfolding decide
decide-Decided config db candidates available now_ms now {db'} {d} h =
    elim (Option-cases (first_duplicate [] candidates)) [
      | inr (id, is) ↦ absurd (ground (arith, h, is))
      | inl is ↦ elim (Result-cases (refresh_readiness db now_ms)) [
        | inr (e, failed) ↦ absurd (ground (arith, h, is, failed))
        | inl (out, refreshed) ↦
            let eq : (out.0, decide_ready config out.0 candidates available now) ≡ (db', ok d) =
              rw (is, decide, refreshed) at h in
            subst (λ x. Decided config x candidates available d) (ap (λ x. x.0) eq)
              (decide_ready-Decided config out.0 candidates available now is (ap (λ x. x.1) eq))
      ]
    ]
