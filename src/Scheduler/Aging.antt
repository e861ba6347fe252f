-- ===== src/Scheduler/Aging.antt =====
-- `decide`: the oldest job that has aged goes first, or the machine waits for it.
use zk_ie.Common.{
  ℕ, zero, suc, ◌≡◌, ◌≢◌, ◌⊎◌, inl, inr, Ordering, Bool, true, false, none, some, List, [], ◌∷◌,
  arith, All, All-map_of, Option-cases, Bool-cases, Result-cases, ok, String, >>=-eq-ok, find,
  get_elem?, subst, ap,
}
use zk_ie.Common.Int.{ℤ}
use zk_ie.Common.Sort.{
  IsSorted, sort_by-IsSorted, sort_by, sort_by-All, All-of_sort_by, tally-sort_by,
}
use zk_ie.Common.Text.{str_eq, codes, cmp_codes_trans, cmp_codes-gt, cmp_codes_refl}
use zk_ie.Resource.{ResourceCapacity, fits}
use zk_ie.Db.Tables.{RunDb}
use zk_ie.Db.Readiness.{refresh_readiness}
use zk_ie.Scheduler.{
  SchedulerConfig, SchedulableJob, SchedulerDecision, compare_age, first_duplicate, clamp,
  is_eligible, eligible_of, is_aged, place, decide_ready, decide,
}
use zk_ie.Scheduler.Place.{IsIn, IsIn-self, find-keeps, place_aged_lem}
use zk_ie.Scheduler.Decide.{eligible_of-Kept}

-- `a` has waited as long as `b`, or longer; among equals the ids decide.
abbrev pub LeAge : SchedulableJob → SchedulableJob → Type 0
LeAge a b = compare_age a b ≢ Ordering.gt

LeAge-refl : (a : SchedulableJob) → LeAge a a
LeAge-refl a = ground (arith, cmp_codes_refl (codes a.job_id))

LeAge-trans : (a b c : SchedulableJob) → LeAge a b → LeAge b c → LeAge a c
LeAge-trans a b c h k =
    ground (arith, cmp_codes_trans (codes a.job_id) (codes b.job_id) (codes c.job_id))

LeAge-of_gt : (a b : SchedulableJob) → compare_age a b ≡ Ordering.gt → LeAge b a
LeAge-of_gt a b h = ground (arith, cmp_codes-gt (codes a.job_id) (codes b.job_id))

-- What is found first in a sorted list is the oldest one that passes the test.
find-oldest :
    (p : SchedulableJob → Bool) (js : List SchedulableJob) {a : SchedulableJob}
    → IsSorted compare_age LeAge-trans LeAge-of_gt js
    → find p js ≡ some a
    → All (λ c. p c ≡ true → LeAge a c) js
find-oldest p [] s h = tt
find-oldest p (j ∷ js) {a} s h = elim (Bool-cases (p j)) [
  | inl hit ↦
      let is : j ≡ a = ground (arith, h, hit) in
      subst (λ (x : SchedulableJob). All (λ c. p c ≡ true → LeAge x c) (j ∷ js)) is
        ((λ _. LeAge-refl j), All-map_of _ _ js (λ c k _. k) s.0)
  | inr miss ↦ ((λ hit. absurd (ground (arith, hit, miss))), find-oldest p js s.1 (rw miss at h))
]

find-none :
    (p : SchedulableJob → Bool) (js : List SchedulableJob)
    → find p js ≡ none
    → All (λ c. p c ≡ false) js
find-none p [] h = tt
find-none p (j ∷ js) h = ground (arith, find-none p js)

All-at :
    (P : SchedulableJob → Type 0) (js : List SchedulableJob) (i : ℕ) {c : SchedulableJob}
    → All P js
    → get_elem? js i ≡ some c
    → P c
All-at P [] i a h = cc
All-at P (j ∷ js) zero {c} a h = let is : j ≡ c = ground (arith, h) in subst P is a.0
All-at P (j ∷ js) (suc i) a h = All-at P js i a.1 h

-- An aged candidate is served: the one that goes first, or that the machine is held for, is a ready
-- candidate that has aged too and is not younger. It is held for only where it does not fit what is
-- available, and nothing else starts then.
pub record IsServed (config : SchedulerConfig) (db : RunDb) (candidates : List SchedulableJob)
    (available : ResourceCapacity) (now : ℤ) (d : SchedulerDecision) (c : SchedulableJob)
    : Type 0 where
  pub first : SchedulableJob
  pub listed : IsIn candidates first
  pub ready : is_eligible db first ≡ ok true
  pub aged : is_aged config now first ≡ true
  pub older : LeAge first c
  pub served :
      (fits (clamp config available) first.request ≡ true
        × ((rest : List String) × (d.selected ≡ first.job_id ∷ rest))
        × (d.reserved_for ≡ none))
      ⊎ (fits (clamp config available) first.request ≡ false
          × (d.selected ≡ [])
          × (d.remaining ≡ clamp config available)
          × (d.reserved_for ≡ some first.job_id))

find-passes :
    (p : SchedulableJob → Bool) (js : List SchedulableJob) {a : SchedulableJob}
    → find p js ≡ some a
    → p a ≡ true
find-passes p [] h = cc
find-passes p (j ∷ js) {a} h = elim (Bool-cases (p j)) [
  | inl hit ↦ let is : j ≡ a = ground (arith, h, hit) in subst (λ x. p x ≡ true) is hit
  | inr miss ↦ find-passes p js (rw miss at h)
]

decide_ready-IsServed :
    (config : SchedulerConfig) (db : RunDb) (candidates : List SchedulableJob)
    (available : ResourceCapacity) (now : ℤ) {d : SchedulerDecision}
    → decide_ready config db candidates available now ≡ ok d
    → All
        (λ c.
          is_eligible db c ≡ ok true
          → is_aged config now c ≡ true
          → IsServed config db candidates available now d c)
        candidates
unfolding decide_ready
decide_ready-IsServed config db candidates available now {d} h =
    let (eligible, ran, placed) =
      >>=-eq-ok (eligible_of db candidates)
        (λ es. place config (clamp config available) (sort_by compare_age es) now) h in
    let k = eligible_of-Kept db candidates ran in
    let sorted = sort_by compare_age eligible in
    let test = is_aged config now in
    let each : All (λ c. test c ≡ true → IsServed config db candidates available now d c) sorted =
      elim (Option-cases (find test sorted)) [
        | inl nothing ↦
            All-map_of _ _ sorted (λ c off on. absurd (ground (arith, off, on)))
              (find-none test sorted nothing)
        | inr (a, is) ↦
            let in_sorted : IsIn sorted a = find-keeps _ test sorted is (IsIn-self sorted) in
            let served = place_aged_lem config (clamp config available) sorted now is placed in
            All-map_of _ _ sorted
              (λ c le on. record {
                first = a;
                listed = omega (
                  arith,
                  in_sorted,
                  tally-sort_by compare_age (λ j. str_eq a.job_id j.job_id) eligible,
                  k.counts a.job_id,
                );
                ready =
                    find-keeps _ test sorted is (sort_by-All compare_age _ eligible k.eligible_now);
                aged = find-passes test sorted is;
                older = le on;
                served = served;
              })
              (find-oldest test sorted
                (sort_by-IsSorted compare_age LeAge-trans LeAge-of_gt eligible) is)
      ] in
    k.covers _ (All-of_sort_by compare_age _ eligible each)

-- Where a decision is returned and a ready candidate with verified predecessors could run on the
-- whole machine and has waited for the aging time, the first job that the decision selects is
-- such a candidate that is not younger, or nothing is selected and the machine is held for such a
-- candidate, which does not fit the clamped capacity.
pub decide-IsServed :
    (config : SchedulerConfig) (db : RunDb) (candidates : List SchedulableJob)
    (available : ResourceCapacity) (now_ms : ℕ) (now : ℤ) {db' : RunDb} {d : SchedulerDecision}
    (i : ℕ) {c : SchedulableJob}
    → decide config db candidates available now_ms now ≡ (db', ok d)
    → get_elem? candidates i ≡ some c
    → is_eligible db' c ≡ ok true
    → is_aged config now c ≡ true
    → IsServed config db' candidates available now d c
unfolding decide
decide-IsServed config db candidates available now_ms now {db'} {d} i {c} h at ready aged =
    elim (Option-cases (first_duplicate [] candidates)) [
      | inr (id, is) ↦ absurd (ground (arith, h, is))
      | inl is ↦ elim (Result-cases (refresh_readiness db now_ms)) [
        | inr (e, failed) ↦ absurd (ground (arith, h, is, failed))
        | inl (out, refreshed) ↦
            let eq : (out.0, decide_ready config out.0 candidates available now) ≡ (db', ok d) =
              rw (is, decide, refreshed) at h in
            let same = ap (λ x. x.0) eq in
            All-at _ candidates i
              (subst
                (λ (x : RunDb).
                  All
                    (λ c.
                      is_eligible x c ≡ ok true
                      → is_aged config now c ≡ true
                      → IsServed config x candidates available now d c)
                    candidates)
                same
                (decide_ready-IsServed config out.0 candidates available now (ap (λ x. x.1) eq)))
              at ready aged
      ]
    ]
