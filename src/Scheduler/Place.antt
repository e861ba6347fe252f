-- ===== src/Scheduler/Place.antt =====
-- `place`: the part of `decide` that selects among the eligible candidates.
use zk_ie.Common.{
  suc, ◌≤◌, ◌<◌, ◌≡◌, refl, ◌⊎◌, inl, inr, Bool, true, false, none, some, not, List, [], ◌∷◌, arith,
  All, All-map_of, length, Bool-cases, Option-cases, if◌then◌else◌, Result, ok, Result-cases,
  String, retain, find, subst,
}
use zk_ie.Common.Int.{ℤ}
use zk_ie.Common.Text.{str_eq, eq_iff}
use zk_ie.Resource.{ResourceCapacity, fits, checked_reserve}
use zk_ie.Resource.Laws.{checked_reserve_of_fits}
use zk_ie.Scheduler.{
  SchedulerConfig, SchedulableJob, SchedulerDecision, SchedulerError, fill, is_aged, place,
  decision,
}
use zk_ie.Scheduler.Fill.{Granted, count, ids, Filled, fill-Filled}

-- Some job of the list has the job's id.
abbrev pub IsIn : List SchedulableJob → SchedulableJob → Type 0
IsIn js j = 0 < count j.job_id js

pub IsIn-self : (js : List SchedulableJob) → All (IsIn js) js
IsIn-self [] = tt
IsIn-self (j ∷ js) = (
  ground (arith, eq_iff j.job_id j.job_id),
  All-map_of (IsIn js) (IsIn (j ∷ js)) js (λ k h. ground arith) (IsIn-self js),
)

-- A placement of the eligible candidates on what is available.
pub record Placed (available : ResourceCapacity) (eligible : List SchedulableJob)
    (d : SchedulerDecision) : Type 1 where
  pub picked : List SchedulableJob
  pub named : d.selected ≡ ids picked
  pub granted : Granted available picked d.remaining
  pub counts : (id : String) → count id picked ≤ count id eligible
  pub keeps : (P : SchedulableJob → Type 0) → All P eligible → All P picked
  pub full :
      d.reserved_for ≡ none
      → All (λ j. IsIn picked j ⊎ (fits d.remaining j.request ≡ false)) eligible

of_fill :
    {c : ResourceCapacity} {eligible : List SchedulableJob} {selected : List String}
    {rest : ResourceCapacity}
    → Filled c eligible selected rest
    → Placed c eligible (record { selected = selected; remaining = rest; reserved_for = none })
of_fill {eligible = eligible} {rest = rest} f = record {
  picked = f.picked;
  named = f.named;
  granted = f.granted;
  counts = λ id. omega (arith, f.counts id);
  keeps = λ P a. (f.keeps P a).0;
  full = λ _.
      f.covers (λ j. IsIn f.picked j ⊎ (fits rest j.request ≡ false))
        (All-map_of _ _ f.picked (λ j h. inl h) (IsIn-self f.picked))
        (All-map_of _ _ f.left (λ j h. inr h) f.full);
}

abbrev others : SchedulableJob → List SchedulableJob → List SchedulableJob
others aged js = retain (λ c. not (str_eq c.job_id aged.job_id)) js

others-count :
    (aged : SchedulableJob) (js : List SchedulableJob) (id : String)
    → count id (others aged js) ≡ (if str_eq id aged.job_id then 0 else count id js)
others-count aged [] id = ground arith
others-count aged (j ∷ js) id = ground (
  arith,
  others-count aged js id,
  eq_iff id aged.job_id,
  eq_iff j.job_id aged.job_id,
  eq_iff id j.job_id,
)

others-keeps :
    (P : SchedulableJob → Type 0) (aged : SchedulableJob) (js : List SchedulableJob)
    → All P js
    → All P (others aged js)
others-keeps P aged [] a = tt
others-keeps P aged (j ∷ js) a =
    let rest = others-keeps P aged js a.1 in
    elim (Bool-cases (str_eq j.job_id aged.job_id)) [
      | inl same ↦ rw same rest
      | inr other ↦ rw other (a.0, rest)
    ]

others-covers :
    (P : SchedulableJob → Type 0) (aged : SchedulableJob) (js : List SchedulableJob)
    → ((j : SchedulableJob) → str_eq j.job_id aged.job_id ≡ true → P j)
    → All P (others aged js)
    → All P js
others-covers P aged [] k a = tt
others-covers P aged (j ∷ js) k a = elim (Bool-cases (str_eq j.job_id aged.job_id)) [
  | inl same ↦ (k j same, others-covers P aged js k (rw same at a))
  | inr other ↦
      let b : P j × All P (others aged js) = rw other at a in (b.0, others-covers P aged js k b.1)
]

-- The job that is found stands in the list.
pub find-keeps :
    (P : SchedulableJob → Type 0) (p : SchedulableJob → Bool) (js : List SchedulableJob)
    {j : SchedulableJob}
    → find p js ≡ some j
    → All P js
    → P j
find-keeps P p [] h a = cc
find-keeps P p (k ∷ js) {j} h a = elim (Bool-cases (p k)) [
  | inl hit ↦ let is : k ≡ j = ground (arith, h, hit) in subst P is a.0
  | inr miss ↦ find-keeps P p js (rw miss at h) a.1
]

abbrev Places :
    ResourceCapacity → List SchedulableJob → Result SchedulerError SchedulerDecision → Type 1
Places available eligible r = (d : SchedulerDecision) × (r ≡ ok d) × Placed available eligible d

-- What holds of every eligible candidate holds of it.
abbrev Member : SchedulableJob → List SchedulableJob → Type 1
Member j js = (P : SchedulableJob → Type 0) → All P js → P j

place_aged :
    (available : ResourceCapacity) (eligible : List SchedulableJob) (aged : SchedulableJob)
    (mid : ResourceCapacity)
    → Member aged eligible
    → checked_reserve available aged.request ≡ some mid
    → Places available eligible (
        decision
          (aged.job_id ∷ [])
          (fill (suc (length (others aged eligible))) mid (others aged eligible)))
place_aged available eligible aged mid at reserved =
    let (selected, rest, ran, f) =
      fill-Filled (suc (length (others aged eligible))) mid (others aged eligible) (omega arith) in
    (
      record { selected = aged.job_id ∷ selected; remaining = rest; reserved_for = none },
      rw ran refl,
      record {
        picked = aged ∷ f.picked;
        named = rw (f.named) refl;
        granted = (mid, reserved, f.granted);
        counts = λ id. ground (
          arith,
          f.counts id,
          others-count aged eligible id,
          eq_iff id aged.job_id,
          at (λ j. 0 < count j.job_id eligible) (IsIn-self eligible),
        );
        keeps = λ P a. (at P a, (f.keeps P (others-keeps P aged eligible a)).0);
        full = λ _.
            others-covers _ aged eligible (λ j same. inl (ground (arith, same)))
              (f.covers _
                (All-map_of _ _ f.picked (λ j h. inl (ground (arith, h))) (IsIn-self f.picked))
                (All-map_of _ _ f.left (λ j h. inr h) f.full));
      },
    )

-- A placement always returns a decision: no expect panics, the loop ends, what is selected is
-- taken from the eligible candidates by reservations, and nothing eligible that is left fits
-- unless the machine is held for a job.
pub place-Placed :
    (config : SchedulerConfig) (available : ResourceCapacity) (eligible : List SchedulableJob)
    (now : ℤ)
    → Places available eligible (place config available eligible now)
unfolding place
place-Placed config available eligible now =
    elim (Option-cases (find (is_aged config now) eligible)) [
      | inl is ↦
          let (selected, rest, ran, f) =
            fill-Filled (suc (length eligible)) available eligible (omega arith) in
          (
            record { selected = selected; remaining = rest; reserved_for = none },
            rw (is, place) (rw ran refl),
            of_fill f,
          )
      | inr (aged, is) ↦
          let member : Member aged eligible =
            λ P a. find-keeps P (is_aged config now) eligible is a in
          elim (Bool-cases (fits available aged.request)) [
            | inl fit ↦
                let (mid, reserved) = checked_reserve_of_fits available aged.request fit in
                let (d, ran, placed) = place_aged available eligible aged mid member reserved in
                (d, rw (is, place) (rw fit (rw reserved ran)), placed)
            | inr unfit ↦ (
              record { selected = []; remaining = available; reserved_for = some aged.job_id },
              rw (is, place) (rw unfit refl),
              record {
                picked = [];
                named = refl;
                granted = refl;
                counts = λ id. omega arith;
                keeps = λ P a. tt;
                full = λ h. absurd (ground arith);
              },
            )
          ]
    ]

-- In a placement that is returned, the first candidate that could run on the whole machine and
-- has waited for the aging time is selected first where it fits what is available; otherwise
-- nothing is selected and the machine is held for it.
pub place_aged_lem :
    (config : SchedulerConfig) (available : ResourceCapacity) (eligible : List SchedulableJob)
    (now : ℤ) {aged : SchedulableJob} {d : SchedulerDecision}
    → find (is_aged config now) eligible ≡ some aged
    → place config available eligible now ≡ ok d
    → (fits available aged.request ≡ true
        × ((rest : List String) × (d.selected ≡ aged.job_id ∷ rest))
        × (d.reserved_for ≡ none))
      ⊎ (fits available aged.request ≡ false
          × (d.selected ≡ [])
          × (d.remaining ≡ available)
          × (d.reserved_for ≡ some aged.job_id))
unfolding place
place_aged_lem config available eligible now {aged} {d} is h =
    elim (Bool-cases (fits available aged.request)) [
      | inr unfit ↦
          let r = rw (is, place, unfit) at h in
          inr (unfit, ground (arith, r), ground (arith, r), ground (arith, r))
      | inl fit ↦
          let (mid, reserved) = checked_reserve_of_fits available aged.request fit in
          let rest = others aged eligible in
          elim (Result-cases (fill (suc (length rest)) mid rest)) [
            | inl (out, ran) ↦
                let r = rw (is, place, fit, reserved, ran) at h in
                inl (fit, (out.0, ground (arith, r)), ground (arith, r))
            | inr (e, failed) ↦ absurd (ground (arith, rw (is, place, fit, reserved, failed) at h))
          ]
    ]
