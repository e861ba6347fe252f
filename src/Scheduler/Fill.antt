-- ===== src/Scheduler/Fill.antt =====
-- What the loop of the scheduler takes: a sequence of reservations, which ends when nothing fits.
use zk_ie.Common.{
  ℕ, zero, suc, ◌+◌, ◌≡◌, refl, inl, inr, false, some, List, [], ◌∷◌, arith, All, get_elem?, length,
  Option-cases, ok, String, ◌<◌, subst, sym, tally,
}
use zk_ie.Common.Text.{str_eq}
use zk_ie.Resource.{ResourceRequest, ResourceCapacity, fits, checked_reserve}
use zk_ie.Resource.Laws.{IsWithin, checked_reserve-Reserved, checked_reserve_of_fits}
use zk_ie.Scheduler.{SchedulableJob, best_fit, remove_at, fill}
use zk_ie.Scheduler.Fit.{best_fit_lem, best_fit-none}

-- Reservations one after the other, from `c` down to `rest`.
abbrev pub Granted : ResourceCapacity → List SchedulableJob → ResourceCapacity → Type 0
Granted c [] rest = c ≡ rest
Granted c (j ∷ js) rest =
    (mid : ResourceCapacity) × (checked_reserve c j.request ≡ some mid) × Granted mid js rest

abbrev pub total : (ResourceRequest → ℕ) → List SchedulableJob → ℕ
total f [] = 0
total f (j ∷ js) = f j.request + total f js

-- How many of them have the id.
abbrev pub count : String → List SchedulableJob → ℕ
count id js = tally (λ j. str_eq id j.job_id) js

abbrev pub ids : List SchedulableJob → List String
ids [] = []
ids (j ∷ js) = j.job_id ∷ ids js

-- Along any sequence of reservations the cores, the bytes and the devices taken and left add up
-- to what there was.
pub Granted-conserves :
    (c : ResourceCapacity) (js : List SchedulableJob) (rest : ResourceCapacity)
    → Granted c js rest
    → (total (λ r. r.cpu_cores) js + rest.cpu_cores ≡ c.cpu_cores)
      × (total (λ r. r.ram_bytes) js + rest.ram_bytes ≡ c.ram_bytes)
      × (total (λ r. r.gpu_count) js + rest.gpu_count ≡ c.gpu_count)
Granted-conserves c [] rest g = ground arith
Granted-conserves c (j ∷ js) rest (mid, is, g) =
    let r = checked_reserve-Reserved c j.request is in
    ground (arith, Granted-conserves mid js rest g)

-- Every one of them fits what there was.
pub Granted-fits :
    (c : ResourceCapacity) (js : List SchedulableJob) (rest : ResourceCapacity)
    → Granted c js rest
    → All (λ j. IsWithin j.request c) js
Granted-fits c js rest g = go c js rest g c (λ r w. w)
  where
    go :
        (c : ResourceCapacity) (js : List SchedulableJob) (rest : ResourceCapacity)
        → Granted c js rest
        → (d : ResourceCapacity) → ((r : ResourceRequest) → IsWithin r c → IsWithin r d)
        → All (λ j. IsWithin j.request d) js
    go c [] rest g d k = tt
    go c (j ∷ js) rest (mid, is, g) d k =
        let r = checked_reserve-Reserved c j.request is in
        (k j.request r.within, go mid js rest g d (λ s w. k s (ground arith)))

-- The loop's result in terms of the candidates it took and left.
pub record Filled (c : ResourceCapacity) (eligible : List SchedulableJob) (selected : List String)
    (rest : ResourceCapacity) : Type 1 where
  pub picked : List SchedulableJob
  pub left : List SchedulableJob
  pub named : selected ≡ ids picked
  pub granted : Granted c picked rest
  pub counts : (id : String) → count id picked + count id left ≡ count id eligible
  pub keeps : (P : SchedulableJob → Type 0) → All P eligible → All P picked × All P left
  pub covers : (P : SchedulableJob → Type 0) → All P picked → All P left → All P eligible
  pub full : All (λ j. fits rest j.request ≡ false) left

-- What taking the candidate at an index takes.
record Removed (eligible : List SchedulableJob) (i : ℕ) (best : SchedulableJob) : Type 1 where
  counts : (id : String) → count id (best ∷ remove_at i eligible) ≡ count id eligible
  shorter : suc (length (remove_at i eligible)) ≡ length eligible
  keeps : (P : SchedulableJob → Type 0) → All P eligible → P best × All P (remove_at i eligible)
  covers : (P : SchedulableJob → Type 0) → P best → All P (remove_at i eligible) → All P eligible

remove_at-Removed :
    (eligible : List SchedulableJob) (i : ℕ) (best : SchedulableJob)
    → get_elem? eligible i ≡ some best
    → Removed eligible i best
remove_at-Removed [] i best h = cc
remove_at-Removed (c ∷ cs) zero best h =
    let is : c ≡ best = ground arith in
    record {
      counts = λ id. ground (arith, is);
      shorter = refl;
      keeps = λ P a. (subst P is a.0, a.1);
      covers = λ P b a. (subst P (sym is) b, a);
    }
remove_at-Removed (c ∷ cs) (suc i) best h =
    let r = remove_at-Removed cs i best h in
    record {
      counts = λ id. ground (arith, r.counts id);
      shorter = omega (arith, r.shorter);
      keeps = λ P a. let (b, rest) = r.keeps P a.1 in (b, (a.0, rest));
      covers = λ P b a. (a.0, r.covers P b a.1);
    }

abbrev Fills : ℕ → ResourceCapacity → List SchedulableJob → Type 1
Fills fuel c eligible =
    (selected : List String) × (rest : ResourceCapacity) × (fill fuel c eligible
      ≡ ok (selected, rest))
    × Filled c eligible selected rest

-- With more turns than candidates the best-fit loop ends with a result: what it selects are
-- reservations in order, selected and left are together the candidates, and nothing left fits.
pub fill-Filled :
    (fuel : ℕ) (c : ResourceCapacity) (eligible : List SchedulableJob)
    → length eligible < fuel
    → (selected : List String) × (rest : ResourceCapacity) × (fill fuel c eligible
        ≡ ok (selected, rest))
      × Filled c eligible selected rest
unfolding fill
fill-Filled zero c eligible h = absurd (omega arith)
fill-Filled (suc fuel) c eligible h = elim (Option-cases (best_fit c eligible)) [
  | inl is ↦ (
    [],
    c,
    rw (is, fill) refl,
    record {
      picked = [];
      left = eligible;
      named = refl;
      granted = refl;
      counts = λ id. ground arith;
      keeps = λ P a. (tt, a);
      covers = λ P p l. l;
      full = best_fit-none c eligible is;
    },
  )
  | inr ((i, best), is) ↦
      let (at, fit, _) = best_fit_lem c eligible is in
      let (mid, reserved) = checked_reserve_of_fits c best.request fit in
      let removed = remove_at-Removed eligible i best at in
      let (selected, rest, ran, f) =
        fill-Filled fuel mid (remove_at i eligible) (omega (arith, removed.shorter)) in
      (
        best.job_id ∷ selected,
        rest,
        rw (is, fill) (rw reserved (rw ran refl)),
        record {
          picked = best ∷ f.picked;
          left = f.left;
          named = rw (f.named) refl;
          granted = (mid, reserved, f.granted);
          counts = λ id. ground (arith, f.counts id, removed.counts id);
          keeps = λ P a.
              let (b, others) = removed.keeps P a in let (p, l) = f.keeps P others in ((b, p), l);
          covers = λ P p l. removed.covers P p.0 (f.covers P p.1 l);
          full = f.full;
        },
      )
]
