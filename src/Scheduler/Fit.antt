-- ===== src/Scheduler/Fit.antt =====
-- The fit score stays in its width, and the best candidate is a least one in a total order.
use zk_ie.Common.{
  ℕ, suc, ◌+◌, ◌-◌, ◌*◌, ◌≤◌, ◌≡◌, ◌≢◌, ◌⊎◌, inl, inr, Ordering, true, false, Option, none, some,
  List, [], ◌∷◌, arith, All, get_elem?, Bool-cases, ◌&&◌, and-eq-true,
}
use native.Mathlib.Nat.{div-le_of_le-mul}
use zk_ie.Common.Text.{codes, cmp_codes_trans, cmp_codes_refl, cmp_codes-gt}
use zk_ie.Resource.{ResourceRequest, ResourceCapacity, fits}
use zk_ie.Resource.Laws.{fits_iff}
use zk_ie.Scheduler.{
  SchedulableJob, scale, normalized_leftover, fit_score, compare_fit, best_from, best_fit, is_gt,
}

normalized_leftover-le :
    (left capacity : ℕ) → left ≤ capacity → normalized_leftover left capacity ≤ scale
unfolding normalized_leftover
normalized_leftover-le left capacity h =
    ground (arith, div-le_of_le-mul capacity {m = left * scale} {n = scale} (omega arith))

-- The fit score of a request that fits is at most four times the scale.
pub fit_score-le :
    (r : ResourceRequest) (c : ResourceCapacity) → fits c r ≡ true → fit_score r c ≤ 4 * scale
unfolding fit_score
fit_score-le r c h =
    let w = (fits_iff c r).0 h in
    ground (
      arith,
      normalized_leftover-le (c.ram_bytes - r.ram_bytes) c.ram_bytes (omega arith),
      normalized_leftover-le (c.cpu_cores - r.cpu_cores) c.cpu_cores (omega arith),
      normalized_leftover-le (c.gpu_count - r.gpu_count) c.gpu_count (omega arith),
      normalized_leftover-le (c.gpu_vram_bytes_per_device - r.gpu_vram_bytes_per_device)
          c.gpu_vram_bytes_per_device (omega arith),
    )

module _ (available : ResourceCapacity) where
  -- `a` does not stand above `b`.
  abbrev pub LeFit : SchedulableJob → SchedulableJob → Type 0
  LeFit a b = compare_fit available a b ≢ Ordering.gt

  LeFit-refl : (a : SchedulableJob) → LeFit a a
  unfolding compare_fit
  LeFit-refl a = ground (arith, cmp_codes_refl (codes a.job_id))

  LeFit-trans : (a b c : SchedulableJob) → LeFit a b → LeFit b c → LeFit a c
  unfolding compare_fit
  LeFit-trans a b c h k =
      ground (arith, cmp_codes_trans (codes a.job_id) (codes b.job_id) (codes c.job_id))

  LeFit-of_gt : (a b : SchedulableJob) → compare_fit available a b ≡ Ordering.gt → LeFit b a
  unfolding compare_fit
  LeFit-of_gt a b h = ground (arith, cmp_codes-gt (codes a.job_id) (codes b.job_id))

  -- The best one so far, where there is one, and the candidates that fit are not before `b`.
  abbrev Least : SchedulableJob → Option (ℕ × SchedulableJob) → List SchedulableJob → Type 0
  Least b none cs = All (λ d. fits available d.request ≡ true → LeFit b d) cs
  Least b (some a) cs = LeFit b a.1 × All (λ d. fits available d.request ≡ true → LeFit b d) cs

  -- The candidate at an index, counted from `i`, and it fits.
  abbrev Stands : List SchedulableJob → ℕ → ℕ × SchedulableJob → Type 0
  Stands cs i out =
      (j : ℕ) × (out.0 ≡ i + j)
      × (get_elem? cs j ≡ some out.1)
      × (fits available out.1.request ≡ true)

  -- The result stands in the list or was the best before, and is a least one.
  abbrev Found : List SchedulableJob → ℕ → Option (ℕ × SchedulableJob) → ℕ × SchedulableJob → Type 0
  Found cs i best out = ((best ≡ some out) ⊎ Stands cs i out) × Least out.1 best cs

  Stands-later :
      (c : SchedulableJob) (cs : List SchedulableJob) (i : ℕ) (out : ℕ × SchedulableJob)
      → Stands cs (suc i) out
      → Stands (c ∷ cs) i out
  Stands-later c cs i out (j, at, is, f) = (suc j, omega arith, is, f)

  Stands-now :
      (c : SchedulableJob) (cs : List SchedulableJob) (i : ℕ) (out : ℕ × SchedulableJob)
      → fits available c.request ≡ true
      → (◌≡◌ {A = Option (ℕ × SchedulableJob)} (some (i, c)) (some out)) ⊎ Stands cs (suc i) out
      → Stands (c ∷ cs) i out
  Stands-now c cs i out f (inl is) = (0, ground arith, ground arith, ground arith)
  Stands-now c cs i out f (inr later) = Stands-later c cs i out later

  Stands-not_none :
      (cs : List SchedulableJob) (i : ℕ) (out : ℕ × SchedulableJob)
      → (◌≡◌ {A = Option (ℕ × SchedulableJob)} none (some out)) ⊎ Stands cs i out
      → Stands cs i out
  Stands-not_none cs i out (inl e) = cc
  Stands-not_none cs i out (inr later) = later

  Stands-past :
      (c : SchedulableJob) (cs : List SchedulableJob) (i : ℕ) (out : ℕ × SchedulableJob)
      {best : Option (ℕ × SchedulableJob)}
      → (best ≡ some out) ⊎ Stands cs (suc i) out
      → (best ≡ some out) ⊎ Stands (c ∷ cs) i out
  Stands-past c cs i out (inl is) = inl is
  Stands-past c cs i out (inr later) = inr (Stands-later c cs i out later)

  is_gt-eq : {o : Ordering} → is_gt o ≡ true → o ≡ Ordering.gt
  is_gt-eq {o} h = ground arith

  best_from-Found :
      (cs : List SchedulableJob) (i : ℕ) (best : Option (ℕ × SchedulableJob))
      {out : ℕ × SchedulableJob}
      → best_from available cs i best ≡ some out
      → Found cs i best out
  unfolding best_from
  best_from-Found [] i none h = ground arith
  best_from-Found [] i (some a) h = (inl h, (ground (arith, LeFit-refl a.1), tt))
  best_from-Found (c ∷ cs) i none {out} h = elim (Bool-cases (fits available c.request)) [
    | inl in_ ↦
        let found = best_from-Found cs (suc i) (some (i, c)) {out = out} (ground arith) in
        (inr (Stands-now c cs i out in_ found.0), (λ _. found.1.0, found.1.1))
    | inr out_ ↦
        let found = best_from-Found cs (suc i) none {out = out} (ground arith) in
        (
          inr (Stands-later c cs i out (Stands-not_none cs (suc i) out found.0)),
          (λ f. absurd (ground (arith, f, out_)), found.1),
        )
  ]
  best_from-Found (c ∷ cs) i (some a) {out} h =
      elim (Bool-cases (fits available c.request && is_gt (compare_fit available a.1 c))) [
        | inl moved ↦
            let (f, above) =
              and-eq-true (fits available c.request) (is_gt (compare_fit available a.1 c)) moved in
            let found = best_from-Found cs (suc i) (some (i, c)) {out = out} (ground arith) in
            (
              inr (Stands-now c cs i out f found.0),
              (
                LeFit-trans out.1 c a.1 found.1.0 (LeFit-of_gt a.1 c (is_gt-eq above)),
                ((λ _. found.1.0), found.1.1),
              ),
            )
        | inr kept ↦
            let found = best_from-Found cs (suc i) (some a) {out = out} (ground arith) in
            (
              Stands-past c cs i out found.0,
              (
                found.1.0,
                (
                  (λ f. LeFit-trans out.1 a.1 c found.1.0 (λ g. ground (arith, f, g, kept))),
                  found.1.1,
                ),
              ),
            )
      ]

  -- The candidate that the loop picks stands at its index, fits, and no candidate that fits comes
  -- before it in the order by fit score, age and id.
  pub best_fit_lem :
      (cs : List SchedulableJob) {out : ℕ × SchedulableJob}
      → best_fit available cs ≡ some out
      → (get_elem? cs out.0 ≡ some out.1)
        × (fits available out.1.request ≡ true)
        × All (λ d. fits available d.request ≡ true → LeFit out.1 d) cs
  best_fit_lem cs {out} h =
      let found = best_from-Found cs 0 none {out = out} h in
      let (j, at, is, f) = Stands-not_none cs 0 out found.0 in
      let same : out.0 ≡ j = omega (arith, at) in (rw same is, f, found.1)

  best_from-some :
      (cs : List SchedulableJob) (i : ℕ) (a : ℕ × SchedulableJob)
      → best_from available cs i (some a) ≢ none
  unfolding best_from
  best_from-some [] i a h = cc
  best_from-some (c ∷ cs) i a h =
      ground (arith, best_from-some cs (suc i) a, best_from-some cs (suc i) (i, c))

  best_from-none :
      (cs : List SchedulableJob) (i : ℕ)
      → best_from available cs i none ≡ none
      → All (λ d. fits available d.request ≡ false) cs
  unfolding best_from
  best_from-none [] i h = tt
  best_from-none (c ∷ cs) i h = (
    ground (arith, best_from-some cs (suc i) (i, c)),
    best_from-none cs (suc i) (ground (arith, best_from-some cs (suc i) (i, c))),
  )

  -- There is no best candidate only where no candidate fits.
  pub best_fit-none :
      (cs : List SchedulableJob)
      → best_fit available cs ≡ none
      → All (λ d. fits available d.request ≡ false) cs
  best_fit-none cs h = best_from-none cs 0 h
