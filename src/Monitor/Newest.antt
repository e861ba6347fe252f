-- ===== src/Monitor/Newest.antt =====
-- Which attempt `newest_attempt` picks.
use zk_ie.Common.{
  ◌≡◌, refl, ◌≢◌, ◌⊎◌, inl, inr, none, some, List, [], ◌∷◌, arith, All, Any, subst, ◌↔◌, Ordering,
}
use zk_ie.Common.Int.{◌≤ℤ◌}
use zk_ie.Common.Text.{LeStr, LeStr-trans, LeStr-refl, LeStr-of_gt}
use zk_ie.Monitor.{RunningAttempt, cmp_attempt, max_from, newest_attempt}

-- `x` started no later than `best`, and stands no later in the order of names if they started
-- together.
pub record IsNotAfter (best x : RunningAttempt) : Type 0 where
  pub start : x.started_at_unix_ms ≤ℤ best.started_at_unix_ms
  pub name : best.started_at_unix_ms ≤ℤ x.started_at_unix_ms → LeStr x.attempt best.attempt

IsNotAfter-refl : (x : RunningAttempt) → IsNotAfter x x
IsNotAfter-refl x = record { start = omega arith; name = λ _. LeStr-refl x.attempt }

IsNotAfter-trans : (a b c : RunningAttempt) → IsNotAfter a b → IsNotAfter b c → IsNotAfter a c
IsNotAfter-trans a b c h k = record {
  start = omega arith;
  name =
      λ le. LeStr-trans c.attempt b.attempt a.attempt (k.name (omega arith)) (h.name (omega arith));
}

abbrev better : RunningAttempt → RunningAttempt → RunningAttempt
better best x = elim (cmp_attempt best x) [ Ordering.gt ↦ best | _ ↦ x ]

cmp_attempt_gt : (best x : RunningAttempt) → cmp_attempt best x ≡ Ordering.gt → IsNotAfter best x
unfolding cmp_attempt
cmp_attempt_gt best x h = record {
  start = ground arith;
  name = λ le. LeStr-of_gt best.attempt x.attempt (ground arith);
}

cmp_attempt_not_gt :
    (best x : RunningAttempt) → cmp_attempt best x ≢ Ordering.gt → IsNotAfter x best
unfolding cmp_attempt
cmp_attempt_not_gt best x h = record { start = ground arith; name = λ le. ground arith }

better_bounds :
    (best x : RunningAttempt) → IsNotAfter (better best x) best × IsNotAfter (better best x) x
better_bounds best x = go (cmp_attempt best x) refl
  where
    go :
        (o : Ordering)
        → cmp_attempt best x ≡ o
        → IsNotAfter (elim o [ Ordering.gt ↦ best | _ ↦ x ]) best
          × IsNotAfter (elim o [ Ordering.gt ↦ best | _ ↦ x ]) x
    go Ordering.gt e = (IsNotAfter-refl best, cmp_attempt_gt best x e)
    go Ordering.lt e = (cmp_attempt_not_gt best x (λ g. cc), IsNotAfter-refl x)
    go Ordering.eq e = (cmp_attempt_not_gt best x (λ g. cc), IsNotAfter-refl x)

better_or : (best x : RunningAttempt) → (better best x ≡ best) ⊎ (better best x ≡ x)
better_or best x = ground arith

max_from_bounds :
    (best : RunningAttempt) (xs : List RunningAttempt)
    → IsNotAfter (max_from best xs) best × All (IsNotAfter (max_from best xs)) xs
unfolding max_from
max_from_bounds best [] = (IsNotAfter-refl best, tt)
max_from_bounds best (x ∷ xs) =
    let (le, all_le) = max_from_bounds (better best x) xs in
    let (first, second) = better_bounds best x in
    let trans =
      λ (y : RunningAttempt). IsNotAfter-trans (max_from (better best x) xs) (better best x) y le in
    (trans best first, (trans x second, all_le))

max_from-Any :
    (best : RunningAttempt) (xs : List RunningAttempt) → Any (λ y. y ≡ max_from best xs) (best ∷ xs)
unfolding max_from
max_from-Any best [] = inl refl
max_from-Any best (x ∷ xs) = elim (max_from-Any (better best x) xs) [
  | inl e ↦ elim (better_or best x) [ inl old ↦ inl (cc) | inr new ↦ inr (inl (cc)) ]
  | inr later ↦ inr (inr later)
]

-- The attempt to end is a running one that no running attempt is newer than, by start and then by
-- id.
pub newest_attempt_lem :
    (xs : List RunningAttempt) {best : RunningAttempt}
    → newest_attempt xs ≡ some best
    → Any (λ y. y ≡ best) xs × All (IsNotAfter best) xs
unfolding newest_attempt
newest_attempt_lem [] h = cc
newest_attempt_lem (x ∷ xs) {best} h =
    let e : max_from x xs ≡ best = cc in
    subst (λ b. Any (λ y. y ≡ b) (x ∷ xs) × All (IsNotAfter b) (x ∷ xs)) e
      (max_from-Any x xs, max_from_bounds x xs)

-- There is one to end whenever anything runs.
pub newest_attempt-none_iff : (xs : List RunningAttempt) → (newest_attempt xs ≡ none) ↔ (xs ≡ [])
unfolding newest_attempt
newest_attempt-none_iff [] = (λ _. refl, λ _. refl)
newest_attempt-none_iff (x ∷ xs) = (λ h. cc, λ h. cc)
