-- ===== src/Common/Sort.antt =====
-- `sort_by` and `ORDER BY`: a stable insertion sort, which keeps the items.
use Prim.Native.Nat.{Ordering}
use mathlib.Core.Bool.{Bool}
use mathlib.Core.List.{List, [], ◌∷◌}
use mathlib.Core.Logic.{◌≢◌}
use mathlib.Core.Path.{◌≡◌, refl}
use native.Mathlib.Omega.{arith}
use zk_ie.Common.Lists.{All, All-map_of, tally}

module _ {A : Type 0} (cmp : A → A → Ordering) where
  unfoldable pub insert_by : A → List A → List A
  insert_by x [] = x ∷ []
  insert_by x (y ∷ ys) =
      let rest = insert_by x ys in elim (cmp x y) [ Ordering.gt ↦ y ∷ rest | _ ↦ x ∷ y ∷ ys ]

  unfoldable pub sort_by : List A → List A
  unfolding insert_by
  sort_by [] = []
  sort_by (x ∷ xs) = insert_by x (sort_by xs)

  insert_by-All : (P : A → Type 0) (x : A) (xs : List A) → P x → All P xs → All P (insert_by x xs)
  unfolding insert_by
  insert_by-All P x [] p a = (p, tt)
  insert_by-All P x (y ∷ ys) p a = place (cmp x y) (insert_by-All P x ys p a.1)
    where
      place :
          (o : Ordering)
          → All P (insert_by x ys)
          → All P (elim o [ Ordering.gt ↦ y ∷ insert_by x ys | _ ↦ x ∷ y ∷ ys ])
      place Ordering.gt rest = (a.0, rest)
      place Ordering.lt rest = (p, a)
      place Ordering.eq rest = (p, a)

  pub sort_by-All : (P : A → Type 0) (xs : List A) → All P xs → All P (sort_by xs)
  unfolding sort_by
  sort_by-All P [] a = tt
  sort_by-All P (x ∷ xs) a = insert_by-All P x (sort_by xs) a.0 (sort_by-All P xs a.1)

  All-of_insert_by :
      (P : A → Type 0) (x : A) (xs : List A) → All P (insert_by x xs) → P x × All P xs
  unfolding insert_by
  All-of_insert_by P x [] a = (a.0, tt)
  All-of_insert_by P x (y ∷ ys) a = place (cmp x y) (All-of_insert_by P x ys) a
    where
      place :
          (o : Ordering)
          → (All P (insert_by x ys) → P x × All P ys)
          → All P (elim o [ Ordering.gt ↦ y ∷ insert_by x ys | _ ↦ x ∷ y ∷ ys ])
          → P x × (P y × All P ys)
      place Ordering.gt rest a = ((rest a.1).0, (a.0, (rest a.1).1))
      place Ordering.lt rest a = a
      place Ordering.eq rest a = a

  pub All-of_sort_by : (P : A → Type 0) (xs : List A) → All P (sort_by xs) → All P xs
  unfolding sort_by
  All-of_sort_by P [] a = tt
  All-of_sort_by P (x ∷ xs) a =
      let (p, rest) = All-of_insert_by P x (sort_by xs) a in (p, All-of_sort_by P xs rest)

  tally-insert_by :
      (p : A → Bool) (x : A) (xs : List A) → tally p (insert_by x xs) ≡ tally p (x ∷ xs)
  unfolding insert_by
  tally-insert_by p x [] = refl
  tally-insert_by p x (y ∷ ys) = ground (arith, tally-insert_by p x ys)

  -- Sorting keeps the number of the items that pass a test.
  pub tally-sort_by : (p : A → Bool) (xs : List A) → tally p (sort_by xs) ≡ tally p xs
  unfolding sort_by
  tally-sort_by p [] = refl
  tally-sort_by p (x ∷ xs) = ground (arith, tally-insert_by p x (sort_by xs), tally-sort_by p xs)

-- Sorting by a total order.
module _ {A : Type 0} (cmp : A → A → Ordering)
    (trans : (a b c : A) → cmp a b ≢ Ordering.gt → cmp b c ≢ Ordering.gt → cmp a c ≢ Ordering.gt)
    (flip : (a b : A) → cmp a b ≡ Ordering.gt → cmp b a ≢ Ordering.gt) where
  abbrev pub IsSorted : List A → Type 0
  IsSorted [] = Unit {0}
  IsSorted (x ∷ xs) = All (λ y. cmp x y ≢ Ordering.gt) xs × IsSorted xs

  insert_by-IsSorted : (x : A) (xs : List A) → IsSorted xs → IsSorted (insert_by cmp x xs)
  unfolding insert_by
  insert_by-IsSorted x [] s = (tt, tt)
  insert_by-IsSorted x (y ∷ ys) s = place (cmp x y) refl (insert_by-IsSorted x ys s.1)
    where
      before : cmp x y ≢ Ordering.gt → IsSorted (x ∷ y ∷ ys)
      before h = ((h, All-map_of _ _ ys (λ z k. trans x y z h k) s.0), s)

      place :
          (o : Ordering)
          → cmp x y ≡ o
          → IsSorted (insert_by cmp x ys)
          → IsSorted (elim o [ Ordering.gt ↦ y ∷ insert_by cmp x ys | _ ↦ x ∷ y ∷ ys ])
      place Ordering.gt e rest = (insert_by-All cmp _ x ys (flip x y e) s.0, rest)
      place Ordering.lt e rest = before (λ g. cc)
      place Ordering.eq e rest = before (λ g. cc)

  pub sort_by-IsSorted : (xs : List A) → IsSorted (sort_by cmp xs)
  unfolding sort_by
  sort_by-IsSorted [] = tt
  sort_by-IsSorted (x ∷ xs) = insert_by-IsSorted x (sort_by cmp xs) (sort_by-IsSorted xs)
