-- ===== src/Common/Results.antt =====
-- `Result<A, E>` of the source, with `?` as bind.
use mathlib.Core.Path.{◌≡◌, refl, subst, ap, ◌∙◌}
use zk_ie.Common.Tests.{if◌then◌else◌}
use mathlib.Core.Logic.{◌⊎◌, inl, inr}
use mathlib.Core.Bool.{Bool, true, false}
use mathlib.Core.Option.{Option, none, some}

pub data Result {ℓ κ} (E : Type ℓ) (A : Type κ) : Type (ℓ ⊔ κ) where
  ok : A → Result E A
  err : E → Result E A

infixl 5 ◌>>=◌ ◌>>◌
abbrev pub ◌>>=◌ {ℓ κ μ} :
    {E : Type ℓ} {A : Type κ} {B : Type μ} → Result E A → (A → Result E B) → Result E B
ok value >>= next = next value
err cause >>= next = err cause

abbrev pub ◌>>◌ {ℓ μ} : {E : Type ℓ} {B : Type μ} → Result E (Unit {0}) → Result E B → Result E B
first >> second = first >>= λ _. second

-- `if !test { return Err(e) }`.
abbrev pub guard {ℓ} : {E : Type ℓ} → Bool → E → Result E (Unit {0})
guard false refusal = err refusal
guard true refusal = ok tt

abbrev pub ok_or {ℓ κ} : {E : Type ℓ} {A : Type κ} → Option A → E → Result E A
ok_or none e = err e
ok_or (some a) e = ok a

-- A bind that succeeded ran both of its parts.
pub >>=-eq-ok {ℓ κ μ} :
    {E : Type ℓ} {A : Type κ} {B : Type μ} (r : Result E A) (next : A → Result E B) {out : B}
    → (r >>= next) ≡ ok out
    → (value : A) × (r ≡ ok value) × (next value ≡ ok out)
>>=-eq-ok (ok value) next h = (value, refl, h)
>>=-eq-ok (err cause) next h = cc

pub ok-injective {ℓ κ} :
    {E : Type ℓ} {A : Type κ} {a b : A} → ◌≡◌ {A = Result E A} (ok a) (ok b) → a ≡ b
ok-injective h = cc

pub Result-cases {ℓ κ} :
    {E : Type ℓ} {A : Type κ} (r : Result E A) → ((a : A) × (r ≡ ok a)) ⊎ ((e : E) × (r ≡ err e))
Result-cases (ok a) = inl (a, refl)
Result-cases (err e) = inr (e, refl)

-- What holds of the value of a result, if there is one, with its rules for `?`, guards and tests.
pub record Ensures {ℓ κ} {E : Type ℓ} {A : Type κ} (P : A → Type 0) (r : Result E A)
    : Type (ℓ ⊔ κ) where
  pub at : (a : A) → r ≡ ok a → P a

module _ {ℓ κ μ} {E : Type ℓ} {A : Type κ} {B : Type μ} {Q : B → Type 0} where
  pub Ensures-bind :
      {m : Result E A} {f : A → Result E B}
      → ((a : A) → m ≡ ok a → Ensures Q (f a))
      → Ensures Q (m >>= f)
  Ensures-bind {m} {f} h = record {
    at = λ b e. let (a, is, rest) = >>=-eq-ok m f e in (h a is).at b rest;
  }

module _ {ℓ μ} {E : Type ℓ} {B : Type μ} {Q : B → Type 0} where
  pub Ensures-pure : {b : B} → Q b → Ensures {E = E} Q (ok b)
  Ensures-pure q = record { at = λ c e. subst Q (ok-injective e) q }

  pub Ensures-if :
      (b : Bool) {x y : Result E B}
      → (b ≡ true → Ensures Q x)
      → (b ≡ false → Ensures Q y)
      → Ensures Q (if b then x else y)
  Ensures-if true h k = h refl
  Ensures-if false h k = k refl

-- What holds of the error of a result, if it is one.
pub record Fails {ℓ κ} {E : Type ℓ} {A : Type κ} (Q : E → Type 0) (r : Result E A)
    : Type (ℓ ⊔ κ) where
  pub why : (e : E) → r ≡ err e → Q e

pub err-injective {ℓ κ} :
    {E : Type ℓ} {A : Type κ} {e f : E} → ◌≡◌ {A = Result E A} (err e) (err f) → e ≡ f
err-injective h = cc

module _ {ℓ κ μ} {E : Type ℓ} {A : Type κ} {B : Type μ} {Q : E → Type 0} where
  pub Fails-bind :
      {m : Result E A} {f : A → Result E B}
      → Fails Q m
      → ((a : A) → m ≡ ok a → Fails Q (f a))
      → Fails Q (m >>= f)
  Fails-bind {m} {f} here later = elim (Result-cases m) [
    | inl (a, is) ↦ rw is (later a is)
    | inr (e, is) ↦ rw is (record { why = λ x h. subst Q (err-injective h) (here.why e is) })
  ]

module _ {ℓ μ} {E : Type ℓ} {B : Type μ} {Q : E → Type 0} where
  pub Fails-ok : {b : B} → Fails {E = E} Q (ok b)
  Fails-ok = record { why = λ e h. cc }

  pub Fails-err : {e : E} → Q e → Fails {A = B} Q (err e)
  Fails-err q = record { why = λ x h. subst Q (err-injective h) q }

  pub Fails-if :
      (b : Bool) {x y : Result E B}
      → (b ≡ true → Fails Q x)
      → (b ≡ false → Fails Q y)
      → Fails Q (if b then x else y)
  Fails-if true h k = h refl
  Fails-if false h k = k refl

-- Two binds agree where what they go on with agrees on every value.
pub >>=-ext {ℓ κ μ} :
    {E : Type ℓ} {A : Type κ} {B : Type μ} (r : Result E A) (f g : A → Result E B)
    → ((a : A) → f a ≡ g a)
    → (r >>= f) ≡ (r >>= g)
>>=-ext (ok a) f g h = h a
>>=-ext (err e) f g h = refl

-- A bind has a value where its first part has one, and the rest has one there.
pub total-bind {ℓ κ μ} :
    {E : Type ℓ} {A : Type κ} {B : Type μ} (m : Result E A) (f : A → Result E B) (a : A)
    → m ≡ ok a
    → (b : B) × (f a ≡ ok b)
    → (b : B) × ((m >>= f) ≡ ok b)
total-bind m f a e t = (t.0, ap (λ r. r >>= f) e ∙ t.1)

-- What a check or a value that is there shows.
pub guard-true {ℓ} : {E : Type ℓ} (b : Bool) (e : E) {u : Unit {0}} → guard b e ≡ ok u → b ≡ true
guard-true true e h = refl
guard-true false e h = cc

pub ok_or-some {ℓ κ} :
    {E : Type ℓ} {A : Type κ} (o : Option A) (e : E) {a : A} → ok_or o e ≡ ok a → o ≡ some a
ok_or-some none e h = cc
ok_or-some (some a) e h = cc
