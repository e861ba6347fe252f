-- ===== src/Common/Text.antt =====
-- The order of texts, `str::cmp`: lexicographic by code point, which is the order of the UTF-8 bytes.
use Prim.Native.Char.{code}
use Prim.Native.Nat.{ℕ, zero, suc, ◌/◌, ◌%◌, compare, Ordering}
pub use Prim.Native.String.{String, ◌++◌ as ◌<>◌}
use mathlib.Core.List.{List, [], ◌∷◌}
use mathlib.Core.Logic.{◌≢◌}
use mathlib.Core.Path.{◌≡◌, refl}
use native.Mathlib.Omega.{arith}
use zk_ie.Common.Tests.{ltb, if◌then◌else◌, then_with}
pub use text.Mathlib.Text.{◌==◌ as str_eq}
pub use text.Mathlib.TextEquality.{eq_iff}
pub use text.Mathlib.TextPositions.{eq_refl}

abbrev pub codes : String → List ℕ
codes String.[] = []
codes (String.◌∷◌ c s) = code c ∷ codes s

abbrev pub cmp_codes : List ℕ → List ℕ → Ordering
cmp_codes [] [] = Ordering.eq
cmp_codes [] (_ ∷ _) = Ordering.lt
cmp_codes (_ ∷ _) [] = Ordering.gt
cmp_codes (a ∷ as') (b ∷ bs) = then_with (compare a b) (cmp_codes as' bs)

abbrev pub cmp_str : String → String → Ordering
cmp_str a b = cmp_codes (codes a) (codes b)

-- `cmp_codes` is a total order: it is antisymmetric, and what is not above goes on transitively.
pub cmp_codes-eq : (a b : List ℕ) → cmp_codes a b ≡ Ordering.eq → a ≡ b
cmp_codes-eq [] [] h = refl
cmp_codes-eq [] (b ∷ bs) h = ground arith
cmp_codes-eq (a ∷ as') [] h = ground arith
cmp_codes-eq (a ∷ as') (b ∷ bs) h = ground (arith, cmp_codes-eq as' bs)

pub cmp_codes_refl : (a : List ℕ) → cmp_codes a a ≡ Ordering.eq
cmp_codes_refl [] = refl
cmp_codes_refl (a ∷ as') = ground (arith, cmp_codes_refl as')

pub cmp_codes-gt : (a b : List ℕ) → cmp_codes a b ≡ Ordering.gt → cmp_codes b a ≡ Ordering.lt
cmp_codes-gt [] [] h = ground arith
cmp_codes-gt [] (b ∷ bs) h = ground arith
cmp_codes-gt (a ∷ as') [] h = refl
cmp_codes-gt (a ∷ as') (b ∷ bs) h = ground (arith, cmp_codes-gt as' bs)

pub cmp_codes_trans :
    (a b c : List ℕ)
    → cmp_codes a b ≢ Ordering.gt
    → cmp_codes b c ≢ Ordering.gt
    → cmp_codes a c ≢ Ordering.gt
cmp_codes_trans [] b [] h k = ground arith
cmp_codes_trans [] b (c ∷ cs) h k = ground arith
cmp_codes_trans (a ∷ as') [] c h k = absurd (h refl)
cmp_codes_trans (a ∷ as') (b ∷ bs) [] h k = absurd (k refl)
cmp_codes_trans (a ∷ as') (b ∷ bs) (c ∷ cs) h k = ground (arith, cmp_codes_trans as' bs cs)

pub cmp_codes-lt : (a b : List ℕ) → cmp_codes a b ≡ Ordering.lt → cmp_codes b a ≡ Ordering.gt
cmp_codes-lt [] [] h = ground arith
cmp_codes-lt [] (b ∷ bs) h = refl
cmp_codes-lt (a ∷ as') [] h = ground arith
cmp_codes-lt (a ∷ as') (b ∷ bs) h = ground (arith, cmp_codes-lt as' bs)

pub cmp_codes-lt_trans :
    (a b c : List ℕ)
    → cmp_codes a b ≡ Ordering.lt
    → cmp_codes b c ≡ Ordering.lt
    → cmp_codes a c ≡ Ordering.lt
cmp_codes-lt_trans [] [] c h k = ground arith
cmp_codes-lt_trans [] (b ∷ bs) [] h k = ground arith
cmp_codes-lt_trans [] (b ∷ bs) (c ∷ cs) h k = refl
cmp_codes-lt_trans (a ∷ as') [] c h k = ground arith
cmp_codes-lt_trans (a ∷ as') (b ∷ bs) [] h k = ground arith
cmp_codes-lt_trans (a ∷ as') (b ∷ bs) (c ∷ cs) h k = ground (arith, cmp_codes-lt_trans as' bs cs)

-- `a` does not stand above `b`.
abbrev pub LeStr : String → String → Type 0
LeStr a b = cmp_str a b ≢ Ordering.gt

pub LeStr-refl : (a : String) → LeStr a a
LeStr-refl a h = cc (cmp_codes_refl (codes a))

pub LeStr-trans : (a b c : String) → LeStr a b → LeStr b c → LeStr a c
LeStr-trans a b c h k = cmp_codes_trans (codes a) (codes b) (codes c) h k

pub LeStr-of_gt : (a b : String) → cmp_str a b ≡ Ordering.gt → LeStr b a
LeStr-of_gt a b h = λ g. cc (cmp_codes-gt (codes a) (codes b) h)

-- A number as `format!` prints it. A number has fewer digits than the fuel, which is the number
-- and one more.
abbrev digit : ℕ → String
digit zero = "0"
digit (suc zero) = "1"
digit (suc (suc zero)) = "2"
digit (suc (suc (suc zero))) = "3"
digit (suc (suc (suc (suc zero)))) = "4"
digit (suc (suc (suc (suc (suc zero))))) = "5"
digit (suc (suc (suc (suc (suc (suc zero)))))) = "6"
digit (suc (suc (suc (suc (suc (suc (suc zero))))))) = "7"
digit (suc (suc (suc (suc (suc (suc (suc (suc zero)))))))) = "8"
digit _ = "9"

unfoldable pub decimal_from : ℕ → ℕ → String
decimal_from zero n = ""
decimal_from (suc fuel) n =
    let rest = decimal_from fuel (n / 10) <> digit (n % 10) in if ltb n 10 then digit n else rest

unfoldable pub decimal : ℕ → String
unfolding decimal_from
decimal n = decimal_from (suc n) n
