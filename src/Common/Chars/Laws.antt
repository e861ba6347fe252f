-- ===== src/Common/Chars/Laws.antt =====
-- What the readers of Common.Chars make of the texts that the writers print.
use Prim.Native.Nat.{ℕ, zero, suc, ◌+◌, ◌-◌, ◌*◌, ◌/◌, ◌%◌, ◌≤◌, ◌<◌}
use mathlib.Core.Bool.{Bool, true, false}
use mathlib.Core.List.{[], ◌∷◌, ◌++◌, append-nil, append_assoc}
use mathlib.Core.Option.{some}
use mathlib.Core.Path.{◌≡◌, refl, ap, ◌∙◌}
use mathlib.Core.Logic.{◌≢◌, ◌↔◌, inl, inr}
use native.Mathlib.Omega.{arith}
use zk_ie.Common.Tests.{ltb, ◌==◌, Bool-cases}
use zk_ie.Common.Lists.{All, All-append}
use zk_ie.Common.Chars.{
  Chars, chars_eq, is_whitespace, trim_end, split_once, strip_cr, lines_from, lines, digits_from,
  digits, read_digits, parse_unsigned,
}

pub chars_eq_iff : (a b : Chars) → (chars_eq a b ≡ true) ↔ (a ≡ b)
unfolding chars_eq
chars_eq_iff [] [] = ground arith
chars_eq_iff [] (b ∷ bs) = ground arith
chars_eq_iff (a ∷ as') [] = ground arith
chars_eq_iff (a ∷ as') (b ∷ bs) = ground (arith, chars_eq_iff as' bs)

pub chars_eq_refl : (a : Chars) → chars_eq a a ≡ true
chars_eq_refl a = (chars_eq_iff a a).1 refl

-- The last character is white space.
abbrev pub ends_blank : Chars → Bool
ends_blank [] = false
ends_blank (c ∷ []) = is_whitespace c
ends_blank (c ∷ d ∷ cs) = ends_blank (d ∷ cs)

-- A text that does not end in white space is trimmed to itself, and what is trimmed has no such end.
pub trim_end-eq : (v : Chars) → ends_blank v ≡ false → trim_end v ≡ v
unfolding trim_end
trim_end-eq [] h = refl
trim_end-eq (c ∷ []) h = rw h
trim_end-eq (c ∷ d ∷ cs) h = rw (trim_end-eq (d ∷ cs) h)

-- No character is `sep`.
abbrev pub Without : ℕ → Chars → Type 0
Without sep s = All (λ c. c ≢ sep) s

pub split_once_lem :
    (sep : ℕ) (k v : Chars) → Without sep k → split_once sep (k ++ sep ∷ v) ≡ some (k, v)
unfolding split_once
split_once_lem sep [] v h = ground arith
split_once_lem sep (c ∷ k) v h = let e = split_once_lem sep k v h.1 in rw e (ground arith)

strip_cr-eq : (s : Chars) → Without 13 s → strip_cr s ≡ s
unfolding strip_cr
strip_cr-eq [] h = refl
strip_cr-eq (c ∷ []) h = ground arith
strip_cr-eq (c ∷ d ∷ cs) h = ap (◌∷◌ c) (strip_cr-eq (d ∷ cs) h.1)

lines_from-append :
    (line s rest : Chars)
    → Without 10 s
    → lines_from line (s ++ 10 ∷ rest) ≡ strip_cr (line ++ s) ∷ lines_from [] rest
unfolding lines_from
lines_from-append line [] rest h = rw (append-nil line) refl
lines_from-append line (c ∷ s) rest h = elim (Bool-cases (c == 10)) [
  | inl same ↦ absurd (h.0 (ground arith))
  | inr other ↦
      rw (other, lines_from)
        (lines_from-append (line ++ c ∷ []) s rest h.1
          ∙ ap (λ (t : Chars). strip_cr t ∷ lines_from [] rest) (append_assoc line (c ∷ []) s))
]

-- A line with no line feed or carriage return of its own is read as it was written.
pub lines-append :
    (s rest : Chars) → Without 10 s → Without 13 s → lines (s ++ 10 ∷ rest) ≡ s ∷ lines rest
unfolding lines
lines-append s rest h k =
    lines_from-append [] s rest h ∙ ap (λ (t : Chars). t ∷ lines_from [] rest) (strip_cr-eq s k)

read_digits-append :
    (size acc : ℕ) (a b : Chars) (m : ℕ)
    → read_digits size acc a ≡ some m
    → read_digits size acc (a ++ b) ≡ read_digits size m b
unfolding read_digits
read_digits-append size acc [] b m h = ground arith
read_digits-append size acc (c ∷ a) b m h =
    ground (arith, read_digits-append size (acc * 10 + (c - 48)) a b m)

read_digits-digits :
    (fuel n size : ℕ) → n < fuel → n < size → read_digits size 0 (digits_from fuel n) ≡ some n
unfolding read_digits digits_from
read_digits-digits zero n size h k = elim h [ ]
read_digits-digits (suc fuel) n size h k = elim (Bool-cases (ltb n 10)) [
  | inl small ↦ rw small (ground arith)
  | inr large ↦
      let lead = read_digits-digits fuel (n / 10) size (ground arith) (ground arith) in
      rw large (
        read_digits-append size 0 (digits_from fuel (n / 10)) ((48 + n % 10) ∷ []) (n / 10) lead
        ∙ ground arith)
]

-- Digits begin with a digit.
abbrev HeadIsDigit : Chars → Type 0
HeadIsDigit [] = ⊥
HeadIsDigit (c ∷ _) = (48 ≤ c) × (c ≤ 57)

HeadIsDigit-append : (a b : Chars) → HeadIsDigit a → HeadIsDigit (a ++ b)
HeadIsDigit-append [] b h = absurd h
HeadIsDigit-append (c ∷ a) b h = h

digits_from-HeadIsDigit : (fuel n : ℕ) → n < fuel → HeadIsDigit (digits_from fuel n)
unfolding digits_from
digits_from-HeadIsDigit zero n h = elim h [ ]
digits_from-HeadIsDigit (suc fuel) n h = elim (Bool-cases (ltb n 10)) [
  | inl small ↦ rw small (ground (arith))
  | inr large ↦ rw large (
      HeadIsDigit-append (digits_from fuel (n / 10)) ((48 + n % 10) ∷ [])
        (digits_from-HeadIsDigit fuel (n / 10) (ground arith)))
]

parse_unsigned-HeadIsDigit :
    (size : ℕ) (s : Chars) → HeadIsDigit s → parse_unsigned size s ≡ read_digits size 0 s
unfolding parse_unsigned
parse_unsigned-HeadIsDigit size [] h = absurd h
parse_unsigned-HeadIsDigit size (c ∷ s) h = ground arith

-- A number within the width is read back as it was printed.
pub parse_unsigned-digits : (n size : ℕ) → n < size → parse_unsigned size (digits n) ≡ some n
unfolding digits
parse_unsigned-digits n size h =
    parse_unsigned-HeadIsDigit size _ (digits_from-HeadIsDigit (suc n) n (omega arith))
    ∙ read_digits-digits (suc n) n size (omega arith) h

-- Each character of a printed number is a digit.
abbrev pub IsDigit : ℕ → Type 0
IsDigit c = (48 ≤ c) × (c ≤ 57)

digits_from-IsDigit : (fuel n : ℕ) → All IsDigit (digits_from fuel n)
unfolding digits_from
digits_from-IsDigit zero n = tt
digits_from-IsDigit (suc fuel) n = elim (Bool-cases (ltb n 10)) [
  | inl small ↦ rw small (ground arith)
  | inr large ↦ rw large (
      All-append IsDigit (digits_from fuel (n / 10)) ((48 + n % 10) ∷ [])
        (digits_from-IsDigit fuel (n / 10)) (omega arith))
]

pub digits-IsDigit : (n : ℕ) → All IsDigit (digits n)
unfolding digits
digits-IsDigit n = digits_from-IsDigit (suc n) n

-- A text with no white space at all has none at its end.
pub ends_blank-All : (s : Chars) → All (λ c. is_whitespace c ≡ false) s → ends_blank s ≡ false
ends_blank-All [] h = refl
ends_blank-All (c ∷ []) h = h.0
ends_blank-All (c ∷ d ∷ s) h = ends_blank-All (d ∷ s) h.1
