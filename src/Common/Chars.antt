-- ===== src/Common/Chars.antt =====
-- Text as code points, for the messages that the program writes and reads character by character:
-- `str::lines`, `split_once`, `trim_end`, `parse` of an unsigned number and its `Display`.
pub mod Laws
use Prim.Native.Nat.{ℕ, zero, suc, ◌+◌, ◌-◌, ◌*◌, ◌/◌, ◌%◌}
use mathlib.Core.Bool.{Bool, true, false, ◌&&◌, ◌||◌}
use mathlib.Core.List.{List, [], ◌∷◌, ◌++◌}
use mathlib.Core.Option.{Option, none, some}
use mathlib.Core.Option
use zk_ie.Common.Tests.{ltb, leb, ◌==◌, if◌then◌else◌}

abbrev pub Chars : Type 0
Chars = List ℕ

abbrev pub is_empty : Chars → Bool
is_empty [] = true
is_empty (_ ∷ _) = false

-- `==` of two texts.
unfoldable pub chars_eq : Chars → Chars → Bool
chars_eq [] [] = true
chars_eq [] (_ ∷ _) = false
chars_eq (_ ∷ _) [] = false
chars_eq (a ∷ as') (b ∷ bs) = a == b && chars_eq as' bs

-- `char::is_whitespace`, all of Unicode's `White_Space`.
abbrev pub is_whitespace : ℕ → Bool
is_whitespace c =
    c == 32
    || leb 9 c && leb c 13
    || c == 0x85
    || c == 0xA0
    || c == 0x1680
    || leb 0x2000 c && leb c 0x200A
    || c == 0x2028
    || c == 0x2029
    || c == 0x202F
    || c == 0x205F
    || c == 0x3000

unfoldable pub trim_end : Chars → Chars
trim_end [] = []
trim_end (c ∷ cs) =
    let rest = trim_end cs in if is_empty rest && is_whitespace c then [] else c ∷ rest

-- The text before the first `sep` and the text after it.
unfoldable pub split_once : ℕ → Chars → Option (Chars × Chars)
split_once sep [] = none
split_once sep (c ∷ cs) =
    let rest = Option.map (λ (p : Chars × Chars). (c ∷ p.0, p.1)) (split_once sep cs) in
    if c == sep then some ([], cs) else rest

-- The carriage return that a line may have before its line feed.
unfoldable pub strip_cr : Chars → Chars
strip_cr [] = []
strip_cr (c ∷ []) = if c == 13 then [] else c ∷ []
strip_cr (c ∷ d ∷ cs) = c ∷ strip_cr (d ∷ cs)

-- `str::lines`, with the part of the current line that is read: a last line without a line feed
-- counts, unless it is empty.
unfoldable pub lines_from : Chars → Chars → List Chars
lines_from line [] = if is_empty line then [] else line ∷ []
lines_from line (c ∷ cs) = elim (c == 10) [
  | true ↦ strip_cr line ∷ lines_from [] cs
  | false ↦ lines_from (line ++ c ∷ []) cs
]

unfoldable pub lines : Chars → List Chars
unfolding lines_from strip_cr
lines = lines_from []

-- `Display` of an unsigned number. A number has fewer digits than the fuel.
unfoldable pub digits_from : ℕ → ℕ → Chars
digits_from zero n = []
digits_from (suc fuel) n =
    let rest = digits_from fuel (n / 10) ++ (48 + n % 10) ∷ [] in
    if ltb n 10 then (48 + n) ∷ [] else rest

unfoldable pub digits : ℕ → Chars
unfolding digits_from
digits n = digits_from (suc n) n

abbrev is_digit : ℕ → Bool
is_digit c = leb 48 c && leb c 57

-- The loop of `parse`: each digit is taken in if the number stays below `size`.
unfoldable pub read_digits : ℕ → ℕ → Chars → Option ℕ
read_digits size acc [] = some acc
read_digits size acc (c ∷ cs) =
    if is_digit c && ltb (acc * 10 + (c - 48)) size
    then read_digits size (acc * 10 + (c - 48)) cs
    else none

-- `read_digits` of a text that has a digit.
unfoldable pub read_number : ℕ → Chars → Option ℕ
unfolding read_digits
read_number size [] = none
read_number size (c ∷ cs) = read_digits size 0 (c ∷ cs)

-- `str::parse::<u32>` and `parse::<u64>`: a plus sign may stand before the digits.
unfoldable pub parse_unsigned : ℕ → Chars → Option ℕ
unfolding read_number
parse_unsigned size [] = none
parse_unsigned size (c ∷ cs) = if c == 43 then read_number size cs else read_number size (c ∷ cs)
