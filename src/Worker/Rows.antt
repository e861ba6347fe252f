-- ===== src/Worker/Rows.antt =====
-- crates/zkie-runtime/src/worker.rs: the lines of a rendered message are its rows.
use zk_ie.Common.{
  ℕ, ◌≤◌, ◌<◌, Bool, true, false, not, List, [], ◌∷◌, ◌++◌, Result, ok, ◌>>=◌, >>=-ext, ◌≡◌, ◌≢◌,
  refl, sym, ap, ◌∙◌, arith, All, All-append, All-map_of, map, any, all, ◌&&◌, ◌||◌, ◌==◌, u32_size,
  u64_size, String,
}
use mathlib.Core.List.{append_assoc}
use zk_ie.Common.Chars.{Chars, digits, is_empty, is_whitespace, lines}
use zk_ie.Common.Chars.Laws.{
  Without, ends_blank, ends_blank-All, lines-append, split_once_lem, trim_end-eq, IsDigit,
  digits-IsDigit, chars_eq_refl, parse_unsigned-digits,
}
use zk_ie.Common.Text.{codes}
use zk_ie.Identity
use zk_ie.Identity.{Digest32}
use zk_ie.Identity.Hex.{IsDigest, IsHex, from_str-display, display-IsHex}
use zk_ie.State.{is_control, is_identifier_codes}
use zk_ie.Worker.{ProtocolError, schema}
use zk_ie.Worker.Wire.{
  Row, render, split_pair, read_lines, read_head, tail, parse_digest, parse_id, parse_u32,
  parse_u64,
}

-- No line feed and no carriage return.
abbrev pub Plain : Chars → Type 0
Plain s = All (λ c. (c ≢ 10) × (c ≢ 13)) s

-- A row that its line keeps.
pub record IsRow (row : Row) : Type 0 where
  pub key_named : is_empty row.0 ≡ false
  pub key_whole : Without 32 row.0
  pub key_plain : Plain row.0
  pub value_plain : Plain row.1
  pub value_end : ends_blank row.1 ≡ false

abbrev pub text_of : Row → Chars
text_of row = row.0 ++ 32 ∷ row.1

text_of-Plain : (row : Row) → IsRow row → Plain (text_of row)
text_of-Plain row r =
    All-append (λ c. (c ≢ 10) × (c ≢ 13)) row.0 (32 ∷ row.1) r.key_plain
      ((ground arith, ground arith), r.value_plain)

pub lines-render : (rows : List Row) → All IsRow rows → lines (render rows) ≡ map text_of rows
unfolding render lines
lines-render [] h = refl
lines-render ((key, value) ∷ rest) h =
    let plain = text_of-Plain (key, value) h.0 in
    ap lines (sym (append_assoc key (32 ∷ value) (10 ∷ render rest)))
    ∙ lines-append (text_of (key, value)) (render rest)
        (All-map_of _ (λ c. c ≢ 10) _ (λ c p. p.0) plain)
        (All-map_of _ (λ c. c ≢ 13) _ (λ c p. p.1) plain)
    ∙ ap (◌∷◌ (text_of (key, value))) (lines-render rest h.1)

pub split_pair-text_of : (row : Row) → IsRow row → split_pair (text_of row) ≡ ok row
unfolding split_pair
split_pair-text_of row r =
    rw (split_once_lem 32 row.0 row.1 r.key_whole)
      (rw r.key_named (ap (λ (v : Chars). ok (row.0, v)) (trim_end-eq row.1 r.value_end)))

-- The loop of a reader over rows in place of lines.
abbrev pub read_rows :
    {D : Type 0}
    → (D → Chars → Chars → Result ProtocolError D)
    → D
    → List Row
    → Result ProtocolError D
read_rows arm d [] = ok d
read_rows arm d (row ∷ rest) = arm d row.0 row.1 >>= λ next. read_rows arm next rest

pub read_lines-text_of :
    {D : Type 0} (arm : D → Chars → Chars → Result ProtocolError D) (d : D) (rows : List Row)
    → All IsRow rows
    → read_lines arm d (map text_of rows) ≡ read_rows arm d rows
unfolding read_lines
read_lines-text_of arm d [] h = refl
read_lines-text_of arm d (row ∷ rest) h =
    rw (split_pair-text_of row h.0)
      (>>=-ext (arm d row.0 row.1) _ _ (λ next. read_lines-text_of arm next rest h.1))

-- Texts that a value may be.
pub control-Plain : (s : Chars) → any is_control s ≡ false → Plain s
control-Plain [] h = tt
control-Plain (c ∷ s) h = (ground arith, control-Plain s (ground arith))

pub identifier-Plain : (s : Chars) → is_identifier_codes s ≡ true → Plain s
unfolding is_identifier_codes
identifier-Plain s h = control-Plain s (ground arith)

pub printable-Plain :
    (s : Chars) → All (λ c. (45 ≤ c) × (c ≤ 122)) s → Plain s × (ends_blank s ≡ false)
printable-Plain s h = (
  All-map_of _ (λ c. (c ≢ 10) × (c ≢ 13)) s (λ c p. omega arith) h,
  ends_blank-All s (All-map_of _ (λ c. is_whitespace c ≡ false) s (λ c p. ground arith) h),
)

-- The key of a row, tested.
abbrev pub is_key : Chars → Bool
is_key key = not (is_empty key) && all (λ c. not (c == 32 || c == 10 || c == 13)) key

key-IsRow :
    (key : Chars)
    → all (λ c. not (c == 32 || c == 10 || c == 13)) key ≡ true
    → Without 32 key × Plain key
key-IsRow [] h = (tt, tt)
key-IsRow (c ∷ key) h =
    let p = key-IsRow key (ground arith) in
    ((ground arith, p.0), ((ground arith, ground arith), p.1))

pub Plain-IsRow :
    (key value : Chars)
    → is_key key ≡ true
    → Plain value × (ends_blank value ≡ false)
    → IsRow (key, value)
Plain-IsRow key value k v =
    let p = key-IsRow key (ground arith) in
    record {
      key_named = ground arith;
      key_whole = p.0;
      key_plain = p.1;
      value_plain = v.0;
      value_end = v.1;
    }

pub digits-row : (n : ℕ) → Plain (digits n) × (ends_blank (digits n) ≡ false)
digits-row n = printable-Plain (digits n) (
    All-map_of IsDigit (λ c. (45 ≤ c) × (c ≤ 122)) (digits n) (λ c p. omega arith)
      (digits-IsDigit n))

pub display-row :
    (d : Digest32)
    → IsDigest d
    → Plain (Identity.display d) × (ends_blank (Identity.display d) ≡ false)
display-row d w =
    printable-Plain (Identity.display d)
      (All-map_of IsHex (λ c. (45 ≤ c) × (c ≤ 122)) _ (λ c p. omega arith) (display-IsHex d w))

-- The first line of a message of this version.
pub read_head_lem :
    (magic : String) (rest : List Chars)
    → is_key (codes magic) ≡ true
    → read_head magic (text_of (codes magic, digits schema) ∷ rest) ≡ ok schema
unfolding read_head
read_head_lem magic rest k =
    rw
      (split_pair-text_of (codes magic, digits schema)
        (Plain-IsRow (codes magic) (digits schema) k (digits-row schema)))
      (rw (chars_eq_refl (codes magic)) (unfold parse_u32 in unfold digits in refl))

-- The readers of values on what the writers print.
pub parse_digest-display : (d : Digest32) → IsDigest d → parse_digest (Identity.display d) ≡ ok d
unfolding parse_digest
parse_digest-display d w = rw (from_str-display d w, parse_digest) refl

pub parse_u32-digits : (n : ℕ) → n < u32_size → parse_u32 (digits n) ≡ ok n
unfolding parse_u32
parse_u32-digits n h = rw (parse_unsigned-digits n u32_size h) refl

pub parse_u64-digits : (n : ℕ) → n < u64_size → parse_u64 (digits n) ≡ ok n
unfolding parse_u64
parse_u64-digits n h = rw (parse_unsigned-digits n u64_size h) refl

pub parse_id-eq : (s : Chars) → is_identifier_codes s ≡ true → parse_id s ≡ ok s
unfolding parse_id
parse_id-eq s h = rw h refl

-- A reader on a rendered message: its first line is accepted, and its loop runs over the rows.
pub decode_rows :
    {D R : Type 0} (magic : String) (arm : D → Chars → Chars → Result ProtocolError D) (d : D)
    (finish : ℕ → D → Result ProtocolError R) (rows : List Row)
    → is_key (codes magic) ≡ true
    → All IsRow rows
    → (read_head magic (lines (render ((codes magic, digits schema) ∷ rows))) >>= λ version.
        read_lines arm d (tail (lines (render ((codes magic, digits schema) ∷ rows))))
        >>= finish version)
      ≡ (read_rows arm d rows >>= finish schema)
decode_rows magic arm d finish rows k h =
    rw
      (lines-render ((codes magic, digits schema) ∷ rows)
        (Plain-IsRow (codes magic) (digits schema) k (digits-row schema), h))
      (rw (read_head_lem magic (map text_of rows) k) (rw (read_lines-text_of arm d rows h) refl))
