-- ===== src/Identity/Hex.antt =====
-- crates/zkie-types/src/identity.rs: a digest and its hexadecimal text.
use zk_ie.Common.{
  ℕ, ◌+◌, ◌*◌, ◌/◌, ◌%◌, ◌≤◌, ◌<◌, List, [], ◌∷◌, some, ok, ◌≡◌, refl, arith, length, All, ap, ◌∙◌,
  ◌↔◌, >>=-eq-ok, ◌==◌, ==_iff, Bool-cases, inl, inr, ok_or, sym, Option-cases, ok-injective, ◌-◌,
}
use zk_ie.Common.Chars.{Chars}
use zk_ie.Identity.{
  Digest32, invalid_hex, hex_digit, display_bytes, display, hex_nibble, hex_byte, read_pairs,
  from_str,
}

abbrev pub IsByte : ℕ → Type 0
IsByte n = n < 256

-- An array of 32 bytes.
pub record IsDigest (d : Digest32) : Type 0 where
  pub sized : length d.bytes ≡ 32
  pub in_range : All IsByte d.bytes

hex_nibble-hex_digit : (n : ℕ) → n < 16 → hex_nibble (hex_digit n) ≡ some n
unfolding hex_nibble hex_digit
hex_nibble-hex_digit n h = ground arith

hex_byte-hex_digit :
    (byte : ℕ) → byte < 256 → hex_byte (hex_digit (byte / 16)) (hex_digit (byte % 16)) ≡ some byte
unfolding hex_byte
hex_byte-hex_digit byte h =
    ground (arith, hex_nibble-hex_digit (byte / 16), hex_nibble-hex_digit (byte % 16))

read_pairs-display_bytes :
    (bytes : List ℕ) → All IsByte bytes → read_pairs (display_bytes bytes) ≡ ok bytes
unfolding read_pairs display_bytes
read_pairs-display_bytes [] h = refl
read_pairs-display_bytes (b ∷ bs) h =
    ground (arith, hex_byte-hex_digit b, read_pairs-display_bytes bs)

length-display_bytes : (bytes : List ℕ) → length (display_bytes bytes) ≡ 2 * length bytes
unfolding display_bytes
length-display_bytes [] = refl
length-display_bytes (b ∷ bs) = omega (arith, length-display_bytes bs)

-- A digest is read back from its text.
pub from_str-display : (d : Digest32) → IsDigest d → from_str (display d) ≡ ok d
unfolding from_str display
from_str-display d w =
    let sized : length (display_bytes d.bytes) ≡ 64 =
      omega (arith, w.sized, length-display_bytes d.bytes) in
    rw ((==_iff (length (display_bytes d.bytes)) 64).1 sized)
      (rw (read_pairs-display_bytes d.bytes w.in_range) refl)

-- A character of a digest's text.
abbrev pub IsHex : ℕ → Type 0
IsHex c = (48 ≤ c) × (c ≤ 102)

display_bytes-IsHex : (bytes : List ℕ) → All IsByte bytes → All IsHex (display_bytes bytes)
unfolding display_bytes hex_digit
display_bytes-IsHex [] h = tt
display_bytes-IsHex (b ∷ bs) h = (ground arith, (ground arith, display_bytes-IsHex bs h.1))

pub display-IsHex : (d : Digest32) → IsDigest d → All IsHex (display d)
unfolding display
display-IsHex d w = display_bytes-IsHex d.bytes w.in_range

hex_nibble_sound : (c n : ℕ) → hex_nibble c ≡ some n → (n < 16) × (hex_digit n ≡ c)
unfolding hex_nibble hex_digit
hex_nibble_sound c n h = ground arith

hex_byte_sound :
    (high low byte : ℕ)
    → hex_byte high low ≡ some byte
    → (byte < 256) × (hex_digit (byte / 16) ≡ high) × (hex_digit (byte % 16) ≡ low)
unfolding hex_byte
hex_byte_sound high low byte h = elim (Option-cases (hex_nibble high)) [
  | inl e ↦ ground arith
  | inr (a, e) ↦ elim (Option-cases (hex_nibble low)) [
    | inl g ↦ ground arith
    | inr (b, g) ↦
        let p = hex_nibble_sound high a e in
        let q = hex_nibble_sound low b g in
        let is : a * 16 + b ≡ byte = ground arith in
        let x : byte / 16 ≡ a = omega arith in
        let y : byte % 16 ≡ b = omega arith in (omega arith, rw x p.1, rw y q.1)
  ]
]

read_pairs_sound :
    (value : Chars) (bytes : List ℕ) (n : ℕ)
    → length value ≡ n + n
    → read_pairs value ≡ ok bytes
    → (length bytes ≡ n) × All IsByte bytes × (display_bytes bytes ≡ value)
unfolding read_pairs display_bytes
read_pairs_sound [] bytes n l h = ground arith
read_pairs_sound (a ∷ []) bytes n l h = absurd (omega arith)
read_pairs_sound (a ∷ b ∷ rest) bytes n l h =
    let (byte, e, later) = >>=-eq-ok (ok_or (hex_byte a b) invalid_hex) _ h in
    let (more, g, last) = >>=-eq-ok (read_pairs rest) _ later in
    let (sized, ranged, same) = read_pairs_sound rest more (n - 1) (omega arith) g in
    let p = hex_byte_sound a b byte (ground arith) in
    let is : byte ∷ more ≡ bytes = ok-injective last in
    rw (← is) (omega arith, (p.0, ranged), ground arith)

from_str_sound :
    (value : Chars) (d : Digest32) → from_str value ≡ ok d → IsDigest d × (value ≡ display d)
unfolding from_str display
from_str_sound value d h = elim (Bool-cases (length value == 64)) [
  | inl sized ↦
      let (bytes, e, g) = >>=-eq-ok (read_pairs value) _ (rw sized at h) in
      let p = read_pairs_sound value bytes 32 ((==_iff _ 64).0 sized) e in
      rw (← ok-injective g) (record { sized = p.0; in_range = p.1 }, sym p.2)
  | inr other ↦ ground arith
]

-- A text is read as a digest exactly where the digest has 32 bytes and the text is its lowercase
-- hexadecimal text.
pub from_str_iff :
    (value : Chars) (d : Digest32) → (from_str value ≡ ok d) ↔ (IsDigest d × (value ≡ display d))
from_str_iff value d =
    (λ h. from_str_sound value d h, λ p. ap from_str p.1 ∙ from_str-display d p.0)
