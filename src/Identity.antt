-- ===== src/Identity.antt =====
-- crates/zkie-types/src/identity.rs: content digests with their hexadecimal text, the identifiers of
-- proof flavours, and the bytes that a run's identity is hashed from.
-- A text is the list of its code points. A text with a character outside ASCII is no digest and no
-- identifier, so that for those which are read a code point is a byte.
pub mod Hex
pub mod Unambiguous
use Prim.Native.Nat.{ℕ, zero, suc, ◌+◌, ◌-◌, ◌*◌, ◌/◌, ◌%◌}
use zk_ie.Common.{
  Bool, true, false, not, ◌&&◌, List, [], ◌∷◌, ◌++◌, Option, none, some, Result, ok, err, ◌>>=◌,
  ok_or, ltb, leb, ◌==◌, if◌then◌else◌, length, all,
}
use zk_ie.Common.Chars.{Chars, is_empty, chars_eq}

-- The array of 32 bytes.
pub record Digest32 : Type 0 where
  pub bytes : List ℕ

-- `PartialEq` of two digests.
abbrev pub digest_eq : Digest32 → Digest32 → Bool
digest_eq a b = chars_eq a.bytes b.bytes

pub data DigestParseError : Type 0 where
  invalid_length invalid_hex : DigestParseError

-- One digit of `{:02x}`.
unfoldable pub hex_digit : ℕ → ℕ
hex_digit n = if ltb n 10 then 48 + n else 87 + n

unfoldable pub display_bytes : List ℕ → Chars
unfolding hex_digit
display_bytes [] = []
display_bytes (byte ∷ rest) = hex_digit (byte / 16) ∷ hex_digit (byte % 16) ∷ display_bytes rest

-- `Digest32::fmt`.
unfoldable pub display : Digest32 → Chars
unfolding display_bytes
display d = display_bytes d.bytes

unfoldable pub hex_nibble : ℕ → Option ℕ
hex_nibble value =
    if leb 48 value && leb value 57
    then some (value - 48)
    else if leb 97 value && leb value 102
    then some (value - 97 + 10)
    else none

-- The high nibble is shifted past the low one, so that `|` is a sum.
unfoldable pub hex_byte : ℕ → ℕ → Option ℕ
unfolding hex_nibble
hex_byte high low = elim (hex_nibble high) [
  | none ↦ none
  | some h ↦ elim (hex_nibble low) [ none ↦ none | some l ↦ some (h * 16 + l) ]
]

-- The loop over `chunks_exact(2)`, which leaves a last odd character out.
unfoldable pub read_pairs : Chars → Result DigestParseError (List ℕ)
unfolding hex_byte
read_pairs [] = ok []
read_pairs (_ ∷ []) = ok []
read_pairs (high ∷ low ∷ rest) = do
  byte ← ok_or (hex_byte high low) invalid_hex
  bytes ← read_pairs rest
  ok (byte ∷ bytes)

-- `Digest32::from_str`.
unfoldable pub from_str : Chars → Result DigestParseError Digest32
unfolding read_pairs
from_str value =
    if not (length value == 64)
    then err invalid_length
    else do bytes ← read_pairs value; ok (record { bytes = bytes })

pub data IdentifierError : Type 0 where
  empty non_ascii : IdentifierError

-- `parse` of a `ProofFlavorId` or an `ExecutionBackendId`, which wrap the text.
unfoldable pub parse_identifier : Chars → Result IdentifierError Chars
parse_identifier value =
    if is_empty value
    then err empty
    else if not (all (λ c. ltb c 128) value)
    then err non_ascii
    else ok value

pub data ModelVisibility : Type 0 where
  public_model private_model : ModelVisibility

pub record RunIdentity : Type 0 where
  pub model_graph_digest : Digest32
  pub weights_digest : Digest32
  pub compiler_digest : Digest32
  pub isa_digest : Digest32
  pub quantization_digest : Digest32
  pub partition_plan_digest : Digest32
  pub aggregation_plan_digest : Digest32
  pub proof_flavor : Chars
  pub model_visibility : ModelVisibility
  pub aggregation_fan_in : ℕ  -- u32
  pub public_input_schema_version : ℕ  -- u32

-- `to_le_bytes` of a number of `k` bytes.
unfoldable pub le_bytes : ℕ → ℕ → List ℕ
le_bytes zero n = []
le_bytes (suc k) n = n % 256 ∷ le_bytes k (n / 256)

-- What `update_string` hashes.
unfoldable pub string_bytes : Chars → List ℕ
unfolding le_bytes
string_bytes value = le_bytes 8 (length value) ++ value

unfoldable pub visibility_byte : ModelVisibility → ℕ
visibility_byte public_model = 0
visibility_byte private_model = 1

-- b"zkie.run-identity.v1"
abbrev pub domain : List ℕ
domain =
    122 ∷ 107 ∷ 105 ∷ 101 ∷ 46 ∷ 114 ∷ 117 ∷ 110 ∷ 45 ∷ 105 ∷ 100 ∷ 101 ∷ 110 ∷ 116 ∷ 105 ∷ 116
    ∷ 121 ∷ 46 ∷ 118 ∷ 49 ∷ []

-- The digests in the order of `canonical_digest`.
abbrev pub digests : RunIdentity → List Digest32
digests r =
    r.model_graph_digest ∷ r.weights_digest ∷ r.compiler_digest ∷ r.isa_digest
    ∷ r.quantization_digest ∷ r.partition_plan_digest ∷ r.aggregation_plan_digest ∷ []

-- The bytes of the digests, one after another.
unfoldable pub digest_bytes : List Digest32 → List ℕ
digest_bytes [] = []
digest_bytes (d ∷ ds) = d.bytes ++ digest_bytes ds

-- Everything that `canonical_digest` gives to the hasher, in order.
unfoldable pub preimage : RunIdentity → List ℕ
unfolding digest_bytes string_bytes visibility_byte le_bytes
preimage r =
    domain
    ++ (digest_bytes (digests r)
        ++ (string_bytes r.proof_flavor
            ++ (visibility_byte r.model_visibility
                ∷ (le_bytes 4 r.aggregation_fan_in ++ le_bytes 4 r.public_input_schema_version))))

-- `RunIdentity::canonical_digest`; BLAKE3 is a parameter.
unfoldable pub canonical_digest : (List ℕ → List ℕ) → RunIdentity → Digest32
unfolding preimage
canonical_digest blake3 r = record { bytes = blake3 (preimage r) }
