-- ===== src/Identity/Unambiguous.antt =====
-- crates/zkie-types/src/identity.rs, canonical_digest: what is hashed determines the identity.
use mathlib.Core.List.{append_assoc}
use zk_ie.Common.{
  ℕ, zero, suc, ◌*◌, ◌/◌, ◌<◌, List, [], ◌∷◌, ◌++◌, ◌≡◌, refl, arith, length, All, ap, ◌∙◌, sym,
}
use zk_ie.Common.Chars.{Chars}
use zk_ie.Identity.{
  Digest32, RunIdentity, ModelVisibility, le_bytes, string_bytes, visibility_byte, digest_bytes,
  digests, domain, preimage, canonical_digest,
}
use zk_ie.Identity.Hex.{IsDigest}

-- Two texts that begin with parts of one length have equal parts.
append-injective :
    (a b : List ℕ) {c d : List ℕ} → length a ≡ length b → a ++ c ≡ b ++ d → (a ≡ b) × (c ≡ d)
append-injective [] [] n h = (refl, h)
append-injective [] (y ∷ b) n h = ground arith
append-injective (x ∷ a) [] n h = ground arith
append-injective (x ∷ a) (y ∷ b) {c} {d} n h = ground (arith, append-injective a b {c = c} {d = d})

-- The numbers of `k` bytes.
abbrev capacity : ℕ → ℕ
capacity zero = 1
capacity (suc k) = 256 * capacity k

length-le_bytes : (k n : ℕ) → length (le_bytes k n) ≡ k
unfolding le_bytes
length-le_bytes zero n = refl
length-le_bytes (suc k) n = omega (arith, length-le_bytes k (n / 256))

le_bytes-injective :
    (k n m : ℕ) → n < capacity k → m < capacity k → le_bytes k n ≡ le_bytes k m → n ≡ m
unfolding le_bytes
le_bytes-injective zero n m h g e = omega arith
le_bytes-injective (suc k) n m h g e = ground (arith, le_bytes-injective k (n / 256) (m / 256))

-- A field of the record is in the range of its Rust type.
pub record IsRunIdentity (r : RunIdentity) : Type 0 where
  pub digests_valid : All IsDigest (digests r)
  pub flavor_fits : length r.proof_flavor < 18446744073709551616
  pub fan_in_fits : r.aggregation_fan_in < 4294967296
  pub version_fits : r.public_input_schema_version < 4294967296

digest_bytes-injective :
    (a b : List Digest32)
    → All IsDigest a
    → All IsDigest b
    → length a ≡ length b
    → {s t : List ℕ} → digest_bytes a ++ s ≡ digest_bytes b ++ t
    → (a ≡ b) × (s ≡ t)
unfolding digest_bytes
digest_bytes-injective [] [] v w n h = (refl, h)
digest_bytes-injective [] (y ∷ b) v w n h = ground arith
digest_bytes-injective (x ∷ a) [] v w n h = ground arith
digest_bytes-injective (x ∷ a) (y ∷ b) v w n {s} {t} h =
    let p = append-injective x.bytes y.bytes (v.0.sized ∙ sym w.0.sized) (
      sym (append_assoc x.bytes (digest_bytes a) s)
      ∙ h
      ∙ append_assoc y.bytes (digest_bytes b) t) in
    let q = digest_bytes-injective a b v.1 w.1 (omega (arith)) {s = s} {t = t} p.1 in
    (ground arith, q.1)

string_bytes-injective :
    (a b : Chars)
    → length a < 18446744073709551616
    → length b < 18446744073709551616
    → {s t : List ℕ} → string_bytes a ++ s ≡ string_bytes b ++ t
    → (a ≡ b) × (s ≡ t)
unfolding string_bytes
string_bytes-injective a b f g {s} {t} h =
    let p =
      append-injective (le_bytes 8 (length a)) (le_bytes 8 (length b))
        (length-le_bytes 8 (length a) ∙ sym (length-le_bytes 8 (length b)))
        (sym (append_assoc (le_bytes 8 (length a)) a s)
          ∙ h
          ∙ append_assoc (le_bytes 8 (length b)) b t) in
    append-injective a b (le_bytes-injective 8 (length a) (length b) f g p.0) p.1

visibility_byte-injective : (a b : ModelVisibility) → visibility_byte a ≡ visibility_byte b → a ≡ b
unfolding visibility_byte
visibility_byte-injective a b h = ground arith

-- The bytes that are hashed for an identity determine every field of it, where its digests are of
-- 32 bytes, its numbers are u32 and the length of its flavor is a u64.
pub preimage-injective :
    (r s : RunIdentity) → IsRunIdentity r → IsRunIdentity s → preimage r ≡ preimage s → r ≡ s
unfolding preimage
preimage-injective r s v w h =
    let a = (append-injective domain domain refl h).1 in
    let b = digest_bytes-injective (digests r) (digests s) v.digests_valid w.digests_valid refl a in
    let c = string_bytes-injective r.proof_flavor s.proof_flavor v.flavor_fits w.flavor_fits b.1 in
    let d : visibility_byte r.model_visibility ≡ visibility_byte s.model_visibility =
      ground arith in
    let e : le_bytes 4 r.aggregation_fan_in ++ le_bytes 4 r.public_input_schema_version
        ≡ le_bytes 4 s.aggregation_fan_in ++ le_bytes 4 s.public_input_schema_version =
      ground arith in
    let f =
      append-injective (le_bytes 4 r.aggregation_fan_in) (le_bytes 4 s.aggregation_fan_in)
        (length-le_bytes 4 r.aggregation_fan_in ∙ sym (length-le_bytes 4 s.aggregation_fan_in)) e in
    let g =
      le_bytes-injective 4 r.aggregation_fan_in s.aggregation_fan_in v.fan_in_fits w.fan_in_fits
        f.0 in
    let k =
      le_bytes-injective 4 r.public_input_schema_version s.public_input_schema_version
        v.version_fits w.version_fits f.1 in
    ground (arith, visibility_byte-injective r.model_visibility s.model_visibility)

-- Where the hash does not map what is hashed for two identities to one digest unless it is the same,
-- equal digests are of one identity.
pub canonical_digest-injective :
    (blake3 : List ℕ → List ℕ) (r s : RunIdentity)
    → IsRunIdentity r
    → IsRunIdentity s
    → (blake3 (preimage r) ≡ blake3 (preimage s) → preimage r ≡ preimage s)
    → canonical_digest blake3 r ≡ canonical_digest blake3 s
    → r ≡ s
unfolding canonical_digest
canonical_digest-injective blake3 r s v w free h =
    preimage-injective r s v w (free (ap (λ (d : Digest32). d.bytes) h))
