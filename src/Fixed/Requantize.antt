-- ===== src/Fixed/Requantize.antt =====
-- crates/zkie-core/src/fixed_point.rs: rescaling is division with a remainder that is never negative.
use zk_ie.Common.{
  ℕ, ◌+◌, ◌*◌, ◌<◌, ◌≤◌, true, ok, ◌≡◌, ◌↔◌, sym, arith, i64_size, Bool-cases, inl, inr,
  ok-injective, subst,
}
use zk_ie.Common.Int.{ℤ, pos, negsuc, pos_part, neg_part}
use zk_ie.Fixed.{scale_18, div_euclid, rem_euclid, fits_i64, requantize_raw, ◌*ℤ◌, requantize_mul}

-- An `i64`.
abbrev pub IsI64 : ℤ → Type 0
IsI64 v = (pos_part v < i64_size) × (neg_part v ≤ i64_size)

-- raw = q * 10 ^ 18 + r with 0 ≤ r < 10 ^ 18.
abbrev pub Divides : ℤ → ℤ → ℕ → Type 0
Divides raw q r =
    (pos_part raw + neg_part q * scale_18 ≡ neg_part raw + pos_part q * scale_18 + r)
    × (r < scale_18)

euclid-Divides : (raw : ℤ) → Divides raw (div_euclid raw scale_18) (rem_euclid raw scale_18)
unfolding div_euclid rem_euclid
euclid-Divides (pos n) = omega arith
euclid-Divides (negsuc n) = omega arith

Divides-unique :
    (raw q q' : ℤ) (r r' : ℕ) → Divides raw q r → Divides raw q' r' → (q ≡ q') × (r ≡ r')
Divides-unique raw q q' r r' d d' = ground arith

fits_i64_iff : (q : ℤ) → (fits_i64 q ≡ true) ↔ IsI64 q
fits_i64_iff (pos n) = ground arith
fits_i64_iff (negsuc n) = ground arith

-- Rescaling gives exactly the quotient and the remainder of the division by 10 ^ 18, rounded to the
-- smaller number, where the quotient is an `i64`.
pub requantize_raw_iff :
    (raw q : ℤ) (r : ℕ) → (requantize_raw raw ≡ ok (q, r)) ↔ (Divides raw q r × IsI64 q)
unfolding requantize_raw
requantize_raw_iff raw q r =
    let d = euclid-Divides raw in
    let range = fits_i64_iff (div_euclid raw scale_18) in
    (
      λ h. elim (Bool-cases (fits_i64 (div_euclid raw scale_18))) [
        | inl fits ↦
            let e : (div_euclid raw scale_18, rem_euclid raw scale_18) ≡ (q, r) =
              ok-injective (rw fits at h) in
            subst (λ (x : ℤ × ℕ). Divides raw x.0 x.1 × IsI64 x.0) e (d, range.0 fits)
        | inr over ↦ absurd (ground (arith, h, over))
      ],
      λ p.
          let u =
            Divides-unique raw (div_euclid raw scale_18) q (rem_euclid raw scale_18) r d p.0 in
          let fits = range.1 (subst IsI64 (sym u.0) p.1) in rw fits (cc (u.0, u.1)),
    )

mul_parts :
    (a b : ℤ)
    → pos_part (a *ℤ b) + (pos_part a * neg_part b + neg_part a * pos_part b)
      ≡ neg_part (a *ℤ b) + (pos_part a * pos_part b + neg_part a * neg_part b)
unfolding ◌*ℤ◌
mul_parts a b = ground arith

-- A product of two scaled numbers is rescaled exactly to the quotient, an i64, and the remainder,
-- at least zero and less than 10 ^ 18, of the exact product divided by 10 ^ 18.
pub requantize_mul_iff :
    (a b q : ℤ) (r : ℕ)
    → (requantize_mul a b ≡ ok (q, r)) ↔ (
        (pos_part a * pos_part b + neg_part a * neg_part b + neg_part q * scale_18
          ≡ pos_part a * neg_part b + neg_part a * pos_part b + pos_part q * scale_18 + r)
        × (r < scale_18)
        × IsI64 q)
unfolding requantize_raw requantize_mul
requantize_mul_iff a b q r =
    let both = requantize_raw_iff (a *ℤ b) q r in
    let m = mul_parts a b in
    (
      λ h. let p = both.0 h in (omega (arith, m, p.0.0), p.0.1, p.1),
      λ p. both.1 ((omega (arith, m, p.0), p.1), p.2),
    )
