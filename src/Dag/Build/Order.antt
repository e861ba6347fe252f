-- ===== src/Dag/Build/Order.antt =====
-- dag/model.rs, build_dag: ranges that follow one another give the instructions to the shards in order.
use zk_ie.Common.{ℕ, suc, ◌+◌, ◌<◌, ◌≤◌, ◌≢◌, some, List, [], ◌∷◌, ok, ◌≡◌, arith, All, length}
use zk_ie.Dag.Build.{ShardSpec, check_contiguous, shard_from}

-- No range ends before it starts.
abbrev pub Forward : List ShardSpec → Type 0
Forward specs = All (λ s. s.range.start ≤ s.range.end) specs

shard_from-le :
    (index expected : ℕ) (specs : List ShardSpec) (i : ℕ) {end a : ℕ}
    → Forward specs
    → check_contiguous index expected specs ≡ ok end
    → shard_from index specs i ≡ some a
    → (index ≤ a) × (a < index + length specs) × (expected ≤ i)
unfolding check_contiguous shard_from
shard_from-le index expected [] i f h e = ground arith
shard_from-le index expected (s ∷ ss) i {end} {a} f h e =
    ground (arith, shard_from-le (suc index) s.range.end ss i {end = end} {a = a} f.1)

shard_from_mono :
    (index expected : ℕ) (specs : List ShardSpec) (p r : ℕ) {end a b : ℕ}
    → Forward specs
    → check_contiguous index expected specs ≡ ok end
    → shard_from index specs p ≡ some a
    → shard_from index specs r ≡ some b
    → p < r
    → a ≤ b
unfolding check_contiguous shard_from
shard_from_mono index expected [] p r f h e g l = ground arith
shard_from_mono index expected (s ∷ ss) p r {end} {a} {b} f h e g l = ground (
  arith,
  shard_from_mono (suc index) s.range.end ss p r {end = end} {a = a} {b = b} f.1,
  shard_from-le (suc index) s.range.end ss p {end = end} {a = a} f.1,
  shard_from-le (suc index) s.range.end ss r {end = end} {a = b} f.1,
)

module _ (specs : List ShardSpec) {end : ℕ} (f : Forward specs)
    (h : check_contiguous 0 0 specs ≡ ok end) where
  -- A shard has a number below that of the specs.
  pub shard-lt : (i : ℕ) {a : ℕ} → shard_from 0 specs i ≡ some a → a < length specs
  shard-lt i {a} e = omega (arith, (shard_from-le 0 0 specs i f h e).1)

  -- An earlier instruction of another shard is in an earlier shard.
  pub shard-lt_of_lt :
      (p r : ℕ) {a b : ℕ}
      → shard_from 0 specs p ≡ some a
      → shard_from 0 specs r ≡ some b
      → p < r
      → a ≢ b
      → a < b
  shard-lt_of_lt p r e g l ne = omega (arith, shard_from_mono 0 0 specs p r f h e g l, ne)
