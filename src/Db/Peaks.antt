-- ===== src/Db/Peaks.antt =====
-- db.rs and db/engine.rs: the largest peak of memory that was observed for a reservation key.
use zk_ie.Common.{
  ℕ, ◌<◌, ◌≡◌, refl, ◌↔◌, Bool, true, ◌&&◌, Option, none, some, List, [], ◌∷◌, Result, ok, err,
  ◌>>=◌, if◌then◌else◌, ltb, leb, ◌==◌, i64_size, arith,
}
use zk_ie.Common.Text.{str_eq, eq_iff}
use zk_ie.Db.Tables.{ReservationKey, PeakRow, RunDb, DbError, resource_peak_out_of_range}

-- The primary key of `resource_history`.
unfoldable pub key_eq : ReservationKey → ReservationKey → Bool
key_eq a b =
    str_eq a.circuit_digest b.circuit_digest
    && (a.k == b.k)
    && str_eq a.proof_flavor b.proof_flavor
    && str_eq a.execution_backend b.execution_backend
    && str_eq a.hardware_profile b.hardware_profile

key_eq-eq : (a b : ReservationKey) → key_eq a b ≡ true → a ≡ b
unfolding key_eq
key_eq-eq a b h = ground (
  arith,
  eq_iff a.circuit_digest b.circuit_digest,
  eq_iff a.proof_flavor b.proof_flavor,
  eq_iff a.execution_backend b.execution_backend,
  eq_iff a.hardware_profile b.hardware_profile,
)

key_eq_refl : (a : ReservationKey) → key_eq a a ≡ true
unfolding key_eq
key_eq_refl a = ground (
  arith,
  eq_iff a.circuit_digest a.circuit_digest,
  eq_iff a.proof_flavor a.proof_flavor,
  eq_iff a.execution_backend a.execution_backend,
  eq_iff a.hardware_profile a.hardware_profile,
)

pub key_eq_iff : (a b : ReservationKey) → (key_eq a b ≡ true) ↔ (a ≡ b)
key_eq_iff a b = (key_eq-eq a b, λ e. rw e (key_eq_refl b))

-- `exact_peak_to_sql`: SQLite stores an `i64`.
unfoldable pub exact_peak_to_sql : ℕ → Result DbError ℕ
exact_peak_to_sql peak = if ltb peak i64_size then ok peak else err resource_peak_out_of_range

abbrev larger : ℕ → ℕ → ℕ
larger a b = if leb a b then b else a

-- `INSERT … ON CONFLICT DO UPDATE SET max_observed_peak_bytes=MAX(…)`.
unfoldable pub upsert_peak : ReservationKey → ℕ → List PeakRow → List PeakRow
upsert_peak key peak [] = record { key = key; max_observed_peak_bytes = peak } ∷ []
upsert_peak key peak (r ∷ rows) =
    let rest = upsert_peak key peak rows in
    if key_eq r.key key
    then record r { max_observed_peak_bytes = larger r.max_observed_peak_bytes peak } ∷ rows
    else r ∷ rest

-- `record_resource_peak_tx`, and `record_resource_peak`, which is that one in its own transaction.
unfoldable pub record_resource_peak_tx : RunDb → ReservationKey → ℕ → Result DbError RunDb
unfolding exact_peak_to_sql
record_resource_peak_tx db key peak_bytes = do
  peak ← exact_peak_to_sql peak_bytes
  ok (record db { resource_history = upsert_peak key peak db.resource_history })

abbrev find_peak : ReservationKey → List PeakRow → Option ℕ
find_peak key [] = none
find_peak key (r ∷ rows) =
    if key_eq r.key key then some r.max_observed_peak_bytes else find_peak key rows

-- `max_observed_peak_bytes`.
unfoldable pub max_observed_peak_bytes : RunDb → ReservationKey → Option ℕ
max_observed_peak_bytes db key = find_peak key db.resource_history

-- The maximum of a recorded peak and what was recorded before.
abbrev pub raised : Option ℕ → ℕ → ℕ
raised none peak = peak
raised (some old) peak = larger old peak

find_peak-upsert_peak :
    (key other : ReservationKey) (peak : ℕ) (rows : List PeakRow)
    → find_peak other (upsert_peak key peak rows)
      ≡ (if key_eq key other then some (raised (find_peak key rows) peak) else find_peak other rows)
unfolding upsert_peak
find_peak-upsert_peak key other peak [] = refl
find_peak-upsert_peak key other peak (r ∷ rows) = ground (
  arith,
  key_eq_iff r.key key,
  key_eq_iff r.key other,
  key_eq_iff key other,
  find_peak-upsert_peak key other peak rows,
)

-- A recorded peak fits an i64, raises the stored maximum of its own key, and leaves every other
-- key.
pub record_resource_peak_lem :
    (db : RunDb) (key other : ReservationKey) (peak : ℕ) {db' : RunDb}
    → record_resource_peak_tx db key peak ≡ ok db'
    → (peak < i64_size)
      × (max_observed_peak_bytes db' other ≡ (
          if key_eq key other
          then some (raised (max_observed_peak_bytes db key) peak)
          else max_observed_peak_bytes db other))
unfolding record_resource_peak_tx max_observed_peak_bytes
record_resource_peak_lem db key other peak {db'} h =
    let e : db' ≡ record db { resource_history = upsert_peak key peak db.resource_history } =
      ground arith in
    (ground arith, rw e (find_peak-upsert_peak key other peak db.resource_history))
