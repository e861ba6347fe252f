-- ===== src/Estimate.antt =====
-- crates/zkie-runtime/src/estimate.rs: the memory reserved for a job, from its static estimate and
-- the largest peak that was observed for the same circuit on the same hardware.
use zk_ie.Common.{
  ℕ, ◌+◌, ◌*◌, ◌/◌, ◌≤◌, ◌<◌, ◌≡◌, ◌⊎◌, ◌↔◌, Option, none, some, Result, ok, err, arith, ltb, leb,
  if◌then◌else◌, u64_size,
}
use zk_ie.Resource.{ResourceRequest}

pub data EstimateError : Type 0 where
  overflow : EstimateError

-- `(u128::from(peak) * 115).div_ceil(100)`: a `u64` times 115 is a `u128`, so the product is exact.
unfoldable pub calibrated_ram : ℕ → ℕ
calibrated_ram peak = (peak * 115 + 99) / 100

abbrev max_ram : ℕ → ℕ → ℕ
max_ram a b = if leb a b then b else a

unfoldable pub calibrated_reservation :
    ResourceRequest → Option ℕ → Result EstimateError ResourceRequest
unfolding calibrated_ram
calibrated_reservation static_request none = ok static_request
calibrated_reservation static_request (some peak) =
    if ltb (calibrated_ram peak) u64_size
    then ok (record static_request {
      ram_bytes = max_ram static_request.ram_bytes (calibrated_ram peak);
    })
    else err overflow

-- What the reservation promises against a static request and an observed peak.
pub record Covers (static_request reserved : ResourceRequest) (peak : ℕ) : Type 0 where
  pub static_ram : static_request.ram_bytes ≤ reserved.ram_bytes
  pub margin : peak * 115 ≤ reserved.ram_bytes * 100
  pub tight :
      (reserved.ram_bytes ≡ static_request.ram_bytes)
      ⊎ (reserved.ram_bytes * 100 < peak * 115 + 100)
  pub representable : static_request.ram_bytes < u64_size → reserved.ram_bytes < u64_size
  pub cpu_kept : reserved.cpu_cores ≡ static_request.cpu_cores
  pub gpus_kept : reserved.gpu_count ≡ static_request.gpu_count
  pub vram_kept : reserved.gpu_vram_bytes_per_device ≡ static_request.gpu_vram_bytes_per_device

-- A calibrated reservation covers the static request and the observed peak with fifteen percent,
-- is the least that does, and changes only the memory.
pub calibrated_reservation-Covers :
    (s : ResourceRequest) (peak : ℕ) {r : ResourceRequest}
    → calibrated_reservation s (some peak) ≡ ok r
    → Covers s r peak
unfolding calibrated_reservation
calibrated_reservation-Covers s peak h = ground arith

-- The calibration is refused exactly where the peak with its margin is above the u64 range.
pub calibrated_reservation_overflow_iff :
    (s : ResourceRequest) (peak : ℕ)
    → (calibrated_reservation s (some peak) ≡ err overflow)
      ↔ (18446744073709551615 * 100 < peak * 115)
unfolding calibrated_reservation
calibrated_reservation_overflow_iff s peak = (λ h. ground arith, λ h. ground arith)
