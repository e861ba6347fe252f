-- ===== src/Resource/Laws.antt =====
-- What validation accepts, and what a reservation takes and leaves.
use zk_ie.Common.{
  ℕ, ◌+◌, ◌*◌, ◌≤◌, ◌<◌, ◌≡◌, ◌↔◌, ◌≢◌, true, false, none, some, ok, arith, u64_size, Option-cases,
  inl, inr,
}
use zk_ie.Resource.{
  ResourceRequest, ResourceCapacity, new_request, new_capacity, fits, checked_reserve,
}

-- GPU memory is named exactly when there is a GPU, and its total is a `u64`.
pub record IsGpuConsistent (gpu_count vram : ℕ) : Type 0 where
  pub absent : gpu_count ≡ 0 → vram ≡ 0
  pub present : vram ≡ 0 → gpu_count ≡ 0
  pub total : gpu_count * vram < u64_size

pub record IsValidRequest (r : ResourceRequest) : Type 0 where
  pub some_cpu : 0 < r.cpu_cores
  pub gpu : IsGpuConsistent r.gpu_count r.gpu_vram_bytes_per_device

abbrev pub IsValidCapacity : ResourceCapacity → Type 0
IsValidCapacity c = IsGpuConsistent c.gpu_count c.gpu_vram_bytes_per_device

-- What the request takes is within the capacity, field by field.
pub record IsWithin (r : ResourceRequest) (c : ResourceCapacity) : Type 0 where
  pub cpu : r.cpu_cores ≤ c.cpu_cores
  pub ram : r.ram_bytes ≤ c.ram_bytes
  pub gpus : r.gpu_count ≤ c.gpu_count
  pub vram : r.gpu_vram_bytes_per_device ≤ c.gpu_vram_bytes_per_device

pub fits_iff : (c : ResourceCapacity) (r : ResourceRequest) → (fits c r ≡ true) ↔ IsWithin r c
unfolding fits
fits_iff c r = (λ h. ground arith, λ h. ground arith)

abbrev pub request : ℕ → ℕ → ℕ → ℕ → ResourceRequest
request cpu ram gpus vram = record {
  cpu_cores = cpu;
  ram_bytes = ram;
  gpu_count = gpus;
  gpu_vram_bytes_per_device = vram;
}

-- ResourceRequest::new succeeds on exactly the valid requests and stores what it was given.
pub new_request_iff :
    (cpu ram gpus vram : ℕ) (r : ResourceRequest)
    → (new_request cpu ram gpus vram ≡ ok r) ↔ (IsValidRequest r × (r ≡ request cpu ram gpus vram))
unfolding new_request
new_request_iff cpu ram gpus vram r = (λ h. ground arith, λ h. ground arith)

-- ResourceCapacity::new succeeds on exactly the consistent capacities and stores what it was
-- given.
pub new_capacity_iff :
    (cpu ram gpus vram : ℕ) (c : ResourceCapacity)
    → (new_capacity cpu ram gpus vram ≡ ok c) ↔ (
        IsValidCapacity c
        × (c.cpu_cores ≡ cpu)
        × (c.ram_bytes ≡ ram)
        × (c.gpu_count ≡ gpus)
        × (c.gpu_vram_bytes_per_device ≡ vram))
unfolding new_capacity
new_capacity_iff cpu ram gpus vram c = (λ h. ground arith, λ h. ground arith)

-- What stands after a reservation: the taken cores, bytes and devices are gone and nothing else.
pub record Reserved (c : ResourceCapacity) (r : ResourceRequest) (rest : ResourceCapacity)
    : Type 0 where
  pub within : IsWithin r c
  pub cpu : rest.cpu_cores + r.cpu_cores ≡ c.cpu_cores
  pub ram : rest.ram_bytes + r.ram_bytes ≡ c.ram_bytes
  pub gpus : rest.gpu_count + r.gpu_count ≡ c.gpu_count
  pub vram_kept : rest.gpu_count ≢ 0 → rest.gpu_vram_bytes_per_device ≡ c.gpu_vram_bytes_per_device
  pub vram_gone : rest.gpu_count ≡ 0 → rest.gpu_vram_bytes_per_device ≡ 0

-- A reservation takes exactly the requested cores, bytes and devices, and keeps the memory of a
-- device while a device is left.
pub checked_reserve-Reserved :
    (c : ResourceCapacity) (r : ResourceRequest) {rest : ResourceCapacity}
    → checked_reserve c r ≡ some rest
    → Reserved c r rest
unfolding checked_reserve fits
checked_reserve-Reserved c r h = ground arith

-- A reservation is refused only where the request does not fit.
pub checked_reserve-none_iff :
    (c : ResourceCapacity) (r : ResourceRequest) → (checked_reserve c r ≡ none) ↔ (fits c r ≡ false)
unfolding checked_reserve
checked_reserve-none_iff c r = (λ h. ground arith, λ h. ground arith)

pub checked_reserve_of_fits :
    (c : ResourceCapacity) (r : ResourceRequest)
    → fits c r ≡ true
    → (rest : ResourceCapacity) × (checked_reserve c r ≡ some rest)
checked_reserve_of_fits c r h = elim (Option-cases (checked_reserve c r)) [
  | inl e ↦ cc ((checked_reserve-none_iff c r).0 e)
  | inr found ↦ found
]

-- `left * v` of a part of `n` devices is below the total.
mul-le_left : (left taken n v : ℕ) → left + taken ≡ n → left * v ≤ n * v
mul-le_left left taken n v h = rw (← h) (omega arith)

-- A reservation of a consistent capacity leaves a consistent capacity.
pub checked_reserve-IsValidCapacity :
    (c : ResourceCapacity) (r : ResourceRequest) {rest : ResourceCapacity}
    → IsValidCapacity c
    → checked_reserve c r ≡ some rest
    → IsValidCapacity rest
checked_reserve-IsValidCapacity c r {rest} v h =
    let t = checked_reserve-Reserved c r h in
    ground (arith, mul-le_left rest.gpu_count r.gpu_count c.gpu_count c.gpu_vram_bytes_per_device)
