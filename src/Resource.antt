-- ===== src/Resource.antt =====
-- crates/zkie-types/src/resource.rs: what a job asks for and what a worker host offers.
-- The fields are `u32` (`cpu_cores`, `gpu_count`) and `u64` numbers, kept as plain numbers; the
-- ranges are stated where a theorem needs them.
pub mod Laws
use zk_ie.Common.{
  ℕ, ◌*◌, ◌-◌, Bool, ne_bool, ◌&&◌, Option, none, some, Result, ok, err, ◌>>◌, guard, ok_or, leb,
  ◌==◌, not, if◌then◌else◌, checked_mul_u64,
}

pub record ResourceRequest : Type 0 where
  pub cpu_cores : ℕ  -- u32
  pub ram_bytes : ℕ  -- u64
  pub gpu_count : ℕ  -- u32
  pub gpu_vram_bytes_per_device : ℕ  -- u64

pub record ResourceCapacity : Type 0 where
  pub cpu_cores : ℕ  -- u32
  pub ram_bytes : ℕ  -- u64
  pub gpu_count : ℕ  -- u32
  pub gpu_vram_bytes_per_device : ℕ  -- u64

pub data ResourceValidationError : Type 0 where
  zero_cpu_cores inconsistent_gpu_resources arithmetic_overflow : ResourceValidationError

unfoldable pub validate_gpu_resources : ℕ → ℕ → Result ResourceValidationError (Unit {0})
validate_gpu_resources gpu_count gpu_vram_bytes_per_device = do
  guard (not (ne_bool (gpu_count == 0) (gpu_vram_bytes_per_device == 0))) inconsistent_gpu_resources
  elim (checked_mul_u64 gpu_count gpu_vram_bytes_per_device) [
    | none ↦ err arithmetic_overflow
    | some _ ↦ ok tt
  ]

unfoldable pub validate_request : ℕ → ℕ → ℕ → Result ResourceValidationError (Unit {0})
unfolding validate_gpu_resources
validate_request cpu_cores gpu_count gpu_vram_bytes_per_device =
    if cpu_cores == 0
    then err zero_cpu_cores
    else validate_gpu_resources gpu_count gpu_vram_bytes_per_device

-- `ResourceRequest::new`, by which the wire format is read too.
unfoldable pub new_request : ℕ → ℕ → ℕ → ℕ → Result ResourceValidationError ResourceRequest
unfolding validate_request
new_request cpu ram gpus vram = do
  validate_request cpu gpus vram
  ok (record {
    cpu_cores = cpu;
    ram_bytes = ram;
    gpu_count = gpus;
    gpu_vram_bytes_per_device = vram;
  })

-- `ResourceCapacity::new`.
unfoldable pub new_capacity : ℕ → ℕ → ℕ → ℕ → Result ResourceValidationError ResourceCapacity
unfolding validate_gpu_resources
new_capacity cpu ram gpus vram = do
  validate_gpu_resources gpus vram
  ok (record {
    cpu_cores = cpu;
    ram_bytes = ram;
    gpu_count = gpus;
    gpu_vram_bytes_per_device = vram;
  })

unfoldable pub fits : ResourceCapacity → ResourceRequest → Bool
fits c r =
    leb r.cpu_cores c.cpu_cores
    && leb r.ram_bytes c.ram_bytes
    && leb r.gpu_count c.gpu_count
    && leb r.gpu_vram_bytes_per_device c.gpu_vram_bytes_per_device

-- The subtractions stand behind `fits`, so none of them underflows.
unfoldable pub checked_reserve : ResourceCapacity → ResourceRequest → Option ResourceCapacity
unfolding fits
checked_reserve c r =
    let left = c.gpu_count - r.gpu_count in
    if fits c r
    then some (record {
      cpu_cores = c.cpu_cores - r.cpu_cores;
      ram_bytes = c.ram_bytes - r.ram_bytes;
      gpu_count = left;
      gpu_vram_bytes_per_device = if not (left == 0) then c.gpu_vram_bytes_per_device else 0;
    })
    else none
