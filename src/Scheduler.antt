-- ===== src/Scheduler.antt =====
-- crates/zkie-runtime/src/scheduler.rs: which of the ready jobs start now, on the resources that
-- are left. An `expect` that fails is the error `panicked`. The scheduler's clock is an argument in
-- seconds, the database's clock one in milliseconds.
pub mod Specs
pub mod Fit
pub mod Fill
pub mod Place
pub mod Decide
pub mod Aging
use zk_ie.Common.{
  ℕ, suc, ◌+◌, ◌-◌, ◌*◌, ◌/◌, min, compare, Ordering, Bool, true, false, not, ◌&&◌, Option, none,
  some, List, [], ◌∷◌, Result, ok, err, ◌>>=◌, String, if◌then◌else◌, ◌==◌, then_with, length, find,
  retain, any, ◌++◌,
}
use zk_ie.Common.Int.{ℤ, cmp_ℤ, leb_ℤ, saturating_sub}
use zk_ie.Common.Sort.{sort_by}
use zk_ie.Common.Text.{str_eq, cmp_str}
use zk_ie.Resource.{ResourceRequest, ResourceCapacity, fits, checked_reserve}
use zk_ie.Monitor.{MemoryAction}
use zk_ie.State.{JobState}
use zk_ie.Db.Tables.{RunDb, DbError, job_not_found, find_job}
use zk_ie.Db.Readiness.{refresh_readiness, required_predecessors_verified}

pub record SchedulerConfig : Type 0 where
  pub capacity : ResourceCapacity
  pub aging_seconds : ℤ

pub record SchedulableJob : Type 0 where
  pub job_id : String
  pub request : ResourceRequest
  pub ready_since_unix_seconds : ℤ

pub record SchedulerDecision : Type 0 where
  pub selected : List String
  pub remaining : ResourceCapacity
  pub reserved_for : Option String

pub data SchedulerError : Type 0 where
  database : DbError → SchedulerError
  duplicate_candidate : String → SchedulerError
  panicked : SchedulerError

-- `DEFAULT_AGING_SECONDS` and `SchedulerConfig::new`.
abbrev pub new_config : ResourceCapacity → SchedulerConfig
new_config capacity = record { capacity = capacity; aging_seconds = ℤ.pos 600 }

abbrev pub scale : ℕ
scale = 1000000000000

unfoldable pub normalized_leftover : ℕ → ℕ → ℕ
normalized_leftover leftover capacity = if capacity == 0 then 0 else leftover * scale / capacity

unfoldable pub fit_score : ResourceRequest → ResourceCapacity → ℕ
unfolding normalized_leftover
fit_score request available =
    let ram = normalized_leftover (available.ram_bytes - request.ram_bytes) available.ram_bytes in
    let cpu = normalized_leftover (available.cpu_cores - request.cpu_cores) available.cpu_cores in
    let gpu = normalized_leftover (available.gpu_count - request.gpu_count) available.gpu_count in
    let vram =
      normalized_leftover (available.gpu_vram_bytes_per_device - request.gpu_vram_bytes_per_device)
        available.gpu_vram_bytes_per_device in
    ram
    + cpu
    + (if available.gpu_count == 0 then 0 else gpu + (if request.gpu_count == 0 then 0 else vram))

-- Both orders end on the job's id.
abbrev pub compare_age : SchedulableJob → SchedulableJob → Ordering
compare_age left right =
    then_with (cmp_ℤ left.ready_since_unix_seconds right.ready_since_unix_seconds)
      (cmp_str left.job_id right.job_id)

unfoldable pub compare_fit : ResourceCapacity → SchedulableJob → SchedulableJob → Ordering
compare_fit available left right =
    then_with (compare (fit_score left.request available) (fit_score right.request available))
      (compare_age left right)

abbrev pub is_gt : Ordering → Bool
is_gt Ordering.gt = true
is_gt _ = false

-- `iter().enumerate().filter(fits).min_by(compare_fit)`: the first of the least ones, with its index.
unfoldable pub best_from :
    ResourceCapacity
    → List SchedulableJob
    → ℕ
    → Option (ℕ × SchedulableJob)
    → Option (ℕ × SchedulableJob)
best_from remaining [] i best = best
best_from remaining (c ∷ cs) i none =
    let take = best_from remaining cs (suc i) (some (i, c)) in
    let pass = best_from remaining cs (suc i) none in
    if fits remaining c.request then take else pass
best_from remaining (c ∷ cs) i (some best) =
    let take = best_from remaining cs (suc i) (some (i, c)) in
    let pass = best_from remaining cs (suc i) (some best) in
    if fits remaining c.request && is_gt (compare_fit remaining best.1 c) then take else pass

abbrev pub best_fit : ResourceCapacity → List SchedulableJob → Option (ℕ × SchedulableJob)
best_fit remaining cs = best_from remaining cs 0 none

-- `Vec::remove`, at an index in range.
abbrev pub remove_at : ℕ → List SchedulableJob → List SchedulableJob
remove_at i [] = []
remove_at ℕ.zero (c ∷ cs) = cs
remove_at (suc i) (c ∷ cs) = c ∷ remove_at i cs

-- The loop takes a candidate out on every turn, so as many turns as candidates, and one more to
-- find none, are enough.
unfoldable pub fill :
    ℕ
    → ResourceCapacity
    → List SchedulableJob
    → Result SchedulerError (List String × ResourceCapacity)
fill ℕ.zero remaining eligible = err SchedulerError.panicked
fill (suc fuel) remaining eligible = elim (best_fit remaining eligible) [
  | none ↦ ok ([], remaining)
  | some (i, best) ↦ elim (checked_reserve remaining best.request) [
    | none ↦ err SchedulerError.panicked
    | some rest ↦ fill fuel rest (remove_at i eligible) >>= λ out. ok (best.job_id ∷ out.0, out.1)
  ]
]

-- The first candidate whose id was seen before.
unfoldable pub first_duplicate : List String → List SchedulableJob → Option String
first_duplicate seen [] = none
first_duplicate seen (c ∷ cs) =
    let rest = first_duplicate (c.job_id ∷ seen) cs in
    if any (λ id. str_eq id c.job_id) seen then some c.job_id else rest

-- What both the caller and the configuration offer.
unfoldable pub clamp : SchedulerConfig → ResourceCapacity → ResourceCapacity
clamp config available =
    let gpu_count = min available.gpu_count config.capacity.gpu_count in
    record {
      cpu_cores = min available.cpu_cores config.capacity.cpu_cores;
      ram_bytes = min available.ram_bytes config.capacity.ram_bytes;
      gpu_count = gpu_count;
      gpu_vram_bytes_per_device =
          if gpu_count == 0
          then 0
          else min available.gpu_vram_bytes_per_device config.capacity.gpu_vram_bytes_per_device;
    }

abbrev pub is_ready : JobState → Bool
is_ready JobState.ready = true
is_ready _ = false

-- `db.job(..)?.state == Ready && db.required_predecessors_verified(..)?`.
unfoldable pub is_eligible : RunDb → SchedulableJob → Result DbError Bool
is_eligible db c = elim (find_job c.job_id db.jobs) [
  | none ↦ err (job_not_found c.job_id)
  | some row ↦
      let verified = required_predecessors_verified db c.job_id in
      if is_ready row.state then verified else ok false
]

unfoldable pub eligible_of :
    RunDb → List SchedulableJob → Result SchedulerError (List SchedulableJob)
eligible_of db [] = ok []
eligible_of db (c ∷ cs) =
    let rest = eligible_of db cs in
    elim (is_eligible db c) [
      | err e ↦ err (SchedulerError.database e)
      | ok keep ↦ rest >>= λ kept. ok (if keep then c ∷ kept else kept)
    ]

-- Could run on the whole machine, and has waited for the aging time.
unfoldable pub is_aged : SchedulerConfig → ℤ → SchedulableJob → Bool
is_aged config now c =
    fits config.capacity c.request
    && leb_ℤ config.aging_seconds (saturating_sub now c.ready_since_unix_seconds)

abbrev pub decision :
    List String
    → Result SchedulerError (List String × ResourceCapacity)
    → Result SchedulerError SchedulerDecision
decision first (ok (ids, rest)) =
    ok (record { selected = first ++ ids; remaining = rest; reserved_for = none })
decision first (err e) = err e

unfoldable pub place :
    SchedulerConfig
    → ResourceCapacity
    → List SchedulableJob
    → ℤ
    → Result SchedulerError SchedulerDecision
place config available eligible now = elim (find (is_aged config now) eligible) [
  | none ↦ decision [] (fill (suc (length eligible)) available eligible)
  | some aged ↦ elim (fits available aged.request) [
    | false ↦ ok (record { selected = []; remaining = available; reserved_for = some aged.job_id })
    | true ↦ elim (checked_reserve available aged.request) [
      | none ↦ err SchedulerError.panicked
      | some remaining ↦
          let others = retain (λ c. not (str_eq c.job_id aged.job_id)) eligible in
          decision (aged.job_id ∷ []) (fill (suc (length others)) remaining others)
    ]
  ]
]

-- `decide` after the refresh of the database.
unfoldable pub decide_ready :
    SchedulerConfig
    → RunDb
    → List SchedulableJob
    → ResourceCapacity
    → ℤ
    → Result SchedulerError SchedulerDecision
decide_ready config db candidates available now = eligible_of db candidates >>= λ eligible.
    place config (clamp config available) (sort_by compare_age eligible) now

-- The refresh is a transaction of its own: it stands also where the rest of `decide` fails.
unfoldable pub decide :
    SchedulerConfig
    → RunDb
    → List SchedulableJob
    → ResourceCapacity
    → ℕ
    → ℤ
    → RunDb × Result SchedulerError SchedulerDecision
decide config db candidates available now_ms now = elim (first_duplicate [] candidates) [
  | some id ↦ (db, err (SchedulerError.duplicate_candidate id))
  | none ↦ elim (refresh_readiness db now_ms) [
    | err e ↦ (db, err (SchedulerError.database e))
    | ok out ↦ (out.0, decide_ready config out.0 candidates available now)
  ]
]

unfoldable pub decide_with_memory :
    SchedulerConfig
    → RunDb
    → List SchedulableJob
    → ResourceCapacity
    → MemoryAction
    → ℕ
    → ℤ
    → RunDb × Result SchedulerError SchedulerDecision
decide_with_memory config db candidates available memory now_ms now = elim memory [
  | MemoryAction.admit ↦ decide config db candidates available now_ms now
  | _ ↦ (db, ok (record { selected = []; remaining = available; reserved_for = none }))
]
