-- ===== src/Resources.antt =====
-- src/solver/portfolio/resources.rs: the shared budget of CPU slots, runs, external processes and
-- memory, from which solver runs lease.
pub mod Conservation
pub mod Progress
mod Tests
use troute.Prelude.{
  ℕ, ◌+◌, ◌-◌, ◌*◌, ◌%◌, ◌^◌, Bool, true, false, ◌&&◌, ◌||◌, not, if◌then◌else◌, ltb, leb, ◌==◌,
  Option, none, some, Result, ok, err, List, [], ◌∷◌,
}

-- `usize` is 64 bits.
abbrev pub u64_modulus : ℕ
u64_modulus = 2 ^ 64

abbrev pub saturating_add64 : ℕ → ℕ → ℕ
saturating_add64 a b = if ltb (a + b) u64_modulus then a + b else u64_modulus - 1

abbrev pub unwrap_or_zero : Option ℕ → ℕ
unwrap_or_zero none = 0
unwrap_or_zero (some n) = n

pub record ResourceLimits : Type 0 where
  pub logical_cpu_slots : ℕ
  pub max_concurrent_runs : ℕ
  pub max_external_processes : ℕ
  pub memory_limit_bytes : Option ℕ

pub record ResourceRequest : Type 0 where
  pub logical_cpu_slots : ℕ
  pub native_threads : ℕ
  pub external_processes : ℕ
  pub memory_hint_bytes : Option ℕ

pub record ResourceUsage : Type 0 where
  pub logical_cpu_slots : ℕ
  pub active_runs : ℕ
  pub external_processes : ℕ
  pub memory_hint_bytes : ℕ

pub data ResourceError : Type 0 where
  invalid_limits invalid_request unavailable cancelled deadline_exceeded : ResourceError

-- The limits never change, and the usage is what the mutex guards.
pub record ResourceManager : Type 0 where
  pub limits : ResourceLimits
  pub usage : ResourceUsage

abbrev pub no_usage : ResourceUsage
no_usage = record {
  logical_cpu_slots = 0;
  active_runs = 0;
  external_processes = 0;
  memory_hint_bytes = 0;
}

unfoldable pub new : ResourceLimits → Result ResourceManager ResourceError
new limits =
    if (limits.logical_cpu_slots == 0) || (limits.max_concurrent_runs == 0)
    then err ResourceError.invalid_limits
    else ok (record { limits = limits; usage = no_usage })

unfoldable pub exceeds_memory : Option ℕ → Option ℕ → Bool
exceeds_memory (some requested) (some limit) = ltb limit requested
exceeds_memory requested limit = false

unfoldable pub validate_request : ResourceLimits → ResourceRequest → Result (Unit {0}) ResourceError
unfolding exceeds_memory
validate_request limits request =
    if (request.logical_cpu_slots == 0)
      || (request.native_threads == 0)
      || ltb request.logical_cpu_slots request.native_threads
      || ltb limits.logical_cpu_slots request.logical_cpu_slots
      || ltb limits.max_external_processes request.external_processes
      || exceeds_memory request.memory_hint_bytes limits.memory_limit_bytes
    then err ResourceError.invalid_request
    else ok tt

unfoldable pub fits_memory : Option ℕ → ℕ → Option ℕ → Bool
fits_memory none used hint = true
fits_memory (some limit) used hint = leb (saturating_add64 used (unwrap_or_zero hint)) limit

unfoldable pub fits : ResourceLimits → ResourceUsage → ResourceRequest → Bool
unfolding fits_memory
fits limits usage request =
    ltb usage.active_runs limits.max_concurrent_runs
    && leb (saturating_add64 usage.logical_cpu_slots request.logical_cpu_slots)
        limits.logical_cpu_slots
    && leb (saturating_add64 usage.external_processes request.external_processes)
        limits.max_external_processes
    && fits_memory limits.memory_limit_bytes usage.memory_hint_bytes request.memory_hint_bytes

-- The first three sums are plain `+=`, which wrap around.
unfoldable pub reserve : ResourceUsage → ResourceRequest → ResourceUsage
reserve usage request = record {
  logical_cpu_slots = (usage.logical_cpu_slots + request.logical_cpu_slots) % u64_modulus;
  active_runs = (usage.active_runs + 1) % u64_modulus;
  external_processes = (usage.external_processes + request.external_processes) % u64_modulus;
  memory_hint_bytes =
      saturating_add64 usage.memory_hint_bytes (unwrap_or_zero request.memory_hint_bytes);
}

-- `Drop` of a lease: all subtractions stop at 0.
unfoldable pub release : ResourceUsage → ResourceRequest → ResourceUsage
release usage request = record {
  logical_cpu_slots = usage.logical_cpu_slots - request.logical_cpu_slots;
  active_runs = usage.active_runs - 1;
  external_processes = usage.external_processes - request.external_processes;
  memory_hint_bytes = usage.memory_hint_bytes - unwrap_or_zero request.memory_hint_bytes;
}

unfoldable pub drop : ResourceManager → ResourceRequest → ResourceManager
unfolding release
drop manager request = record manager { usage = release manager.usage request }

-- A lease is the request that it was given for.
unfoldable pub try_acquire :
    ResourceManager → ResourceRequest → Result (ResourceRequest × ResourceManager) ResourceError
unfolding validate_request fits reserve
try_acquire manager request = elim (validate_request manager.limits request) [
  | err e ↦ err e
  | ok u ↦
      if not (fits manager.limits manager.usage request)
      then err ResourceError.unavailable
      else ok (request, record manager { usage = reserve manager.usage request })
]

-- What a waiting thread meets in one round: whether the run is cancelled, whether its time is over,
-- and the usage when it next holds the lock.
pub record Round : Type 0 where
  pub is_cancelled : Bool
  pub remaining_is_zero : Bool
  pub next : ResourceUsage

-- The loop of `acquire_until`, over the rounds that the other threads and the clock make. The list
-- ends while the thread is still waiting, written as no answer.
unfoldable pub acquire_loop :
    ResourceManager
    → ResourceRequest
    → List Round
    → Option (Result (ResourceRequest × ResourceManager) ResourceError)
unfolding fits reserve
acquire_loop manager request [] = none
acquire_loop manager request (round ∷ rounds) =
    let later = acquire_loop (record manager { usage = round.next }) request rounds in
    if round.is_cancelled
    then some (err ResourceError.cancelled)
    else if fits manager.limits manager.usage request
    then some (ok (request, record manager { usage = reserve manager.usage request }))
    else if round.remaining_is_zero
    then some (err ResourceError.deadline_exceeded)
    else later

unfoldable pub acquire_until :
    ResourceManager
    → ResourceRequest
    → List Round
    → Option (Result (ResourceRequest × ResourceManager) ResourceError)
unfolding validate_request acquire_loop
acquire_until manager request rounds = elim (validate_request manager.limits request) [
  | err e ↦ some (err e)
  | ok u ↦ acquire_loop manager request rounds
]

-- `reserved_slot_ms`, from the milliseconds since the lease was given.
unfoldable pub reserved_slot_ms : ResourceRequest → ℕ → ℕ
reserved_slot_ms request elapsed =
    let millis : ℕ = if ltb elapsed u64_modulus then elapsed else u64_modulus - 1 in
    let product = millis * request.logical_cpu_slots in
    if ltb product u64_modulus then product else u64_modulus - 1
