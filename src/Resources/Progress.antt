-- ===== src/Resources/Progress.antt =====
-- src/solver/portfolio/resources.rs: what acquisitions answer, and when a wait ends.
use troute.Prelude.{
  ℕ, ◌+◌, ◌<◌, Bool, true, ◌||◌, some, ok, List, [], ◌∷◌, ◌≡◌, arith, get_elem?, zero, suc,
}
use troute.Prelude.Options.{is_some}
use troute.Resources.{
  u64_modulus, unwrap_or_zero, ResourceLimits, ResourceRequest, ResourceManager, new,
  exceeds_memory, validate_request, fits_memory, fits, reserve, release, drop, try_acquire, Round,
  acquire_loop, acquire_until,
}

-- A request that passes the validation is served by every manager that was just created.
pub try_acquire-new :
    (limits : ResourceLimits) {m : ResourceManager} (r : ResourceRequest)
    → new limits ≡ ok m
    → validate_request limits r ≡ ok tt
    → (m' : ResourceManager) × (try_acquire m r ≡ ok (r, m'))
unfolding new validate_request exceeds_memory try_acquire fits fits_memory
try_acquire-new limits {m} r e v = (record m { usage = reserve m.usage r }, ground arith)

-- Dropping a lease just acquired restores the manager, where the usage stays below the greatest
-- 64-bit number.
pub drop-try_acquire :
    (m : ResourceManager) (r : ResourceRequest) {r' : ResourceRequest} {m' : ResourceManager}
    → m.usage.active_runs + 1 < u64_modulus
    → m.usage.logical_cpu_slots + r.logical_cpu_slots < u64_modulus
    → m.usage.external_processes + r.external_processes < u64_modulus
    → m.usage.memory_hint_bytes + unwrap_or_zero r.memory_hint_bytes < u64_modulus
    → try_acquire m r ≡ ok (r', m')
    → drop m' r' ≡ m
unfolding drop release try_acquire reserve
drop-try_acquire m r {r'} {m'} a b c d e = ground arith

-- A round in which the loop ends even if the resources are never released.
abbrev pub is_last : Round → Bool
is_last round = round.is_cancelled || round.remaining_is_zero

acquire_loop-is_some :
    (m : ResourceManager) (r : ResourceRequest) (rounds : List Round) (i : ℕ) {round : Round}
    → get_elem? rounds i ≡ some round
    → is_last round ≡ true
    → is_some (acquire_loop m r rounds) ≡ true
unfolding acquire_loop
acquire_loop-is_some m r [] i e l = cc
acquire_loop-is_some m r (round ∷ rounds) zero e l = ground arith
acquire_loop-is_some m r (round ∷ rounds) (suc i) e l =
    ground (arith, acquire_loop-is_some (record m { usage = round.next }) r rounds i e l)

-- A wait ends at the latest in the first round in which the run is cancelled or its time is over.
pub acquire_until-is_some :
    (m : ResourceManager) (r : ResourceRequest) (rounds : List Round) (i : ℕ) {round : Round}
    → get_elem? rounds i ≡ some round
    → is_last round ≡ true
    → is_some (acquire_until m r rounds) ≡ true
unfolding acquire_until
acquire_until-is_some m r rounds i e l = ground (arith, acquire_loop-is_some m r rounds i e l)
