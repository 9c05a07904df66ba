-- ===== src/Resources/Conservation.antt =====
-- src/solver/portfolio/resources.rs: the usage, the live leases and the limits.
use troute.Prelude.{
  ℕ, ◌+◌, ◌-◌, ◌≤◌, ◌<◌, true, Option, none, some, ok, List, [], ◌∷◌, ◌++◌, length, length-append,
  ◌≡◌, refl, sym, subst, ◌∙◌, arith,
}
use troute.Resources.{
  u64_modulus, unwrap_or_zero, ResourceLimits, ResourceRequest, ResourceManager, new, fits_memory,
  fits, reserve, release, drop, try_acquire, Round, acquire_loop, acquire_until,
}

-- Limits of a 64-bit machine, the greatest number excepted, at which a saturated sum looks as if it
-- fitted.
abbrev pub MemoryLimitFits : Option ℕ → Type 0
MemoryLimitFits none = Unit
MemoryLimitFits (some limit) = limit < u64_modulus - 1

abbrev pub FitMachine : ResourceLimits → Type 0
FitMachine limits =
    (limits.logical_cpu_slots < u64_modulus - 1)
    × (limits.max_concurrent_runs < u64_modulus - 1)
    × (limits.max_external_processes < u64_modulus - 1)
    × MemoryLimitFits limits.memory_limit_bytes

abbrev pub total : (ResourceRequest → ℕ) → List ResourceRequest → ℕ
total amount [] = 0
total amount (lease ∷ leases) = amount lease + total amount leases

total-append :
    (amount : ResourceRequest → ℕ) (xs ys : List ResourceRequest)
    → total amount (xs ++ ys) ≡ total amount xs + total amount ys
total-append amount [] ys = omega arith
total-append amount (x ∷ xs) ys = omega (arith, total-append amount xs ys)

-- Memory is accounted for where there is a limit: without one the sum may saturate.
abbrev pub MemoryAccounts : Option ℕ → ℕ → ℕ → Type 0
MemoryAccounts none used leased = Unit
MemoryAccounts (some limit) used leased = (used ≡ leased) × (leased ≤ limit)

-- The manager's usage is what the live leases hold, and within the limits.
abbrev pub Accounts : ResourceManager → List ResourceRequest → Type 0
Accounts manager leases =
    (manager.usage.active_runs ≡ length leases)
    × (manager.usage.logical_cpu_slots ≡ total (λ r. r.logical_cpu_slots) leases)
    × (manager.usage.external_processes ≡ total (λ r. r.external_processes) leases)
    × (length leases ≤ manager.limits.max_concurrent_runs)
    × (total (λ r. r.logical_cpu_slots) leases ≤ manager.limits.logical_cpu_slots)
    × (total (λ r. r.external_processes) leases ≤ manager.limits.max_external_processes)
    × MemoryAccounts manager.limits.memory_limit_bytes manager.usage.memory_hint_bytes
        (total (λ r. unwrap_or_zero r.memory_hint_bytes) leases)

-- One action of a thread on the manager, with the leases that live before and after.
pub data Step
    : ResourceManager → List ResourceRequest → ResourceManager → List ResourceRequest → Type 0 where
  tried :
      {m m' : ResourceManager} {leases : List ResourceRequest} (r : ResourceRequest)
      → try_acquire m r ≡ ok (r, m')
      → Step m leases m' (r ∷ leases)
  waited :
      {m m' : ResourceManager} {leases : List ResourceRequest} (r : ResourceRequest) (round : Round)
      → acquire_until m r (round ∷ []) ≡ some (ok (r, m'))
      → Step m leases m' (r ∷ leases)
  dropped :
      {m : ResourceManager} (xs ys : List ResourceRequest) (r : ResourceRequest)
      → Step m (xs ++ (r ∷ ys)) (drop m r) (xs ++ ys)

pub data Reachable (limits : ResourceLimits) : ResourceManager → List ResourceRequest → Type 0 where
  created : {m : ResourceManager} → new limits ≡ ok m → Reachable limits m []
  stepped :
      {m m' : ResourceManager} {leases leases' : List ResourceRequest}
      → Reachable limits m leases
      → Step m leases m' leases'
      → Reachable limits m' leases'

reserve-Accounts :
    (m : ResourceManager) (leases : List ResourceRequest) (r : ResourceRequest)
    → FitMachine m.limits
    → Accounts m leases
    → fits m.limits m.usage r ≡ true
    → Accounts (record m { usage = reserve m.usage r }) (r ∷ leases)
unfolding fits fits_memory reserve
reserve-Accounts m leases r f a e = ground arith

drop-Accounts :
    (m : ResourceManager) (xs ys : List ResourceRequest) (r : ResourceRequest)
    → Accounts m (xs ++ (r ∷ ys))
    → Accounts (drop m r) (xs ++ ys)
unfolding drop release
drop-Accounts m xs ys r a = ground (
  arith,
  length-append xs (r ∷ ys),
  length-append xs ys,
  total-append (λ r. r.logical_cpu_slots) xs ys,
  total-append (λ r. r.logical_cpu_slots) xs (r ∷ ys),
  total-append (λ r. r.external_processes) xs ys,
  total-append (λ r. r.external_processes) xs (r ∷ ys),
  total-append (λ r. unwrap_or_zero r.memory_hint_bytes) xs ys,
  total-append (λ r. unwrap_or_zero r.memory_hint_bytes) xs (r ∷ ys),
)

-- What an acquisition that succeeds has checked and done.
Acquired : ResourceManager → ResourceRequest → ResourceManager → Type 0
Acquired m r m' = (fits m.limits m.usage r ≡ true) × (record m { usage = reserve m.usage r } ≡ m')

try_acquire-Acquired :
    (m m' : ResourceManager) (r r' : ResourceRequest)
    → try_acquire m r ≡ ok (r', m')
    → Acquired m r m'
unfolding try_acquire Acquired
try_acquire-Acquired m m' r r' e = ground arith

acquire_until-Acquired :
    (m m' : ResourceManager) (r r' : ResourceRequest) (round : Round)
    → acquire_until m r (round ∷ []) ≡ some (ok (r', m'))
    → Acquired m r m'
unfolding acquire_until acquire_loop Acquired
acquire_until-Acquired m m' r r' round e = ground arith

Acquired-Accounts :
    (m m' : ResourceManager) (leases : List ResourceRequest) (r : ResourceRequest)
    → FitMachine m.limits
    → Accounts m leases
    → Acquired m r m'
    → Accounts m' (r ∷ leases) × (m'.limits ≡ m.limits)
unfolding Acquired
Acquired-Accounts m m' leases r f a acquired =
    let (fitting, same) = acquired in
    subst (λ m'. Accounts m' (r ∷ leases) × (m'.limits ≡ m.limits)) same
      (reserve-Accounts m leases r f a fitting, refl)

Step-Accounts :
    {m m' : ResourceManager} {leases leases' : List ResourceRequest}
    → Step m leases m' leases'
    → FitMachine m.limits
    → Accounts m leases
    → Accounts m' leases' × (m'.limits ≡ m.limits)
unfolding drop
Step-Accounts {m} {m'} {leases} (Step.tried r e) f a =
    Acquired-Accounts m m' leases r f a (try_acquire-Acquired m m' r r e)
Step-Accounts {m} {m'} {leases} (Step.waited r round e) f a =
    Acquired-Accounts m m' leases r f a (acquire_until-Acquired m m' r r round e)
Step-Accounts {m} (Step.dropped xs ys r) f a = (drop-Accounts m xs ys r a, refl)

-- For limits below the greatest 64-bit number: whatever threads acquire, wait for and drop, in any
-- order, the usage counts the live leases, their slots, their processes and, where memory has a
-- limit, their memory, and all of these are within the limits.
pub Reachable-Accounts :
    (limits : ResourceLimits) {m : ResourceManager} {leases : List ResourceRequest}
    → FitMachine limits
    → Reachable limits m leases
    → Accounts m leases × (m.limits ≡ limits)
unfolding new
Reachable-Accounts limits {m} f (Reachable.created e) = ground arith
Reachable-Accounts limits f (Reachable.stepped r s) =
    let (a, e) = Reachable-Accounts limits f r in
    let (a', e') = Step-Accounts s (subst FitMachine (sym e) f) a in (a', e' ∙ e)
