-- ===== src/Resources/Tests.antt =====
-- A machine of two slots with a memory limit, and a run that takes one of them.
use troute.Prelude.{true, false, some, ok, err, [], ◌∷◌, ◌≡◌, refl, arith}
use troute.Prelude.Options.{is_some}
use troute.Resources.{
  ResourceLimits, ResourceRequest, ResourceError, ResourceManager, no_usage, new, validate_request,
  drop, try_acquire, Round, acquire_until,
}
use troute.Resources.Conservation.{Accounts, Step, Reachable, Reachable-Accounts}
use troute.Resources.Progress.{try_acquire-new, drop-try_acquire, acquire_until-is_some}

abbrev two_slots : ResourceLimits
two_slots = record {
  logical_cpu_slots = 2;
  max_concurrent_runs = 3;
  max_external_processes = 1;
  memory_limit_bytes = some 100;
}

abbrev one_slot : ResourceRequest
one_slot = record {
  logical_cpu_slots = 1;
  native_threads = 1;
  external_processes = 0;
  memory_hint_bytes = some 60;
}

abbrev idle : ResourceManager
idle = record { limits = two_slots; usage = no_usage }

abbrev busy : ResourceManager
busy = record {
  limits = two_slots;
  usage = record {
    logical_cpu_slots = 1;
    active_runs = 1;
    external_processes = 0;
    memory_hint_bytes = 60;
  };
}

abbrev timed_out : Round
timed_out = record { is_cancelled = false; remaining_is_zero = true; next = busy.usage }

acquires : try_acquire idle one_slot ≡ ok (one_slot, busy)
unfolding try_acquire
acquires = refl

memory_runs_out : try_acquire busy one_slot ≡ err ResourceError.unavailable
unfolding try_acquire
memory_runs_out = refl

deadline_passes :
    acquire_until busy one_slot (timed_out ∷ []) ≡ some (err ResourceError.deadline_exceeded)
unfolding acquire_until
deadline_passes = refl

Reachable-Accounts_example : Accounts busy (one_slot ∷ []) × (busy.limits ≡ two_slots)
unfolding new try_acquire
Reachable-Accounts_example =
    Reachable-Accounts two_slots (omega arith, omega arith, omega arith, omega arith)
      (Reachable.stepped (Reachable.created {m = idle} refl) (Step.tried one_slot refl))

try_acquire-new_example : (m : ResourceManager) × (try_acquire idle one_slot ≡ ok (one_slot, m))
unfolding new validate_request
try_acquire-new_example = try_acquire-new two_slots {m = idle} one_slot refl refl

drop-try_acquire_example : drop busy one_slot ≡ idle
drop-try_acquire_example =
    drop-try_acquire idle one_slot (omega arith) (omega arith) (omega arith) (omega arith) acquires

acquire_until-is_some_example : is_some (acquire_until busy one_slot (timed_out ∷ [])) ≡ true
acquire_until-is_some_example = acquire_until-is_some busy one_slot (timed_out ∷ []) 0 refl refl
