-- ===== src/Jobs/History.antt =====
-- src/storage.rs: histories of a store, of any operations in any order, each of which may fail at
-- any of its writes, and of restarts.
use troute.Prelude.{ℕ, Bool, false, Option, none, some, ok, List, [], ◌∷◌, ◌≡◌, arith}
use troute.Jobs.Progress.{ProgressStage}
use troute.Jobs.{is_active, JobState, OptimizeRouteRequest, StoredJobError, StoredJob}
use troute.Jobs.Store.{FileJobStore, or_empty, job_dir, read_file}
use troute.Jobs.Operations.{
  directory_exists, create_job, mark_running, update_progress, save_result, save_error, cancel_job,
}
use troute.Jobs.Recovery.{read_optional, recover_interrupted, record_event_sequence, get_job}
use troute.Jobs.Invariant.{Evidence, Good-find, Invariant, state_of}
use troute.Jobs.Writes.{directory_of}
use troute.Jobs.Kept.{mark_running-Invariant, update_progress-Invariant}
use troute.Jobs.Terminal.{save_result-Invariant, save_error-Invariant}
use troute.Jobs.Lifecycle.{create_job-Invariant, cancel_job-Invariant}
use troute.Jobs.Restart.{recover_interrupted-Invariant, record_event_sequence-Invariant}

-- The operations that write, each with its arguments and its reading of the clock. A restart sets
-- which writes succeed from then on, and recovers with two listings of the directories.
pub data StoreOperation : Type 0 where
  creates : OptimizeRouteRequest → (now : ℕ) → StoreOperation
  starts : (job_id : List ℕ) → (now : ℕ) → StoreOperation
  reports :
      (job_id : List ℕ)
      → ProgressStage
      → (progress : ℕ) → (message : Option (List ℕ)) → (now : ℕ) → StoreOperation
  saves_result : (job_id result : List ℕ) → (now : ℕ) → StoreOperation
  saves_error : (job_id : List ℕ) → StoredJobError → (now : ℕ) → StoreOperation
  cancels : (job_id message : List ℕ) → (now : ℕ) → StoreOperation
  records : (job_id : List ℕ) → (sequence : ℕ) → StoreOperation
  restarts :
      (outcomes : List Bool)
      → (listing relisting : List (List ℕ) → List (List ℕ)) → (now : ℕ) → StoreOperation

-- The store after an operation, whatever it answers.
unfoldable pub step : StoreOperation → FileJobStore → FileJobStore
step (StoreOperation.creates request now) store = (create_job request now store).1
step (StoreOperation.starts job_id now) store = (mark_running job_id now store).1
step (StoreOperation.reports job_id stage progress message now) store =
    (update_progress job_id stage progress message now store).1
step (StoreOperation.saves_result job_id result now) store = (save_result job_id result now store).1
step (StoreOperation.saves_error job_id error now) store = (save_error job_id error now store).1
step (StoreOperation.cancels job_id message now) store = (cancel_job job_id message now store).1
step (StoreOperation.records job_id sequence) store =
    (record_event_sequence job_id sequence store).1
step (StoreOperation.restarts outcomes listing relisting now) store =
    (recover_interrupted listing relisting now (record store { outcomes = outcomes })).1

unfoldable pub replay : List StoreOperation → FileJobStore → FileJobStore
unfolding step
replay [] store = store
replay (operation ∷ operations) store = replay operations (step operation store)

module _ (kept : Option (List ℕ × JobState)) where
  step-Invariant :
      (operation : StoreOperation) (store : FileJobStore)
      → Invariant kept store
      → Invariant kept (step operation store)
  unfolding step
  step-Invariant (StoreOperation.creates request now) store h =
      create_job-Invariant kept request now store h
  step-Invariant (StoreOperation.starts job_id now) store h =
      mark_running-Invariant kept job_id now store h
  step-Invariant (StoreOperation.reports job_id stage progress message now) store h =
      update_progress-Invariant kept job_id stage progress message now store h
  step-Invariant (StoreOperation.saves_result job_id result now) store h =
      save_result-Invariant kept job_id result now store h
  step-Invariant (StoreOperation.saves_error job_id error now) store h =
      save_error-Invariant kept job_id error now store h
  step-Invariant (StoreOperation.cancels job_id message now) store h =
      cancel_job-Invariant kept job_id message now store h
  step-Invariant (StoreOperation.records job_id sequence) store h =
      record_event_sequence-Invariant kept job_id sequence store h
  step-Invariant (StoreOperation.restarts outcomes listing relisting now) store h =
      recover_interrupted-Invariant kept listing relisting now
        (record store { outcomes = outcomes }) h

  replay-Invariant :
      (operations : List StoreOperation) (store : FileJobStore)
      → Invariant kept store
      → Invariant kept (replay operations store)
  unfolding replay
  replay-Invariant [] store h = h
  replay-Invariant (operation ∷ operations) store h =
      replay-Invariant operations (step operation store) (step-Invariant operation store h)

abbrev pub new_store : List Bool → FileJobStore
new_store outcomes = record { directories = []; index = none; outcomes = outcomes }

-- A job that is over stays as it is: after any history of a new store, a state that is completed,
-- failed or cancelled is the same after every further history, whatever operations it has, whichever
-- of their writes fail, and whenever the store restarts.
pub replay-final :
    (before later : List StoreOperation) (outcomes : List Bool) (name : List ℕ) {state : JobState}
    → state_of (replay before (new_store outcomes)).directories name ≡ some state
    → is_active state.status ≡ false
    → state_of (replay later (replay before (new_store outcomes))).directories name ≡ some state
replay-final before later outcomes name {state} found over =
    let (good, u) = replay-Invariant none before (new_store outcomes) (tt, tt) in
    (replay-Invariant (some (name, state)) later (replay before (new_store outcomes))
      (good, (over, found))).1.1

-- A job that is read is what is in its directory.
get_job-some :
    (job_id : List ℕ) (store after : FileJobStore) {job : StoredJob}
    → get_job job_id store ≡ (ok (some job), after)
    → (state_of store.directories (job_dir job_id) ≡ some job.state)
      × ((directory_of store (job_dir job_id)).result ≡ job.result)
      × ((directory_of store (job_dir job_id)).error ≡ job.error)
unfolding get_job directory_exists read_file read_optional or_empty
get_job-some job_id store after e = ground arith

-- What is read of a job has the evidence of its status: after any history of a new store, whichever
-- of its writes fail, a job that reads as completed has a result and stands at 100, one that reads as
-- failed has an error, and no progress is above 100.
pub replay-Evidence :
    (operations : List StoreOperation) (outcomes : List Bool) (job_id : List ℕ) {job : StoredJob}
    {after : FileJobStore}
    → get_job job_id (replay operations (new_store outcomes)) ≡ (ok (some job), after)
    → Evidence job.state.status job.state.progress job.result job.error
replay-Evidence operations outcomes job_id {job} {after} e =
    let store = replay operations (new_store outcomes) in
    let (good, u) = replay-Invariant none operations (new_store outcomes) (tt, tt) in
    let (state, result, error) = get_job-some job_id store after {job = job} e in
    (simp (state, result, error) at (Good-find store.directories (job_dir job_id) good)).1
