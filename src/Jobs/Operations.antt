-- ===== src/Jobs/Operations.antt =====
-- src/storage.rs, the trait `JobStore` for `FileJobStore`.
use troute.Prelude.{
  ℕ, min, max, Bool, false, not, if◌then◌else◌, ltb, Option, none, some, Result, ok, err, List,
}
use troute.Prelude.Options.{is_some}
use troute.Jobs.Progress.{ProgressStage, stage_index}
use troute.Jobs.{
  JobStatus, is_active, TerminalWriteOutcome, JobState, OptimizeRouteRequest, StoredJobError,
  JobStoreError,
}
use troute.Jobs.Store.{
  empty_directory, find_directory, Action, ◌>>=◌, ◌>>◌, return, fail, job_dir, atomic_write,
  write_file, read_state, write_state, update_index_entry,
}

-- Whether a directory exists.
unfoldable pub directory_exists : List ℕ → Action Bool
directory_exists name store = (ok (is_some (find_directory store.directories name)), store)

unfoldable pub create_job : OptimizeRouteRequest → (now : ℕ) → Action JobState
unfolding directory_exists atomic_write write_file write_state update_index_entry
create_job request timestamp = do
  exists ← directory_exists (job_dir request.job_id)
  if exists then fail (JobStoreError.duplicate_job request.job_id) else do
    write_file (job_dir request.job_id) (λ d. empty_directory)
    write_file (job_dir request.job_id) (λ d. record d { request = some request })
    write_file (job_dir request.job_id) (λ d. record d { event_sequence = some 0 })
    let state : JobState = record {
      job_id = request.job_id;
      status = JobStatus.pending;
      stage = none;
      progress = 0;
      last_message = none;
      created_at = timestamp;
      updated_at = timestamp;
      completed_at = none;
    }
    write_state state
    update_index_entry state
    return state

unfoldable pub mutate_state :
    List ℕ → (JobState → Result JobState JobStoreError) → (now : ℕ) → Action (Unit {0})
unfolding read_state write_state update_index_entry
mutate_state job_id mutate timestamp = do
  state ← read_state job_id
  elim (mutate state) [
    | err e ↦ fail e
    | ok mutated ↦ do
      write_state (record mutated { updated_at = timestamp })
      update_index_entry (record mutated { updated_at = timestamp })
  ]

unfoldable pub to_running : List ℕ → JobState → Result JobState JobStoreError
unfolding is_active
to_running job_id state =
    if is_active state.status
    then ok (record state { status = JobStatus.running })
    else err (JobStoreError.invalid_transition job_id state.status)

unfoldable pub mark_running : List ℕ → (now : ℕ) → Action (Unit {0})
unfolding mutate_state
mark_running job_id timestamp = mutate_state job_id (to_running job_id) timestamp

unfoldable pub is_behind : ProgressStage → Option ProgressStage → Bool
unfolding stage_index
is_behind stage none = false
is_behind stage (some current) = ltb (stage_index stage) (stage_index current)

unfoldable pub to_progress :
    List ℕ → ProgressStage → ℕ → Option (List ℕ) → JobState → Result JobState JobStoreError
unfolding is_active is_behind
to_progress job_id stage progress message state =
    if not (is_active state.status)
    then err (JobStoreError.invalid_transition job_id state.status)
    else if is_behind stage state.stage
    then ok state
    else ok (record state {
      status = JobStatus.running;
      stage = some stage;
      progress = max state.progress (min progress 100);
      last_message = message;
    })

unfoldable pub update_progress :
    List ℕ → ProgressStage → ℕ → Option (List ℕ) → (now : ℕ) → Action (Unit {0})
unfolding mutate_state
update_progress job_id stage progress message timestamp =
    mutate_state job_id (to_progress job_id stage progress message) timestamp

-- The state that a result or an error may follow, or none where the job was cancelled.
unfoldable pub prepare_terminal_write : List ℕ → Action (Option JobState)
unfolding directory_exists read_state
prepare_terminal_write job_id = do
  exists ← directory_exists (job_dir job_id)
  if not exists then fail (JobStoreError.job_not_found job_id) else do
    state ← read_state job_id
    elim state.status [
      | JobStatus.cancelled ↦ return none
      | JobStatus.running ↦ return (some state)
      | _ ↦ fail (JobStoreError.invalid_transition job_id state.status)
    ]

unfoldable pub terminal_state : JobState → JobStatus → ℕ → JobState
terminal_state state status timestamp = record state {
  status = status;
  progress = elim status [ JobStatus.completed ↦ 100 | _ ↦ state.progress ];
  updated_at = timestamp;
  completed_at = some timestamp;
}

unfoldable pub commit_terminal_state : JobState → JobStatus → (now : ℕ) → Action (Unit {0})
unfolding terminal_state write_state update_index_entry
commit_terminal_state state status timestamp = do
  write_state (terminal_state state status timestamp)
  update_index_entry (terminal_state state status timestamp)

unfoldable pub save_result : List ℕ → List ℕ → (now : ℕ) → Action TerminalWriteOutcome
unfolding prepare_terminal_write write_file commit_terminal_state
save_result job_id result timestamp = do
  prepared ← prepare_terminal_write job_id
  elim prepared [
    | none ↦ return TerminalWriteOutcome.cancelled_before
    | some state ↦ do
      write_file (job_dir job_id) (λ d. record d { result = some result })
      commit_terminal_state state JobStatus.completed timestamp
      return TerminalWriteOutcome.applied
  ]

unfoldable pub save_error : List ℕ → StoredJobError → (now : ℕ) → Action TerminalWriteOutcome
unfolding prepare_terminal_write write_file commit_terminal_state
save_error job_id error timestamp = do
  prepared ← prepare_terminal_write job_id
  elim prepared [
    | none ↦ return TerminalWriteOutcome.cancelled_before
    | some state ↦ do
      write_file (job_dir job_id) (λ d. record d { error = some error })
      commit_terminal_state state JobStatus.failed timestamp
      return TerminalWriteOutcome.applied
  ]

unfoldable pub cancelled_state : JobState → List ℕ → ℕ → JobState
cancelled_state state message timestamp = record state {
  status = JobStatus.cancelled;
  last_message = some message;
  updated_at = timestamp;
  completed_at = some timestamp;
}

unfoldable pub cancel_job : List ℕ → List ℕ → (now : ℕ) → Action JobState
unfolding directory_exists read_state is_active cancelled_state write_state update_index_entry
cancel_job job_id message timestamp = do
  exists ← directory_exists (job_dir job_id)
  if not exists then fail (JobStoreError.job_not_found job_id) else do
    state ← read_state job_id
    if not (is_active state.status)
        then fail (JobStoreError.job_not_cancellable job_id state.status)
        else do
          write_state (cancelled_state state message timestamp)
          update_index_entry (cancelled_state state message timestamp)
          return (cancelled_state state message timestamp)
