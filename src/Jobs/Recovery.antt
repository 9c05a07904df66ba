-- ===== src/Jobs/Recovery.antt =====
-- src/storage.rs: recovery after a restart, the rebuilt index, and the reads.
use troute.Prelude.{
  ℕ, zero, suc, ◌+◌, ◌-◌, ◌^◌, not, if◌then◌else◌, ltb, Option, none, some, ok, List, [], ◌∷◌,
}
use troute.Jobs.{
  JobStatus, is_active, JobState, StoredJobError, StoredJob, JobIndexEntry, JobStoreError,
}
use troute.Jobs.Store.{
  JobDirectory, find_directory, Action, ◌>>=◌, ◌>>◌, return, fail, job_dir, atomic_write,
  write_file, read_file, index_entry, sort_index, read_index,
}
use troute.Jobs.Operations.{directory_exists}

-- `read_optional_json` of a file.
unfoldable pub read_optional : {A : Type 0} → List ℕ → (JobDirectory → Option A) → Action (Option A)
read_optional name file store = elim (find_directory store.directories name) [
  | none ↦ (ok none, store)
  | some directory ↦ (ok (file directory), store)
]

-- The directories of the store. The file system lists them in an order of its own, which is a
-- parameter of what reads them (`read_directories`).
unfoldable pub directory_names : List (List ℕ × JobDirectory) → List (List ℕ)
directory_names [] = []
directory_names (entry ∷ entries) = entry.0 ∷ directory_names entries

abbrev pub interrupted : StoredJobError
interrupted = record {
  code = "JOB_INTERRUPTED";
  message = "Job was interrupted by troute restart";
  detail = "troute restarted before the job reached a terminal state";
  failure_detail = none;
  suggestions = none;
}

abbrev pub next_sequence : Option ℕ → ℕ
next_sequence none = 1
next_sequence (some sequence) = if ltb (sequence + 1) (2 ^ 64) then sequence + 1 else 2 ^ 64 - 1

unfoldable pub failed_state : JobState → ℕ → JobState
failed_state state timestamp = record state {
  status = JobStatus.failed;
  updated_at = timestamp;
  completed_at = some timestamp;
}

-- One directory of `recover_interrupted`, which counts where it recovers a job.
unfoldable pub recover_directory : List ℕ → (now : ℕ) → Action ℕ
unfolding read_optional is_active failed_state write_file
recover_directory name timestamp = do
  found ← read_optional name (λ d. d.state)
  elim found [
    | none ↦ return 0
    | some state ↦ if not (is_active state.status) then return 0 else do
      write_file name (λ d. record d { error = some interrupted })
      write_file name (λ d. record d { state = some (failed_state state timestamp) })
      sequence ← read_optional name (λ d. d.event_sequence)
      write_file name (λ d. record d { event_sequence = some (next_sequence sequence) })
      return 1
  ]

-- The clock may move on between two directories; one reading of it stands for all.
unfoldable pub recover_directories : List (List ℕ) → (now : ℕ) → Action ℕ
unfolding recover_directory
recover_directories [] timestamp = return 0
recover_directories (name ∷ names) timestamp = do
  recovered ← recover_directory name timestamp
  more ← recover_directories names timestamp
  return (recovered + more)

unfoldable pub collect_entries : List (List ℕ) → Action (List JobIndexEntry)
unfolding read_optional read_file index_entry
collect_entries [] = return []
collect_entries (name ∷ names) = do
  found ← read_optional name (λ d. d.state)
  elim found [
    | none ↦ collect_entries names
    | some state ↦ do
      request ← read_file name (λ d. d.request)
      rest ← collect_entries names
      return (index_entry state request.travel_mode ∷ rest)
  ]

unfoldable pub rebuild_index : (listing : List (List ℕ) → List (List ℕ)) → Action (Unit {0})
unfolding directory_names collect_entries sort_index atomic_write
rebuild_index listing = do
  jobs ← (λ store. collect_entries (listing (directory_names store.directories)) store)
  atomic_write (λ store. record store { index = some (sort_index jobs) })

-- The two listings may be in different orders.
unfoldable pub recover_interrupted :
    (listing relisting : List (List ℕ) → List (List ℕ)) → (now : ℕ) → Action ℕ
unfolding directory_names recover_directories rebuild_index
recover_interrupted listing relisting timestamp = do
  recovered ←
      (λ store. recover_directories (listing (directory_names store.directories)) timestamp store)
  rebuild_index relisting
  return recovered

unfoldable pub get_job : List ℕ → Action (Option StoredJob)
unfolding directory_exists read_file read_optional
get_job job_id = do
  exists ← directory_exists (job_dir job_id)
  if not exists then return none else do
    request ← read_file (job_dir job_id) (λ d. d.request)
    state ← read_file (job_dir job_id) (λ d. d.state)
    result ← read_optional (job_dir job_id) (λ d. d.result)
    error ← read_optional (job_dir job_id) (λ d. d.error)
    return (some (record { request = request; state = state; result = result; error = error }))

-- `truncate`.
unfoldable pub truncate : List JobIndexEntry → ℕ → List JobIndexEntry
truncate [] limit = []
truncate (entry ∷ entries) zero = []
truncate (entry ∷ entries) (suc limit) = entry ∷ truncate entries limit

unfoldable pub list_recent : ℕ → Action (List JobIndexEntry)
unfolding truncate sort_index read_index
list_recent limit store = (ok (truncate (sort_index (read_index store)) limit), store)

unfoldable pub current_event_sequence : List ℕ → Action (Option ℕ)
unfolding read_optional
current_event_sequence job_id = read_optional (job_dir job_id) (λ d. d.event_sequence)

unfoldable pub record_event_sequence : List ℕ → ℕ → Action (Unit {0})
unfolding directory_exists write_file
record_event_sequence job_id sequence = do
  exists ← directory_exists (job_dir job_id)
  if not exists
      then fail (JobStoreError.job_not_found job_id)
      else write_file (job_dir job_id) (λ d. record d { event_sequence = some sequence })
