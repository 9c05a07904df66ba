-- ===== src/Jobs/Store.antt =====
-- src/storage.rs, `FileJobStore`: jobs in directories of JSON files, and an index of them.
--
-- A file holds its value. Writing a file is atomic, since it goes through a temporary file that is
-- renamed. `outcomes` says of each write to come whether it succeeds; behind its end none does, as
-- after a stop of the machine. So any writes may fail, and the store is used further. The store's
-- lock makes each operation one action on the store. The time of the clock is an argument.
use troute.Prelude.{
  ℕ, Bool, true, false, if◌then◌else◌, ◌==◌, compare, Ordering, Option, none, some, Result, ok, err,
  List, [], ◌∷◌,
}
use troute.Prelude.Sort.{sort_by}
use troute.Solver.Objective.{then_with}
use troute.Jobs.Encoding.{encode_job_id}
use troute.Jobs.{JobState, OptimizeRouteRequest, StoredJobError, JobIndexEntry, JobStoreError}

pub record JobDirectory : Type 0 where
  pub request : Option OptimizeRouteRequest
  pub state : Option JobState
  pub result : Option (List ℕ)
  pub error : Option StoredJobError
  pub event_sequence : Option ℕ

abbrev pub empty_directory : JobDirectory
empty_directory = record {
  request = none;
  state = none;
  result = none;
  error = none;
  event_sequence = none;
}

-- `index` is none where there is no index file.
pub record FileJobStore : Type 0 where
  pub directories : List (List ℕ × JobDirectory)
  pub index : Option (List JobIndexEntry)
  pub outcomes : List Bool

abbrev pub bytes_eq : List ℕ → List ℕ → Bool
bytes_eq [] [] = true
bytes_eq [] (y ∷ ys) = false
bytes_eq (x ∷ xs) [] = false
bytes_eq (x ∷ xs) (y ∷ ys) = if x == y then bytes_eq xs ys else false

unfoldable pub find_directory : List (List ℕ × JobDirectory) → List ℕ → Option JobDirectory
find_directory [] name = none
find_directory (entry ∷ entries) name =
    if bytes_eq entry.0 name then some entry.1 else find_directory entries name

-- Puts a directory in the place of the one of that name, or at the end.
unfoldable pub put_directory :
    List (List ℕ × JobDirectory) → List ℕ → JobDirectory → List (List ℕ × JobDirectory)
put_directory [] name directory = (name, directory) ∷ []
put_directory (entry ∷ entries) name directory =
    if bytes_eq entry.0 name
    then (entry.0, directory) ∷ entries
    else entry ∷ put_directory entries name directory

-- An operation on the store, which answers and leaves a store.
abbrev pub Action : Type 0 → Type 0
Action A = FileJobStore → Result A JobStoreError × FileJobStore

infixl 5 ◌>>=◌ ◌>>◌
abbrev pub ◌>>=◌ : {A B : Type 0} → Action A → (A → Action B) → Action B
(m >>= f) store =
    let (answer, after) = m store in elim answer [ ok a ↦ f a after | err e ↦ (err e, after) ]

abbrev pub ◌>>◌ : {B : Type 0} → Action (Unit {0}) → Action B → Action B
m >> k = m >>= λ _. k

abbrev pub return : {A : Type 0} → A → Action A
return a store = (ok a, store)

abbrev pub fail : {A : Type 0} → JobStoreError → Action A
fail e store = (err e, store)

-- `job_dir`: the name of a job's directory.
abbrev pub job_dir : List ℕ → List ℕ
job_dir job_id = encode_job_id job_id

-- A write with the outcomes from its own on.
abbrev pub attempt : List Bool → (FileJobStore → FileJobStore) → Action (Unit {0})
attempt [] change store = (err JobStoreError.io, store)
attempt (true ∷ later) change store = (ok tt, record (change store) { outcomes = later })
attempt (false ∷ later) change store = (err JobStoreError.io, record store { outcomes = later })

-- One write that may fail.
unfoldable pub atomic_write : (FileJobStore → FileJobStore) → Action (Unit {0})
atomic_write change store = attempt store.outcomes change store

unfoldable pub or_empty : Option JobDirectory → JobDirectory
or_empty none = empty_directory
or_empty (some directory) = directory

-- `atomic_write_json` of a file of a directory, which makes the directory where it is missing.
unfoldable pub write_file : List ℕ → (JobDirectory → JobDirectory) → Action (Unit {0})
unfolding atomic_write or_empty
write_file name change = atomic_write (λ store. record store {
  directories =
      put_directory store.directories name
        (change (or_empty (find_directory store.directories name)));
})

-- `read_json`, with the file that is read.
unfoldable pub read_file : {A : Type 0} → List ℕ → (JobDirectory → Option A) → Action A
read_file name file store = elim (find_directory store.directories name) [
  | none ↦ (err JobStoreError.io, store)
  | some directory ↦ elim (file directory) [
    | none ↦ (err JobStoreError.io, store)
    | some a ↦ (ok a, store)
  ]
]

unfoldable pub read_state : List ℕ → Action JobState
unfolding read_file
read_state job_id = read_file (job_dir job_id) (λ d. d.state)

unfoldable pub write_state : JobState → Action (Unit {0})
unfolding write_file
write_state state = write_file (job_dir state.job_id) (λ d. record d { state = some state })

unfoldable pub index_entry : JobState → Option ℕ → JobIndexEntry
index_entry state travel_mode = record {
  job_id = state.job_id;
  status = state.status;
  travel_mode = travel_mode;
  created_at = state.created_at;
  updated_at = state.updated_at;
}

-- The newest first.
unfoldable pub compare_entries : JobIndexEntry → JobIndexEntry → Ordering
compare_entries left right =
    then_with (compare right.created_at left.created_at) (compare right.updated_at left.updated_at)

unfoldable pub sort_index : List JobIndexEntry → List JobIndexEntry
unfolding compare_entries
sort_index jobs = sort_by compare_entries jobs

unfoldable pub retain_others : List ℕ → List JobIndexEntry → List JobIndexEntry
retain_others job_id [] = []
retain_others job_id (entry ∷ entries) =
    let rest = retain_others job_id entries in
    if bytes_eq entry.job_id job_id then rest else entry ∷ rest

unfoldable pub read_index : FileJobStore → List JobIndexEntry
read_index store = elim store.index [ none ↦ [] | some jobs ↦ jobs ]

unfoldable pub update_index_entry : JobState → Action (Unit {0})
unfolding read_file atomic_write read_index retain_others sort_index index_entry
update_index_entry state = do
  request ← read_file (job_dir state.job_id) (λ d. d.request)
  atomic_write (λ store. record store {
    index = some (
        sort_index
          (index_entry state request.travel_mode ∷ retain_others state.job_id (read_index store)));
  })
