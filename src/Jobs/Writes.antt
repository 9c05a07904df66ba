-- ===== src/Jobs/Writes.antt =====
-- src/storage.rs: the invariant under single writes, reads and chains of actions.
use troute.Prelude.{
  ◌∙◌, ℕ, Bool, true, false, [], ◌∷◌, sym, ap, Option, some, Result, ok, err, List, ◌≡◌, ◌⊎◌, inl,
  inr, refl, arith,
}
use troute.Jobs.{OptimizeRouteRequest, JobState, JobStoreError}
use troute.Jobs.Store.{
  JobDirectory, FileJobStore, find_directory, put_directory, Action, ◌>>=◌, job_dir, atomic_write,
  attempt, sort_index, index_entry, retain_others, read_index, or_empty, write_file, read_file,
  read_state, update_index_entry,
}
use troute.Jobs.Invariant.{Good, Leaves, Invariant, AllGood-put, Kept-put, find-put_self}

-- How a chain goes on from an answer.
abbrev resume :
    {A B : Type 0}
    → (A → Action B)
    → Result A JobStoreError × FileJobStore
    → Result B JobStoreError × FileJobStore
resume f r = elim r.0 [ ok a ↦ f a r.1 | err e ↦ (err e, r.1) ]

resume-holds :
    {A B : Type 0} (f : A → Action B) (P : FileJobStore → Type 0)
    (r : Result A JobStoreError × FileJobStore)
    → P r.1
    → ((a : A) (after : FileJobStore) → r ≡ (ok a, after) → P after → P (f a after).1)
    → P (resume f r).1
resume-holds f P (ok a, after) p q = q a after refl p
resume-holds f P (err e, after) p q = p

-- What holds of the store after one action and then another: where the first fails, of the store
-- that it leaves, and where it answers, of the store that the second leaves.
pub bind-holds :
    {A B : Type 0} (m : Action A) (f : A → Action B) (P : FileJobStore → Type 0)
    (store : FileJobStore)
    → P (m store).1
    → ((a : A) (after : FileJobStore) → m store ≡ (ok a, after) → P after → P (f a after).1)
    → P ((m >>= f) store).1
bind-holds m f P store p q = resume-holds f P (m store) p q

-- A write fails and leaves the directories, or makes its change of them.
atomic_write-cases :
    (change : FileJobStore → FileJobStore) (store : FileJobStore)
    → ((atomic_write change store).1.directories ≡ store.directories)
      ⊎ ((atomic_write change store).1.directories ≡ (change store).directories)
unfolding atomic_write
atomic_write-cases change store = go store.outcomes
  where
    go :
        (outcomes : List Bool)
        → ((attempt outcomes change store).1.directories ≡ store.directories)
          ⊎ ((attempt outcomes change store).1.directories ≡ (change store).directories)
    go [] = inl refl
    go (true ∷ later) = inr refl
    go (false ∷ later) = inl refl

-- A write that answers has made its change.
atomic_write-ok :
    (change : FileJobStore → FileJobStore) (store after : FileJobStore)
    → atomic_write change store ≡ (ok tt, after)
    → after.directories ≡ (change store).directories
unfolding atomic_write
atomic_write-ok change store after = go store.outcomes
  where
    go :
        (outcomes : List Bool)
        → attempt outcomes change store ≡ (ok tt, after)
        → after.directories ≡ (change store).directories
    go [] e = cc
    go (true ∷ later) e = sym (ap (λ r. r.1.directories) e)
    go (false ∷ later) e = cc

pub unindexed :
    (change : FileJobStore → FileJobStore) (store : FileJobStore)
    → (change store).directories ≡ store.directories
    → (atomic_write change store).1.directories ≡ store.directories
unindexed change store same = elim (atomic_write-cases change store) [
  | inl e ↦ e
  | inr e ↦ e ∙ same
]

-- The directory of a name, empty where there is none.
abbrev pub directory_of : FileJobStore → List ℕ → JobDirectory
directory_of store name = or_empty (find_directory store.directories name)

pub write_file-Invariant :
    (kept : Option (List ℕ × JobState)) (name : List ℕ) (change : JobDirectory → JobDirectory)
    (store : FileJobStore)
    → Invariant kept store
    → Good name (change (directory_of store name))
    → Leaves (directory_of store name) (change (directory_of store name))
    → Invariant kept (write_file name change store).1
unfolding write_file
write_file-Invariant kept name change store h g l =
    let d = change (directory_of store name) in
    let put : FileJobStore → FileJobStore = λ s. record s {
      directories =
          put_directory s.directories name (change (or_empty (find_directory s.directories name)));
    } in
    elim (atomic_write-cases put store) [
      | inl same ↦ rw same h
      | inr same ↦
          rw same (
            AllGood-put store.directories name d h.0 g,
            Kept-put kept store.directories name d h.1 l,
          )
    ]

-- A write that succeeds leaves the changed directory.
pub write_file-found :
    (name : List ℕ) (change : JobDirectory → JobDirectory) (store after : FileJobStore)
    → write_file name change store ≡ (ok tt, after)
    → directory_of after name ≡ change (directory_of store name)
unfolding write_file or_empty
write_file-found name change store after e =
    let put : FileJobStore → FileJobStore = λ s. record s {
      directories =
          put_directory s.directories name (change (or_empty (find_directory s.directories name)));
    } in
    let same = atomic_write-ok put store after e in
    ground (arith, same, find-put_self store.directories name (change (directory_of store name)))

-- The index is beside the jobs.
pub update_index_entry-directories :
    (state : JobState) (store : FileJobStore)
    → (update_index_entry state store).1.directories ≡ store.directories
unfolding update_index_entry read_file
update_index_entry-directories state store = ground (
  arith,
  λ (request : OptimizeRouteRequest).
      atomic_write-cases
        (λ s. record s {
          index = some (
              sort_index (
                index_entry state request.travel_mode ∷ retain_others state.job_id (read_index s)));
        })
        store,
)

-- A state that is read is the one of its directory, and reading changes nothing.
pub read_state-ok :
    (job_id : List ℕ) (store after : FileJobStore) {state : JobState}
    → read_state job_id store ≡ (ok state, after)
    → (after ≡ store) × ((directory_of store (job_dir job_id)).state ≡ some state)
unfolding read_state read_file or_empty
read_state-ok job_id store after e = ground arith

pub read_state-store :
    (job_id : List ℕ) (store : FileJobStore) → (read_state job_id store).1 ≡ store
unfolding read_state read_file
read_state-store job_id store = ground arith
