-- ===== src/Jobs/Restart.antt =====
-- src/storage.rs: the invariant under `recover_interrupted` and `record_event_sequence`.
use troute.Prelude.{
  Result-cases, refl, ℕ, ◌+◌, ◌≤◌, true, not, if◌then◌else◌, Bool-cases, Option, none, some,
  Option-cases, ok, List, [], ◌∷◌, ◌≡◌, inl, inr, refl, ap, arith,
}
use troute.Prelude.Options.{is_some}
use troute.Jobs.{is_active, JobState}
use troute.Jobs.Store.{
  JobDirectory, FileJobStore, find_directory, Action, ◌>>=◌, ◌>>◌, return, job_dir, sort_index,
  or_empty, write_file, read_file,
}
use troute.Jobs.Operations.{directory_exists}
use troute.Jobs.Recovery.{
  read_optional, directory_names, interrupted, next_sequence, failed_state, recover_directory,
  recover_directories, collect_entries, rebuild_index, recover_interrupted, record_event_sequence,
}
use troute.Jobs.Invariant.{Good-find, Invariant}
use troute.Jobs.Writes.{unindexed, bind-holds, directory_of, write_file-Invariant, write_file-found}
use troute.Jobs.Kept.{Evidence-bound, Evidence-active}
use troute.Jobs.Terminal.{Good-of}

module _ (kept : Option (List ℕ × JobState)) where
  -- A file beside the state is written, which no evidence needs.
  sequence-Invariant :
      (name : List ℕ) (n : ℕ) (store : FileJobStore)
      → Invariant kept store
      → Invariant kept (write_file name (λ d. record d { event_sequence = some n }) store).1
  sequence-Invariant name n store h =
      write_file-Invariant kept name (λ d. record d { event_sequence = some n }) store h
        (Good-find store.directories name h.0) (inl refl)

  pub record_event_sequence-Invariant :
      (job_id : List ℕ) (sequence : ℕ) (store : FileJobStore)
      → Invariant kept store
      → Invariant kept (record_event_sequence job_id sequence store).1
  unfolding record_event_sequence directory_exists
  record_event_sequence-Invariant job_id sequence store h =
      elim (Option-cases (find_directory store.directories (job_dir job_id))) [
        | inl e ↦ rw e h
        | inr (d, e) ↦ rw e (sequence-Invariant (job_dir job_id) sequence store h)
      ]

  read_optional-store :
      {A : Type 0} (name : List ℕ) (file : JobDirectory → Option A) (store : FileJobStore)
      → (read_optional name file store).1 ≡ store
  unfolding read_optional
  read_optional-store name file store = ground arith

  read_optional-state :
      (name : List ℕ) (store after : FileJobStore) {o : Option JobState}
      → read_optional name (λ d. d.state) store ≡ (ok o, after)
      → (directory_of after name).state ≡ o
  unfolding read_optional or_empty
  read_optional-state name store after e = ground arith

  -- How recovery ends for a job that was active, from the last step on.
  abbrev count_sequence : List ℕ → ℕ → Action ℕ
  count_sequence name n = write_file name (λ d. record d { event_sequence = some n }) >> return 1

  abbrev advance_sequence : List ℕ → Action ℕ
  advance_sequence name = read_optional name (λ d. d.event_sequence) >>= λ sequence.
      count_sequence name (next_sequence sequence)

  abbrev write_failed : List ℕ → ℕ → JobState → Action ℕ
  write_failed name timestamp state =
      write_file name (λ d. record d { state = some (failed_state state timestamp) })
      >> advance_sequence name

  abbrev fail_active : List ℕ → ℕ → JobState → Action ℕ
  fail_active name timestamp state =
      write_file name (λ d. record d { error = some interrupted })
      >> write_failed name timestamp state

  count_sequence-Invariant :
      (name : List ℕ) (n : ℕ) (store : FileJobStore)
      → Invariant kept store
      → Invariant kept (count_sequence name n store).1
  count_sequence-Invariant name n store h =
      bind-holds (write_file name (λ d. record d { event_sequence = some n })) (λ _. return 1)
        (Invariant kept) store (sequence-Invariant name n store h) (λ u after e p. p)

  advance_sequence-Invariant :
      (name : List ℕ) (store : FileJobStore)
      → Invariant kept store
      → Invariant kept (advance_sequence name store).1
  advance_sequence-Invariant name store h =
      bind-holds (read_optional name (λ d. d.event_sequence))
        (λ sequence. count_sequence name (next_sequence sequence)) (Invariant kept) store
        (rw (read_optional-store name (λ d. d.event_sequence) store) h)
        (λ sequence after e p. count_sequence-Invariant name (next_sequence sequence) after p)

  fail_active-Invariant :
      (name : List ℕ) (timestamp : ℕ) (state : JobState) (store : FileJobStore)
      → Invariant kept store
      → (directory_of store name).state ≡ some state
      → is_active state.status ≡ true
      → Invariant kept (fail_active name timestamp state store).1
  unfolding failed_state
  fail_active-Invariant name timestamp state store h found active =
      let d = directory_of store name in
      let (same, evidence) = simp found at (Good-find store.directories name h.0) in
      let bound : state.progress ≤ 100 =
        Evidence-bound kept state.status state.progress d.result d.error evidence in
      bind-holds (write_file name (λ d. record d { error = some interrupted }))
        (λ _. write_failed name timestamp state) (Invariant kept) store
        (write_file-Invariant kept name (λ d. record d { error = some interrupted }) store h
          (Good-of name (record d { error = some interrupted }) state found same
            (Evidence-active kept state.status state.progress d.result (some interrupted) active
              bound))
          (inl refl))
        (λ u after e p.
          let written =
            write_file-found name (λ d. record d { error = some interrupted }) store after e in
          bind-holds
            (write_file name (λ d. record d { state = some (failed_state state timestamp) }))
            (λ _. advance_sequence name) (Invariant kept) after
            (write_file-Invariant kept name
              (λ d. record d { state = some (failed_state state timestamp) }) after p
              (same, (ap (λ x. is_some x.error) written, bound))
              (inr (ground (arith, ap (λ x. x.state) written))))
            (λ v last e' q. advance_sequence-Invariant name last q))

  abbrev recover_found : List ℕ → ℕ → Option JobState → Action ℕ
  recover_found name timestamp none = return 0
  recover_found name timestamp (some state) =
      if not (is_active state.status) then return 0 else fail_active name timestamp state

  recover_found-Invariant :
      (name : List ℕ) (timestamp : ℕ) (found : Option JobState) (store : FileJobStore)
      → Invariant kept store
      → (directory_of store name).state ≡ found
      → Invariant kept (recover_found name timestamp found store).1
  recover_found-Invariant name timestamp none store h f = h
  recover_found-Invariant name timestamp (some state) store h f =
      elim (Bool-cases (is_active state.status)) [
        | inr a ↦ rw a h
        | inl a ↦ rw a (fail_active-Invariant name timestamp state store h f a)
      ]

  recover_directory-Invariant :
      (name : List ℕ) (timestamp : ℕ) (store : FileJobStore)
      → Invariant kept store
      → Invariant kept (recover_directory name timestamp store).1
  unfolding recover_directory
  recover_directory-Invariant name timestamp store h =
      bind-holds (read_optional name (λ d. d.state)) (recover_found name timestamp) (Invariant kept)
        store (rw (read_optional-store name (λ d. d.state) store) h)
        (λ found after e p.
          recover_found-Invariant name timestamp found after p
            (read_optional-state name store after e))

  recover_directories-Invariant :
      (names : List (List ℕ)) (timestamp : ℕ) (store : FileJobStore)
      → Invariant kept store
      → Invariant kept (recover_directories names timestamp store).1
  unfolding recover_directories
  recover_directories-Invariant [] timestamp store h = h
  recover_directories-Invariant (name ∷ names) timestamp store h =
      bind-holds (recover_directory name timestamp)
        (λ n. recover_directories names timestamp >>= λ more. return (n + more)) (Invariant kept)
        store (recover_directory-Invariant name timestamp store h)
        (λ n after e p.
          bind-holds (recover_directories names timestamp) (λ more. return (n + more))
            (Invariant kept) after (recover_directories-Invariant names timestamp after p)
            (λ m last e' q. q))

  collect_entries-store :
      (names : List (List ℕ)) (store : FileJobStore) → (collect_entries names store).1 ≡ store
  unfolding collect_entries read_optional read_file
  collect_entries-store [] store = refl
  collect_entries-store (name ∷ names) store = ground (arith, collect_entries-store names store)

  rebuild_index-directories :
      (listing : List (List ℕ) → List (List ℕ)) (store : FileJobStore)
      → (rebuild_index listing store).1.directories ≡ store.directories
  unfolding rebuild_index
  rebuild_index-directories listing store =
      let names = listing (directory_names store.directories) in
      let same = collect_entries-store names store in
      elim (Result-cases (collect_entries names store).0) [
        | inr (e, failed) ↦ ground arith
        | inl (jobs, found) ↦ ground (
          arith,
          unindexed (λ s. record s { index = some (sort_index jobs) })
              (collect_entries names store).1 refl,
        )
      ]

  pub recover_interrupted-Invariant :
      (listing relisting : List (List ℕ) → List (List ℕ)) (timestamp : ℕ) (store : FileJobStore)
      → Invariant kept store
      → Invariant kept (recover_interrupted listing relisting timestamp store).1
  unfolding recover_interrupted
  recover_interrupted-Invariant listing relisting timestamp store h =
      bind-holds (recover_directories (listing (directory_names store.directories)) timestamp)
        (λ recovered. rebuild_index relisting >> return recovered) (Invariant kept) store
        (recover_directories-Invariant (listing (directory_names store.directories)) timestamp store
          h)
        (λ recovered after e p.
          bind-holds (rebuild_index relisting) (λ _. return recovered) (Invariant kept) after
            (rw (rebuild_index-directories relisting after) p) (λ u last e' q. q))
