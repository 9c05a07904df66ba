-- ===== src/Jobs/Kept.antt =====
-- src/storage.rs: the invariant under `mark_running`, `update_progress` and the commit of a state.
use troute.Prelude.{
  ℕ, ◌≤◌, true, false, Option, some, Result, ok, err, Result-cases, List, ◌≡◌, inl, inr, refl, sym,
  ap, ◌∙◌, subst, arith,
}
use troute.Jobs.Progress.{ProgressStage}
use troute.Jobs.Encoding.{encode_job_id}
use troute.Jobs.{JobStatus, is_active, JobState, StoredJobError, JobStoreError}
use troute.Jobs.Store.{
  FileJobStore, ◌>>◌, fail, job_dir, or_empty, read_file, read_state, write_state,
  update_index_entry,
}
use troute.Jobs.Operations.{
  directory_exists, mutate_state, to_running, mark_running, to_progress, update_progress,
  prepare_terminal_write, terminal_state, commit_terminal_state,
}
use troute.Jobs.Advance.{to_progress-ok}
use troute.Jobs.Invariant.{Evidence, Good-find, Invariant, finished}
use troute.Jobs.Writes.{
  bind-holds, directory_of, write_file-Invariant, update_index_entry-directories, read_state-ok,
  read_state-store,
}

module _ (kept : Option (List ℕ × JobState)) where
  pub update_index_entry-Invariant :
      (state : JobState) (store : FileJobStore)
      → Invariant kept store
      → Invariant kept (update_index_entry state store).1
  update_index_entry-Invariant state store h = rw (update_index_entry-directories state store) h

  -- A state with its evidence, written where no job is over, and then the index.
  pub commit-Invariant :
      (state : JobState) (store : FileJobStore)
      → Invariant kept store
      → Evidence state.status state.progress
          (directory_of store (job_dir state.job_id)).result
          (directory_of store (job_dir state.job_id)).error
      → finished (directory_of store (job_dir state.job_id)).state ≡ false
      → Invariant kept ((write_state state >> update_index_entry state) store).1
  unfolding write_state
  commit-Invariant state store h evidence f =
      bind-holds (write_state state) (λ _. update_index_entry state) (Invariant kept) store
        (write_file-Invariant kept (job_dir state.job_id) (λ d. record d { state = some state })
          store h (refl, evidence) (inr f))
        (λ u after e p. update_index_entry-Invariant state after p)

  -- What is read is the state of a well-formed directory.
  unfoldable pub GoodRead : List ℕ → FileJobStore → JobState → Type 0
  GoodRead job_id store state =
      ((directory_of store (job_dir job_id)).state ≡ some state)
      × (job_dir state.job_id ≡ job_dir job_id)
      × Evidence state.status state.progress (directory_of store (job_dir job_id)).result
          (directory_of store (job_dir job_id)).error

  pub found-after :
      (job_id : List ℕ) (store after : FileJobStore) (state : JobState)
      → read_state job_id store ≡ (ok state, after)
      → (directory_of after (job_dir job_id)).state ≡ some state
  found-after job_id store after state e =
      let (same, found) = read_state-ok job_id store after e in rw same found

  pub read_state-GoodRead :
      (job_id : List ℕ) (store : FileJobStore) (state : JobState)
      → Invariant kept store
      → (directory_of store (job_dir job_id)).state ≡ some state
      → GoodRead job_id store state
  unfolding GoodRead
  read_state-GoodRead job_id store state h e =
      let good = Good-find store.directories (job_dir job_id) h.0 in
      let (name, evidence) = simp e at good in (e, name, evidence)

  pub Evidence-bound :
      (status : JobStatus) (progress : ℕ) (result : Option (List ℕ)) (error : Option StoredJobError)
      → Evidence status progress result error
      → progress ≤ 100
  Evidence-bound JobStatus.pending p r e h = h
  Evidence-bound JobStatus.running p r e h = h
  Evidence-bound JobStatus.completed p r e h = omega (arith, h.1)
  Evidence-bound JobStatus.failed p r e h = h.1
  Evidence-bound JobStatus.cancelled p r e h = h

  pub Evidence-active :
      (status : JobStatus) (progress : ℕ) (result : Option (List ℕ)) (error : Option StoredJobError)
      → is_active status ≡ true
      → progress ≤ 100
      → Evidence status progress result error
  unfolding is_active
  Evidence-active JobStatus.pending p r e a h = h
  Evidence-active JobStatus.running p r e a h = h
  Evidence-active JobStatus.completed p r e a h = cc
  Evidence-active JobStatus.failed p r e a h = cc
  Evidence-active JobStatus.cancelled p r e a h = cc

  -- What a mutation of an active job has to do.
  Mutates : JobState → JobState → Type 0
  Mutates state after =
      (is_active state.status ≡ true)
      × (is_active after.status ≡ true)
      × (after.progress ≤ 100)
      × (after.job_id ≡ state.job_id)

  pub unfinished-at :
      (job_id other : List ℕ) (store : FileJobStore) (state : JobState)
      → (directory_of store (job_dir job_id)).state ≡ some state
      → job_dir other ≡ job_dir job_id
      → is_active state.status ≡ true
      → finished (directory_of store (job_dir other)).state ≡ false
  unfinished-at job_id other store state found same active =
      let here : finished (directory_of store (job_dir job_id)).state ≡ false = ground arith in
      subst (λ n. finished (directory_of store n).state ≡ false) (sym same) here

  mutated-Invariant :
      (job_id : List ℕ) (store : FileJobStore) (state mutated : JobState) (timestamp : ℕ)
      → Invariant kept store
      → GoodRead job_id store state
      → Mutates state mutated
      → Invariant kept
          ((write_state (record mutated { updated_at = timestamp })
              >> update_index_entry (record mutated { updated_at = timestamp }))
            store).1
  unfolding GoodRead Mutates
  mutated-Invariant job_id store state mutated timestamp h good m =
      let (found, name, evidence) = good in
      let (was, is, bound, id) = m in
      commit-Invariant (record mutated { updated_at = timestamp }) store h
        (Evidence-active mutated.status mutated.progress
          (directory_of store (job_dir mutated.job_id)).result
          (directory_of store (job_dir mutated.job_id)).error is bound)
        (unfinished-at job_id mutated.job_id store state found (ap encode_job_id id ∙ name) was)

  mutate_state-Invariant :
      (job_id : List ℕ) (mutate : JobState → Result JobState JobStoreError) (timestamp : ℕ)
      (store : FileJobStore)
      → Invariant kept store
      → ((state after : JobState)
          → state.progress ≤ 100
          → mutate state ≡ ok after
          → Mutates state after)
      → Invariant kept (mutate_state job_id mutate timestamp store).1
  unfolding mutate_state GoodRead Mutates
  mutate_state-Invariant job_id mutate timestamp store h m =
      bind-holds (read_state job_id)
        (λ state. elim (mutate state) [
          | err e ↦ fail e
          | ok mutated ↦
              write_state (record mutated { updated_at = timestamp })
              >> update_index_entry (record mutated { updated_at = timestamp })
        ])
        (Invariant kept) store (rw (read_state-store job_id store) h)
        (λ state after e p.
          let good =
            read_state-GoodRead job_id after state p (found-after job_id store after state e) in
          elim (Result-cases (mutate state)) [
            | inr (error, f) ↦ rw f p
            | inl (mutated, f) ↦ rw f (
                mutated-Invariant job_id after state mutated timestamp p good (
                  m state mutated
                    (Evidence-bound state.status state.progress
                      (directory_of after (job_dir job_id)).result
                      (directory_of after (job_dir job_id)).error good.2)
                    f))
          ])

  -- `mark_running` keeps it.
  pub mark_running-Invariant :
      (job_id : List ℕ) (timestamp : ℕ) (store : FileJobStore)
      → Invariant kept store
      → Invariant kept (mark_running job_id timestamp store).1
  unfolding mark_running to_running Mutates is_active
  mark_running-Invariant job_id timestamp store h =
      mutate_state-Invariant job_id (to_running job_id) timestamp store h
        (λ state after bound e. ground arith)

  pub update_progress-Invariant :
      (job_id : List ℕ) (stage : ProgressStage) (progress : ℕ) (message : Option (List ℕ))
      (timestamp : ℕ) (store : FileJobStore)
      → Invariant kept store
      → Invariant kept (update_progress job_id stage progress message timestamp store).1
  unfolding update_progress Mutates
  update_progress-Invariant job_id stage progress message timestamp store h =
      mutate_state-Invariant job_id (to_progress job_id stage progress message) timestamp store h
        (λ state after bound e.
          let (was, is, forward, most, ahead, id, created, over) =
            to_progress-ok job_id stage progress message state {after = after} bound e in
          (was, is, most, id))

  pub commit_terminal_state-Invariant :
      (state : JobState) (status : JobStatus) (timestamp : ℕ) (store : FileJobStore)
      → Invariant kept store
      → Evidence status
          (terminal_state state status timestamp).progress
          (directory_of store (job_dir state.job_id)).result
          (directory_of store (job_dir state.job_id)).error
      → finished (directory_of store (job_dir state.job_id)).state ≡ false
      → Invariant kept (commit_terminal_state state status timestamp store).1
  unfolding commit_terminal_state terminal_state
  commit_terminal_state-Invariant state status timestamp store h evidence f =
      commit-Invariant (terminal_state state status timestamp) store h evidence f

  -- What `prepare_terminal_write` answers is a running job's state, and nothing is changed.
  pub prepare_terminal_write-some :
      (job_id : List ℕ) (store after : FileJobStore) {state : JobState}
      → prepare_terminal_write job_id store ≡ (ok (some state), after)
      → (after ≡ store)
        × ((directory_of store (job_dir job_id)).state ≡ some state)
        × (state.status ≡ JobStatus.running)
  unfolding prepare_terminal_write directory_exists read_state read_file or_empty
  prepare_terminal_write-some job_id store after e = ground arith

  pub prepare_terminal_write-store :
      (job_id : List ℕ) (store : FileJobStore) → (prepare_terminal_write job_id store).1 ≡ store
  unfolding prepare_terminal_write directory_exists read_state read_file
  prepare_terminal_write-store job_id store = ground arith
