-- ===== src/Jobs/Lifecycle.antt =====
-- src/storage.rs: the invariant under `create_job` and `cancel_job`.
use troute.Prelude.{
  ℕ, false, not, if◌then◌else◌, Bool-cases, Option, none, some, Option-cases, List, ◌≡◌, inl, inr,
  refl, ap, ◌∙◌, arith,
}
use troute.Prelude.Options.{is_some}
use troute.Jobs.{JobStatus, is_active, JobState, OptimizeRouteRequest, JobStoreError}
use troute.Jobs.Store.{
  JobDirectory, empty_directory, FileJobStore, find_directory, Action, ◌>>◌, return, fail, job_dir,
  or_empty, write_file, read_state, write_state, update_index_entry,
}
use troute.Jobs.Operations.{directory_exists, create_job, cancelled_state, cancel_job}
use troute.Jobs.Invariant.{Evidence, Invariant, finished}
use troute.Jobs.Writes.{
  bind-holds, directory_of, write_file-Invariant, write_file-found, read_state-store,
}
use troute.Jobs.Kept.{
  GoodRead, read_state-GoodRead, found-after, unfinished-at, Evidence-bound,
  update_index_entry-Invariant,
}

module _ (kept : Option (List ℕ × JobState)) where
  -- A state is written and indexed, and the action answers it.
  abbrev store_state : JobState → Action JobState
  store_state state = write_state state >> (update_index_entry state >> return state)

  store_state-Invariant :
      (state : JobState) (store : FileJobStore)
      → Invariant kept store
      → Evidence state.status state.progress
          (directory_of store (job_dir state.job_id)).result
          (directory_of store (job_dir state.job_id)).error
      → finished (directory_of store (job_dir state.job_id)).state ≡ false
      → Invariant kept (store_state state store).1
  unfolding write_state
  store_state-Invariant state store h evidence f =
      bind-holds (write_state state) (λ _. update_index_entry state >> return state)
        (Invariant kept) store
        (write_file-Invariant kept (job_dir state.job_id) (λ d. record d { state = some state })
          store h (refl, evidence) (inr f))
        (λ u after e p.
          bind-holds (update_index_entry state) (λ _. return state) (Invariant kept) after
            (update_index_entry-Invariant kept state after p) (λ v last e' q. q))

  -- The cancellation of a job whose state has been read.
  abbrev cancel_read : List ℕ → List ℕ → ℕ → JobState → Action JobState
  cancel_read job_id message timestamp state =
      if not (is_active state.status)
      then fail (JobStoreError.job_not_cancellable job_id state.status)
      else store_state (cancelled_state state message timestamp)

  cancel_read-Invariant :
      (job_id message : List ℕ) (timestamp : ℕ) (state : JobState) (store : FileJobStore)
      → Invariant kept store
      → GoodRead kept job_id store state
      → Invariant kept (cancel_read job_id message timestamp state store).1
  unfolding GoodRead cancelled_state
  cancel_read-Invariant job_id message timestamp state store h good =
      let (found, name, evidence) = good in
      let d = directory_of store (job_dir job_id) in
      let bound = Evidence-bound kept state.status state.progress d.result d.error evidence in
      elim (Bool-cases (is_active state.status)) [
        | inr e ↦ rw e h
        | inl e ↦ rw e (
            store_state-Invariant (cancelled_state state message timestamp) store h bound
              (unfinished-at kept job_id state.job_id store state found name e))
      ]

  pub cancel_job-Invariant :
      (job_id message : List ℕ) (timestamp : ℕ) (store : FileJobStore)
      → Invariant kept store
      → Invariant kept (cancel_job job_id message timestamp store).1
  unfolding cancel_job directory_exists
  cancel_job-Invariant job_id message timestamp store h =
      elim (Bool-cases (is_some (find_directory store.directories (job_dir job_id)))) [
        | inr e ↦ rw e h
        | inl e ↦ rw e (
            bind-holds (read_state job_id) (cancel_read job_id message timestamp) (Invariant kept)
              store (rw (read_state-store job_id store) h)
              (λ state after e' p. cancel_read-Invariant job_id message timestamp state after p (
                read_state-GoodRead kept job_id after state p
                  (found-after kept job_id store after state e'))))
      ]

  -- A write where there is no job, which makes none, and what goes on from there.
  vacant-then :
      {B : Type 0} (name : List ℕ) (change : JobDirectory → JobDirectory) (next : Action B)
      (store : FileJobStore)
      → Invariant kept store
      → (directory_of store name).state ≡ none
      → (change (directory_of store name)).state ≡ none
      → ((after : FileJobStore)
          → Invariant kept after
          → (directory_of after name).state ≡ none
          → Invariant kept (next after).1)
      → Invariant kept ((write_file name change >> next) store).1
  vacant-then name change next store h before without go =
      bind-holds (write_file name change) (λ _. next) (Invariant kept) store
        (write_file-Invariant kept name change store h (simp without tt) (inr (ap finished before)))
        (λ u after e p.
          go after p (ap (λ d. d.state) (write_file-found name change store after e) ∙ without))

  pub create_job-Invariant :
      (request : OptimizeRouteRequest) (timestamp : ℕ) (store : FileJobStore)
      → Invariant kept store
      → Invariant kept (create_job request timestamp store).1
  unfolding create_job directory_exists or_empty
  create_job-Invariant request timestamp store h =
      let name = job_dir request.job_id in
      let state : JobState = record {
        job_id = request.job_id;
        status = JobStatus.pending;
        stage = none;
        progress = 0;
        last_message = none;
        created_at = timestamp;
        updated_at = timestamp;
        completed_at = none;
      } in
      elim (Option-cases (find_directory store.directories name)) [
        | inr (d, e) ↦ rw e h
        | inl e ↦ rw e (
            vacant-then name (λ d. empty_directory)
              (write_file name (λ d. record d { request = some request })
                >> (write_file name (λ d. record d { event_sequence = some 0 })
                    >> store_state state))
              store h (ap (λ o. (or_empty o).state) e) refl
              (λ one h1 v1.
                vacant-then name (λ d. record d { request = some request })
                  (write_file name (λ d. record d { event_sequence = some 0 }) >> store_state state)
                  one h1 v1 v1
                  (λ two h2 v2.
                    vacant-then name (λ d. record d { event_sequence = some 0 }) (store_state state)
                      two h2 v2 v2
                      (λ three h3 v3.
                        store_state-Invariant state three h3 (omega arith) (ap finished v3)))))
      ]
