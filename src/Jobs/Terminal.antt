-- ===== src/Jobs/Terminal.antt =====
-- src/storage.rs: the invariant under `save_result` and `save_error`.
use troute.Prelude.{
  ℕ, ◌≤◌, true, Option, none, some, ok, List, ◌≡◌, inl, refl, sym, ap, ◌∙◌, subst, arith,
}
use troute.Jobs.{JobStatus, is_active, JobState, StoredJobError, TerminalWriteOutcome}
use troute.Jobs.Store.{JobDirectory, FileJobStore, Action, ◌>>◌, return, job_dir, write_file}
use troute.Jobs.Operations.{
  prepare_terminal_write, terminal_state, commit_terminal_state, save_result, save_error,
}
use troute.Jobs.Invariant.{Evidence, Good, Invariant}
use troute.Jobs.Writes.{bind-holds, directory_of, write_file-Invariant, write_file-found}
use troute.Jobs.Kept.{
  commit_terminal_state-Invariant, GoodRead, read_state-GoodRead, unfinished-at, Evidence-bound,
  Evidence-active, prepare_terminal_write-some, prepare_terminal_write-store,
}

-- What the payload of a terminal write must be: it leaves the state and makes the evidence.
abbrev Payload : (JobDirectory → JobDirectory) → JobStatus → JobState → Type 0
Payload change status state =
    (d : JobDirectory)
    → ((change d).state ≡ d.state)
      × Evidence status (terminal_state state status 0).progress (change d).result (change d).error

pub Good-of :
    (name : List ℕ) (d : JobDirectory) (state : JobState)
    → d.state ≡ some state
    → job_dir state.job_id ≡ name
    → Evidence state.status state.progress d.result d.error
    → Good name d
Good-of name d state e n evidence = simp e (n, evidence)

-- How the terminal writes go on from what was prepared.
abbrev save_prepared :
    List ℕ
    → (JobDirectory → JobDirectory)
    → JobStatus
    → ℕ
    → Option JobState
    → Action TerminalWriteOutcome
save_prepared job_id change status timestamp prepared = elim prepared [
  | none ↦ return TerminalWriteOutcome.cancelled_before
  | some state ↦
      write_file (job_dir job_id) change
      >> (commit_terminal_state state status timestamp >> return TerminalWriteOutcome.applied)
]

module _ (kept : Option (List ℕ × JobState)) where
  terminal-Invariant :
      (job_id : List ℕ) (change : JobDirectory → JobDirectory) (status : JobStatus) (timestamp : ℕ)
      (store : FileJobStore) (state : JobState)
      → Invariant kept store
      → GoodRead kept job_id store state
      → state.status ≡ JobStatus.running
      → Payload change status state
      → Invariant kept
          ((write_file (job_dir job_id) change
              >> (commit_terminal_state state status timestamp
                  >> return TerminalWriteOutcome.applied))
            store).1
  unfolding GoodRead is_active terminal_state
  terminal-Invariant job_id change status timestamp store state h good r payload =
      let (found, name, evidence) = good in
      let d = directory_of store (job_dir job_id) in
      let same : (change d).state ≡ some state = (payload d).0 ∙ found in
      let active : is_active state.status ≡ true = ground arith in
      let bound : state.progress ≤ 100 =
        Evidence-bound kept state.status state.progress d.result d.error evidence in
      bind-holds (write_file (job_dir job_id) change)
        (λ _. commit_terminal_state state status timestamp >> return TerminalWriteOutcome.applied)
        (Invariant kept) store
        (write_file-Invariant kept (job_dir job_id) change store h
          (Good-of (job_dir job_id) (change d) state same name (
            Evidence-active kept state.status state.progress (change d).result (change d).error
              active bound))
          (inl (payload d).0))
        (λ u after e p.
          let written = write_file-found (job_dir job_id) change store after e in
          let there : directory_of after (job_dir state.job_id) ≡ change d =
            subst (λ n. directory_of after n ≡ change d) (sym name) written in
          bind-holds (commit_terminal_state state status timestamp)
            (λ _. return TerminalWriteOutcome.applied) (Invariant kept) after
            (commit_terminal_state-Invariant kept state status timestamp after p
              (rw there (payload d).1)
              (unfinished-at kept job_id state.job_id after state (ap (λ x. x.state) written ∙ same)
                name active))
            (λ v last e' q. q))

  prepared-GoodRead :
      (job_id : List ℕ) (store after : FileJobStore) (state : JobState)
      → Invariant kept after
      → prepare_terminal_write job_id store ≡ (ok (some state), after)
      → GoodRead kept job_id after state × (state.status ≡ JobStatus.running)
  prepared-GoodRead job_id store after state h e =
      let (same, found, r) = prepare_terminal_write-some kept job_id store after e in
      (read_state-GoodRead kept job_id after state h (rw same found), r)

  saved-Invariant :
      (job_id : List ℕ) (change : JobDirectory → JobDirectory) (status : JobStatus) (timestamp : ℕ)
      (store after : FileJobStore) (prepared : Option JobState)
      → ((state : JobState) → GoodRead kept job_id after state → Payload change status state)
      → prepare_terminal_write job_id store ≡ (ok prepared, after)
      → Invariant kept after
      → Invariant kept (save_prepared job_id change status timestamp prepared after).1
  saved-Invariant job_id change status timestamp store after none payload e h = h
  saved-Invariant job_id change status timestamp store after (some state) payload e h =
      let (good, r) = prepared-GoodRead job_id store after state h e in
      terminal-Invariant job_id change status timestamp after state h good r (payload state good)

  pub save_result-Invariant :
      (job_id result : List ℕ) (timestamp : ℕ) (store : FileJobStore)
      → Invariant kept store
      → Invariant kept (save_result job_id result timestamp store).1
  unfolding save_result terminal_state
  save_result-Invariant job_id result timestamp store h =
      let change : JobDirectory → JobDirectory = λ d. record d { result = some result } in
      bind-holds (prepare_terminal_write job_id)
        (save_prepared job_id change JobStatus.completed timestamp) (Invariant kept) store
        (rw (prepare_terminal_write-store kept job_id store) h)
        (λ prepared after e p.
          saved-Invariant job_id change JobStatus.completed timestamp store after prepared
            (λ state good d. (refl, (refl, refl))) e p)

  pub save_error-Invariant :
      (job_id : List ℕ) (error : StoredJobError) (timestamp : ℕ) (store : FileJobStore)
      → Invariant kept store
      → Invariant kept (save_error job_id error timestamp store).1
  unfolding save_error terminal_state GoodRead
  save_error-Invariant job_id error timestamp store h =
      let change : JobDirectory → JobDirectory = λ d. record d { error = some error } in
      bind-holds (prepare_terminal_write job_id)
        (save_prepared job_id change JobStatus.failed timestamp) (Invariant kept) store
        (rw (prepare_terminal_write-store kept job_id store) h)
        (λ prepared after e p.
          saved-Invariant job_id change JobStatus.failed timestamp store after prepared
            (λ state good d.
              let stored = directory_of after (job_dir job_id) in
              (
                refl,
                (
                  refl,
                  Evidence-bound kept state.status state.progress stored.result stored.error good.2,
                ),
              ))
            e p)
