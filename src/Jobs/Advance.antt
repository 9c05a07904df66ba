-- ===== src/Jobs/Advance.antt =====
-- src/storage.rs: what progress reports do to the state of a job.
use troute.Prelude.{ℕ, ◌≤◌, true, Option, none, some, ok, List, ◌≡◌, arith}
use troute.Jobs.Progress.{ProgressStage, stage_index}
use troute.Jobs.{is_active, JobState}
use troute.Jobs.Operations.{to_progress, is_behind}

-- The stage of a state, where no stage is before every stage.
abbrev pub IsNotAhead : Option ProgressStage → Option ProgressStage → Type 0
IsNotAhead none later = Unit
IsNotAhead (some stage) none = ⊥
IsNotAhead (some stage) (some later) = stage_index stage ≤ stage_index later

-- A report that is accepted found an active job and leaves it active, never takes the percentage or
-- the stage back, keeps the percentage within 100 where it was, and changes neither the id nor the
-- times.
pub to_progress-ok :
    (job_id : List ℕ) (stage : ProgressStage) (progress : ℕ) (message : Option (List ℕ))
    (state : JobState) {after : JobState}
    → state.progress ≤ 100
    → to_progress job_id stage progress message state ≡ ok after
    → (is_active state.status ≡ true)
      × (is_active after.status ≡ true)
      × (state.progress ≤ after.progress)
      × (after.progress ≤ 100)
      × IsNotAhead state.stage after.stage
      × (after.job_id ≡ state.job_id)
      × (after.created_at ≡ state.created_at)
      × (after.completed_at ≡ state.completed_at)
unfolding to_progress is_behind is_active
to_progress-ok job_id stage progress message state h e = ground arith
