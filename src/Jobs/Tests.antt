-- ===== src/Jobs/Tests.antt =====
-- A job that runs to its end, one that is cancelled, and a restart.
use troute.Prelude.{
  replicate, ℕ, Bool, true, false, none, some, ok, List, [], ◌∷◌, ◌≡◌, ◌≤◌, refl, arith,
}
use troute.Jobs.Progress.{ProgressStage, stage_index, stage_range, interpolate, interpolate-stage}
use troute.Jobs.Encoding.{encode_job_id}
use troute.Jobs.{JobStatus, is_active, JobState, OptimizeRouteRequest}
use troute.Jobs.Store.{FileJobStore, find_directory, put_directory, ◌>>=◌, ◌>>◌, Action}
use troute.Jobs.Operations.{
  create_job, mark_running, update_progress, save_result, to_progress, to_running, is_behind,
}
use troute.Jobs.Recovery.{recover_interrupted, get_job}
use troute.Jobs.Events.{from_stored_job, EventName, is_valid_for_event}
use troute.Jobs.Advance.{IsNotAhead, to_progress-ok}

abbrev fresh_store : List Bool → FileJobStore
fresh_store outcomes = record { directories = []; index = none; outcomes = outcomes }

abbrev id_a : List ℕ
id_a = b'a' ∷ b'/' ∷ []

abbrev request_a : OptimizeRouteRequest
request_a = record { job_id = id_a; travel_mode = none }

escapes : encode_job_id id_a ≡ b'a' ∷ b'%' ∷ b'2' ∷ b'F' ∷ []
unfolding encode_job_id
escapes = refl

-- The job is created, runs and is saved; the snapshot of what is stored is then a valid event.
abbrev lifecycle : Action Bool
unfolding create_job mark_running update_progress save_result get_job from_stored_job
    is_valid_for_event
lifecycle = do
  state ← create_job request_a 1
  mark_running id_a 2
  update_progress id_a ProgressStage.scheduling 90 none 3
  outcome ← save_result id_a (b'{' ∷ b'}' ∷ []) 4
  found ← get_job id_a
  λ store. elim found [
    | none ↦ (ok false, store)
    | some job ↦ (ok (is_valid_for_event (from_stored_job 1 job) EventName.completed_event), store)
  ]

lifecycle_is_valid : (lifecycle (fresh_store (replicate 20 true))).0 ≡ ok true
unfolding lifecycle find_directory put_directory encode_job_id to_running to_progress
lifecycle_is_valid = refl

-- The machine stops after the result is written and before the state is. After the restart the job
-- has failed, with an error, and still has its result, so its snapshot is no valid event.
abbrev restarted : Action Bool
unfolding recover_interrupted get_job from_stored_job is_valid_for_event
restarted = do
  recovered ← recover_interrupted (λ names. names) (λ names. names) 5
  found ← get_job id_a
  λ store. elim found [
    | none ↦ (ok true, store)
    | some job ↦ (ok (is_valid_for_event (from_stored_job 2 job) EventName.snapshot), store)
  ]

stopped_store : FileJobStore
unfolding lifecycle
stopped_store = record (lifecycle (fresh_store (replicate 10 true))).1 {
  outcomes = replicate 20 true;
}

interrupted_snapshot_is_invalid : (restarted stopped_store).0 ≡ ok false
unfolding stopped_store restarted find_directory put_directory encode_job_id to_running to_progress
interrupted_snapshot_is_invalid = refl

abbrev running_job : JobState
running_job = record {
  job_id = id_a;
  status = JobStatus.running;
  stage = some ProgressStage.scheduling;
  progress = 90;
  last_message = none;
  created_at = 1;
  updated_at = 3;
  completed_at = none;
}

abbrev advanced_job : JobState
advanced_job = record running_job { stage = some ProgressStage.validating_schedule; progress = 100 }

abbrev completed_job : JobState
completed_job = record running_job { status = JobStatus.completed; progress = 100 }

interpolate-stage_example :
    interpolate (stage_range ProgressStage.building_matrix) 5 5
    ≤ interpolate (stage_range ProgressStage.scheduling) 0 4
unfolding stage_index
interpolate-stage_example =
    interpolate-stage ProgressStage.building_matrix ProgressStage.scheduling 5 5 0 4 (omega arith)

to_progress-ok_example :
    (is_active running_job.status ≡ true)
    × (is_active advanced_job.status ≡ true)
    × (90 ≤ 100)
    × (100 ≤ 100)
    × IsNotAhead running_job.stage advanced_job.stage
    × (id_a ≡ id_a)
    × (advanced_job.created_at ≡ running_job.created_at)
    × (advanced_job.completed_at ≡ running_job.completed_at)
unfolding to_progress is_behind stage_index
to_progress-ok_example =
    to_progress-ok id_a ProgressStage.validating_schedule 120 none running_job
      {after = advanced_job} (omega arith) refl
