-- ===== src/Jobs/Events.antt =====
-- src/jobs.rs: the payload of a job's events, and when it is valid.
use troute.Prelude.{ℕ, Bool, true, false, ◌&&◌, not, Option, List}
use troute.Prelude.Options.{is_some}
use troute.Jobs.Progress.{ProgressStage}
use troute.Jobs.{JobStatus, is_active, StoredJobError, StoredJob}

-- A client error has the fields of the stored one.
pub record JobClientState : Type 0 where
  pub job_id : List ℕ
  pub status : JobStatus
  pub stage : Option ProgressStage
  pub progress : ℕ
  pub last_message : Option (List ℕ)
  pub result : Option (List ℕ)
  pub error : Option StoredJobError

pub record JobEventEnvelope : Type 0 where
  pub sequence : ℕ
  pub updated_at : ℕ
  pub state : JobClientState

unfoldable pub from_stored_job : ℕ → StoredJob → JobEventEnvelope
from_stored_job sequence job = record {
  sequence = sequence;
  updated_at = job.state.updated_at;
  state = record {
    job_id = job.state.job_id;
    status = job.state.status;
    stage = job.state.stage;
    progress = job.state.progress;
    last_message = job.state.last_message;
    result = job.result;
    error = job.error;
  };
}

-- The names of events. `other` is every other text.
pub data EventName : Type 0 where
  snapshot progress_event completed_event failed_event cancelled_event other : EventName

unfoldable pub payload_is_valid : JobStatus → Bool → Bool → Bool
payload_is_valid JobStatus.pending has_result has_error = not has_result && not has_error
payload_is_valid JobStatus.running has_result has_error = not has_result && not has_error
payload_is_valid JobStatus.completed has_result has_error = has_result && not has_error
payload_is_valid JobStatus.failed has_result has_error = not has_result && has_error
payload_is_valid JobStatus.cancelled has_result has_error = not has_result && not has_error

unfoldable pub name_is_valid : JobStatus → Bool → EventName → Bool
unfolding is_active
name_is_valid status has_stage EventName.snapshot = true
name_is_valid status has_stage EventName.progress_event = is_active status && has_stage
name_is_valid status has_stage EventName.completed_event = elim status [
  | JobStatus.completed ↦ true
  | _ ↦ false
]
name_is_valid status has_stage EventName.failed_event = elim status [
  | JobStatus.failed ↦ true
  | _ ↦ false
]
name_is_valid status has_stage EventName.cancelled_event = elim status [
  | JobStatus.cancelled ↦ true
  | _ ↦ false
]
name_is_valid status has_stage EventName.other = false

unfoldable pub is_valid_for_event : JobEventEnvelope → EventName → Bool
unfolding payload_is_valid name_is_valid
is_valid_for_event envelope event =
    payload_is_valid envelope.state.status (is_some envelope.state.result)
      (is_some envelope.state.error)
    && name_is_valid envelope.state.status (is_some envelope.state.stage) event
