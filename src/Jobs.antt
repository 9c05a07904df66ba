-- ===== src/Jobs.antt =====
-- src/storage.rs, src/events.rs and src/jobs.rs: persisted jobs, their progress and their events.
pub mod Progress
pub mod Encoding
pub mod Store
pub mod Operations
pub mod Recovery
pub mod Events
pub mod Advance
pub mod Invariant
pub mod Writes
pub mod Kept
pub mod Terminal
pub mod Lifecycle
pub mod Restart
pub mod History
mod Tests
mod HistoryTests
use troute.Prelude.{ℕ, Bool, true, false, Option, List, String}
use troute.Jobs.Progress.{ProgressStage}

pub data JobStatus : Type 0 where
  pending running completed failed cancelled : JobStatus

unfoldable pub is_active : JobStatus → Bool
is_active JobStatus.pending = true
is_active JobStatus.running = true
is_active JobStatus.completed = false
is_active JobStatus.failed = false
is_active JobStatus.cancelled = false

pub data TerminalWriteOutcome : Type 0 where
  applied cancelled_before : TerminalWriteOutcome

-- Ids, messages and JSON texts are byte lists. A clock before 1970 reads as 0, so timestamps are numbers.
pub record JobState : Type 0 where
  pub job_id : List ℕ
  pub status : JobStatus
  pub stage : Option ProgressStage
  pub progress : ℕ
  pub last_message : Option (List ℕ)
  pub created_at : ℕ
  pub updated_at : ℕ
  pub completed_at : Option ℕ

-- Of the request the store reads two fields. The travel mode is its tag.
pub record OptimizeRouteRequest : Type 0 where
  pub job_id : List ℕ
  pub travel_mode : Option ℕ

-- The details and suggestions of a failure, and the response, are kept as their JSON text.
pub record StoredJobError : Type 0 where
  pub code : String
  pub message : String
  pub detail : String
  pub failure_detail : Option String
  pub suggestions : Option String

pub record StoredJob : Type 0 where
  pub request : OptimizeRouteRequest
  pub state : JobState
  pub result : Option (List ℕ)
  pub error : Option StoredJobError

pub record JobIndexEntry : Type 0 where
  pub job_id : List ℕ
  pub status : JobStatus
  pub travel_mode : Option ℕ
  pub created_at : ℕ
  pub updated_at : ℕ

-- The I/O and JSON errors of the file system are one.
pub data JobStoreError : Type 0 where
  capacity_exceeded : ℕ → JobStoreError
  duplicate_job job_not_found : List ℕ → JobStoreError
  job_not_cancellable invalid_transition : List ℕ → JobStatus → JobStoreError
  io : JobStoreError
