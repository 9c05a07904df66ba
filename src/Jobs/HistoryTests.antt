-- ===== src/Jobs/HistoryTests.antt =====
-- A history in which a job completes, and a later one.
use mathlib.Core.List.{reverse}
use troute.Prelude.{
  ◌++◌, replicate, true, false, ok, ℕ, none, some, List, [], ◌∷◌, ◌≡◌, refl, sym, subst,
}
use troute.Jobs.Progress.{ProgressStage}
use troute.Jobs.{StoredJob, JobStatus, is_active, JobState, OptimizeRouteRequest}
use troute.Jobs.Encoding.{encode_job_id}
use troute.Jobs.Store.{
  FileJobStore, find_directory, put_directory, or_empty, job_dir, update_index_entry,
}
use troute.Jobs.Operations.{
  update_progress, to_progress, is_behind, create_job, mark_running, save_result, to_running,
}
use troute.Jobs.Recovery.{get_job}
use troute.Jobs.Invariant.{Evidence, state_of}
use troute.Jobs.History.{StoreOperation, replay, new_store, replay-final, replay-Evidence}

abbrev id_b : List ℕ
id_b = b'b' ∷ []

abbrev request_b : OptimizeRouteRequest
request_b = record { job_id = id_b; travel_mode = none }

abbrev completing : List StoreOperation
completing =
    StoreOperation.creates request_b 1
    ∷ StoreOperation.starts id_b 2
    ∷ StoreOperation.saves_result id_b (b'{' ∷ b'}' ∷ []) 3
    ∷ []

abbrev in_vain : List StoreOperation
in_vain =
    StoreOperation.cancels id_b [] 4
    ∷ StoreOperation.reports id_b ProgressStage.scheduling 10 none 5
    ∷ StoreOperation.restarts (true ∷ false ∷ true ∷ []) reverse (λ names. names) 6
    ∷ []

abbrev job_b : JobState
job_b = record {
  job_id = id_b;
  status = JobStatus.completed;
  stage = none;
  progress = 100;
  last_message = none;
  created_at = 1;
  updated_at = 3;
  completed_at = some 3;
}

replay-final_example :
    state_of
      (replay in_vain (replay completing (new_store (replicate 20 true)))).directories
      (job_dir id_b)
    ≡ some job_b
unfolding replay create_job mark_running save_result find_directory put_directory or_empty
    encode_job_id to_running is_active
replay-final_example =
    replay-final completing in_vain (replicate 20 true) (job_dir id_b) {state = job_b} refl refl

-- The eighth write, of a progress report, fails; the run goes on and completes.
abbrev with_report : List StoreOperation
with_report =
    StoreOperation.creates request_b 1
    ∷ StoreOperation.starts id_b 2
    ∷ StoreOperation.reports id_b ProgressStage.scheduling 90 none 2
    ∷ StoreOperation.saves_result id_b (b'{' ∷ b'}' ∷ []) 3
    ∷ []

goes_on :
    state_of
      (replay with_report (new_store (replicate 7 true ++ (false ∷ replicate 3 true)))).directories
      (job_dir id_b)
    ≡ some job_b
unfolding replay create_job mark_running update_progress to_progress save_result find_directory
    put_directory or_empty encode_job_id to_running is_active is_behind
goes_on = refl

abbrev stored_b : StoredJob
stored_b = record {
  request = request_b;
  state = job_b;
  result = some (b'{' ∷ b'}' ∷ []);
  error = none;
}

-- Ten writes later.
abbrev completed_store : FileJobStore
completed_store = record {
  directories =
      (
        b'b' ∷ [],
        record {
          request = some request_b;
          state = some job_b;
          result = some (b'{' ∷ b'}' ∷ []);
          error = none;
          event_sequence = some 0;
        },
      )
      ∷ [];
  index = some (
      record {
        job_id = id_b;
        status = JobStatus.completed;
        travel_mode = none;
        created_at = 1;
        updated_at = 3;
      }
      ∷ []);
  outcomes = replicate 10 true;
}

completes : replay completing (new_store (replicate 20 true)) ≡ completed_store
unfolding replay create_job mark_running save_result find_directory put_directory or_empty
    encode_job_id to_running update_index_entry
completes = refl

reads_back : get_job id_b completed_store ≡ (ok (some stored_b), completed_store)
unfolding get_job find_directory encode_job_id
reads_back = refl

replay-Evidence_example : Evidence JobStatus.completed 100 (some (b'{' ∷ b'}' ∷ [])) none
replay-Evidence_example =
    replay-Evidence completing (replicate 20 true) id_b {job = stored_b} {after = completed_store} (
      subst (λ s. get_job id_b s ≡ (ok (some stored_b), completed_store)) (sym completes)
        reads_back)
