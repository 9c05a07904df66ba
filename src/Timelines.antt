-- ===== src/Timelines.antt =====
-- src/observation.rs: the timelines of requests and responses that are kept in memory for each job.
pub mod Keys
pub mod Bounds
pub mod Suffix
mod Tests
use text.Mathlib.Text.{◌==◌}
use troute.Prelude.{
  ℕ, max, ltb, leb, if◌then◌else◌, Bool, true, false, not, ◌||◌, Option, none, some, String, List,
  [], ◌∷◌, ◌++◌, map, length,
}
use troute.Prelude.Options.{is_some}
use troute.Prelude.Loops.{retain}

module _ {ℓ} {V : Type ℓ} where
  -- The map of the store, in the order in which its keys were inserted.
  abbrev pub get : String → List (String × V) → Option V
  get k [] = none
  get k ((j, v) ∷ m) = if j == k then some v else get k m

  abbrev pub remove : String → List (String × V) → List (String × V)
  remove k m = retain (λ e. not (e.0 == k)) m

  -- `get_mut`, with what is done to the value; nothing happens where the key is missing.
  abbrev pub update : String → (V → V) → List (String × V) → List (String × V)
  update k f [] = []
  update k f ((j, v) ∷ m) = if j == k then (j, f v) ∷ m else (j, v) ∷ update k f m

module _ {ℓ} {E : Type ℓ} where
  -- `while entries.len() > max { entries.pop_front() }`.
  unfoldable pub trim : ℕ → List E → List E
  trim max_entries [] = []
  trim max_entries (e ∷ es) =
      let rest = trim max_entries es in if ltb max_entries (length (e ∷ es)) then rest else e ∷ es

  abbrev pub or_empty : Option (List E) → List E
  or_empty none = []
  or_empty (some es) = es

-- `InMemoryJobTimelineStore`, with its entries as a parameter.
pub record TimelineStore {ℓ} (E : Type ℓ) : Type ℓ where
  pub max_jobs : ℕ
  pub max_entries_per_job : ℕ
  pub jobs : List (String × List E)
  pub job_order : List String

module _ {ℓ} {E : Type ℓ} where
  unfoldable pub new : ℕ → ℕ → TimelineStore E
  new max_jobs max_entries = record {
    max_jobs = max max_jobs 1;
    max_entries_per_job = max max_entries 1;
    jobs = [];
    job_order = [];
  }

  -- `while jobs.len() >= max_jobs { ... }`: the oldest job goes, until there is room or the queue is
  -- empty.
  unfoldable pub evict :
      ℕ → List String → List (String × List E) → List String × List (String × List E)
  evict max_jobs [] jobs = ([], jobs)
  evict max_jobs (oldest ∷ order) jobs =
      let rest = evict max_jobs order (remove oldest jobs) in
      if leb max_jobs (length jobs) then rest else (oldest ∷ order, jobs)

  -- The branch of `append` for a job that has no timeline.
  unfoldable pub open_timeline : String → TimelineStore E → TimelineStore E
  unfolding evict
  open_timeline job s =
      if is_some (get job s.jobs)
      then s
      else let kept = evict s.max_jobs s.job_order s.jobs in
        record s { jobs = kept.1 ++ ((job, []) ∷ []); job_order = kept.0 ++ (job ∷ []) }

  unfoldable pub append : String → E → TimelineStore E → TimelineStore E
  unfolding open_timeline trim
  append job entry s =
      let opened = open_timeline job s in
      record opened {
        jobs = update job (λ es. trim opened.max_entries_per_job (es ++ (entry ∷ []))) opened.jobs;
      }

  unfoldable pub list : String → TimelineStore E → List E
  list job s = or_empty (get job s.jobs)

  unfoldable pub clear : String → TimelineStore E → TimelineStore E
  clear job s = record s {
    jobs = remove job s.jobs;
    job_order = retain (λ stored. not (stored == job)) s.job_order;
  }

-- What is done to a store, in the order in which its mutex lets it happen.
pub data Use {ℓ} (E : Type ℓ) : Type ℓ where
  appended : String → E → Use E
  cleared : String → Use E

module _ {ℓ} {E : Type ℓ} where
  unfoldable pub run : List (Use E) → TimelineStore E → TimelineStore E
  unfolding append clear
  run [] s = s
  run (appended job entry ∷ uses) s = run uses (append job entry s)
  run (cleared job ∷ uses) s = run uses (clear job s)
