-- ===== src/Timelines/Tests.antt =====
-- A store for one job and two entries.
use troute.Prelude.{arith, ℕ, max, ◌≡◌, refl, List, [], ◌∷◌}
use troute.Timelines.{TimelineStore, Use, appended, cleared, list, append, new, run}
use troute.Timelines.Bounds.{IsBounded, run-IsBounded}
use troute.Timelines.Suffix.{IsExtended, IsSuffix, appended_since_clear, list-append, run-IsSuffix}

abbrev small_store : TimelineStore ℕ
small_store = record {
  max_jobs = 1;
  max_entries_per_job = 2;
  jobs = ("trip", 4 ∷ 5 ∷ []) ∷ [];
  job_order = "trip" ∷ [];
}

abbrev some_uses : List (Use ℕ)
some_uses =
    appended "trip" 1
    ∷ cleared "trip"
    ∷ appended "trip" 2
    ∷ appended "trip" 3
    ∷ appended "trip" 4
    ∷ []

keeps_the_last : list "trip" (run some_uses (new 1 2)) ≡ 3 ∷ 4 ∷ []
unfolding list run new
keeps_the_last = refl

evicts_the_oldest : list "trip" (append "tour" 7 small_store) ≡ []
unfolding list append
evicts_the_oldest = refl

run-IsBounded_example :
    IsBounded (run some_uses (new 1 2))
    × ((run some_uses (new 1 2)).max_jobs ≡ max 1 1)
    × ((run some_uses (new 1 2)).max_entries_per_job ≡ max 2 1)
run-IsBounded_example = run-IsBounded 1 2 some_uses

run-IsSuffix_example :
    IsSuffix (list "trip" (run some_uses (new 1 2))) (appended_since_clear "trip" some_uses [])
run-IsSuffix_example = run-IsSuffix "trip" 1 2 some_uses

list-append_example :
    IsExtended 2 (list "trip" small_store) 6 (list "trip" (append "trip" 6 small_store))
list-append_example = list-append "trip" 6 small_store (omega arith)
