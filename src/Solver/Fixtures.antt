-- ===== src/Solver/Fixtures.antt =====
-- A day trip for the tests: from a hotel to a station by a park that closes at noon.
use troute.Prelude.{ℕ, Bool, true, false, Option, none, some, List, [], ◌∷◌}
use troute.Domain.{TimeOfDay, Location, StartPolicy, VisitPolicy, RoutingReference}
use troute.Solver.Types.{SolverInput, SolverSolution, SolutionMetrics}

abbrev pub at : ℕ → TimeOfDay
at m = record { minutes = m }

abbrev pub place : ℕ → ℕ → ℕ → Bool → Location
place opens closes stay required = record {
  id = "place";
  routing_reference = RoutingReference.google_place_id "place";
  time_window = record { opens = at opens; closes = at closes };
  stay_minutes = stay;
  required = required;
  priority = 1;
}

abbrev pub trip_locations : List Location
trip_locations = place 540 1200 0 true ∷ place 600 720 60 true ∷ place 0 1400 0 true ∷ []

abbrev pub trip_rows : List (List (Option ℕ))
trip_rows =
    (some 0 ∷ some 10 ∷ some 20 ∷ [])
    ∷ (some 10 ∷ some 0 ∷ some 15 ∷ [])
    ∷ (none ∷ some 15 ∷ some 0 ∷ [])
    ∷ []

abbrev pub trip : StartPolicy → SolverInput
trip start_policy = record {
  matrix = record { rows = trip_rows };
  problem = record {
    locations = trip_locations;
    start_time = at 540;
    start_policy = start_policy;
    visit_policy = VisitPolicy.all_required;
  };
  cancelled = false;
}

abbrev pub by_the_park : SolverSolution
by_the_park = record { visit_order = 0 ∷ 1 ∷ 2 ∷ [] }

-- At 9:00 the visitor waits 50 minutes for the park.
abbrev pub early_trip : StartPolicy → SolutionMetrics
early_trip start_policy = record {
  start_policy = start_policy;
  visited_optional_count = 0;
  visited_optional_priority = 0;
  start_time_slot = 540;
  finish_time_slot = 675;
  travel_minutes = 25;
  wait_minutes = 50;
  score = 75;
}

-- 10:50 is the last minute at which the park can still be visited.
abbrev pub late_trip : SolutionMetrics
late_trip = record {
  start_policy = StartPolicy.latest;
  visited_optional_count = 0;
  visited_optional_priority = 0;
  start_time_slot = 650;
  finish_time_slot = 735;
  travel_minutes = 25;
  wait_minutes = 0;
  score = 25;
}
