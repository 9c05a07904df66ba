-- ===== src/Domain/Problem.antt =====
-- src/domain.rs: policies, time windows, locations, problems, scheduled stops and plans.
-- The accessors of the structs are the fields of the records.
use troute.Prelude.{
  ℕ, ◌-◌, ltb, if◌then◌else◌, Bool, true, Option, Result, ok, err, String, List, length, first,
  last,
}
use troute.Domain.Time.{TimeOfDay}

pub data StartPolicy : Type 0 where
  fixed earliest latest : StartPolicy

pub data VisitPolicy : Type 0 where
  all_required best_effort_on_failure : VisitPolicy

pub data RoutingReference : Type 0 where
  google_place_id : String → RoutingReference

pub record TimeWindow : Type 0 where
  pub opens : TimeOfDay
  pub closes : TimeOfDay

pub data DomainError : Type 0 where
  invalid_time_window : DomainError

-- `TimeWindow::new`.
unfoldable pub new_time_window : TimeOfDay → TimeOfDay → Result TimeWindow DomainError
new_time_window opens closes =
    if ltb closes.minutes opens.minutes
    then err DomainError.invalid_time_window
    else ok (record { opens = opens; closes = closes })

pub record Location : Type 0 where
  pub id : String
  pub routing_reference : RoutingReference
  pub time_window : TimeWindow
  pub stay_minutes : ℕ
  pub required : Bool
  pub priority : ℕ

-- `Location::new`.
unfoldable pub new_location : String → RoutingReference → TimeWindow → ℕ → Location
new_location id routing_reference time_window stay_minutes = record {
  id = id;
  routing_reference = routing_reference;
  time_window = time_window;
  stay_minutes = stay_minutes;
  required = true;
  priority = 1;
}

unfoldable pub with_visit_metadata : Location → Bool → ℕ → Location
with_visit_metadata l required priority = record l { required = required; priority = priority }

pub record OptimizationProblem : Type 0 where
  pub locations : List Location
  pub start_time : TimeOfDay
  pub start_policy : StartPolicy
  pub visit_policy : VisitPolicy

-- `with_policies`: its assertion that there is a location holds only in debug builds.
unfoldable pub with_policies :
    List Location → TimeOfDay → StartPolicy → VisitPolicy → OptimizationProblem
with_policies locations start_time start_policy visit_policy = record {
  locations = locations;
  start_time = start_time;
  start_policy = start_policy;
  visit_policy = visit_policy;
}

unfoldable pub with_start_policy : List Location → TimeOfDay → StartPolicy → OptimizationProblem
unfolding with_policies
with_start_policy locations start_time start_policy =
    with_policies locations start_time start_policy VisitPolicy.all_required

-- `none` is the panic of a problem with no location.
abbrev pub start_location : OptimizationProblem → Option Location
start_location p = first p.locations

abbrev pub end_location : OptimizationProblem → Option Location
end_location p = last p.locations

abbrev pub start_location_index : OptimizationProblem → ℕ
start_location_index p = 0

-- On a problem with a location, as every problem that the service builds has.
abbrev pub end_location_index : OptimizationProblem → ℕ
end_location_index p = length p.locations - 1

pub record ScheduledStop : Type 0 where
  pub location_index : ℕ
  pub arrival_time : TimeOfDay
  pub service_start_time : TimeOfDay
  pub departure_time : Option TimeOfDay
  pub wait_minutes : ℕ
  pub stay_minutes : ℕ

pub record RoutePlan : Type 0 where
  pub stops : List ScheduledStop
  pub total_travel_minutes : ℕ
