-- ===== src/Solver/Transition.antt =====
-- src/solver/exact/transition.rs: the clock of every solver.
use troute.Prelude.{
  ℕ, ◌+◌, ◌-◌, ◌*◌, ◌/◌, ◌%◌, ◌^◌, max, ltb, leb, if◌then◌else◌, ◌||◌, ◌&&◌, Option, none, some,
  get_elem?,
}
use troute.Prelude.U32
use troute.Prelude.Options.{◌>>=◌}
use troute.Domain.{Location, start_location}
use troute.Matrix
use troute.Solver.Types.{SolverInput, time_slot_minutes}

-- `minutes.div_ceil(TIME_SLOT_MINUTES)`.
abbrev pub minutes_to_slot_ceil : ℕ → ℕ
minutes_to_slot_ceil minutes = (minutes + time_slot_minutes - 1) / time_slot_minutes

abbrev pub slots_per_day : ℕ
slots_per_day = 24 * 60 / time_slot_minutes

abbrev pub open_slot : Location → ℕ
open_slot l = minutes_to_slot_ceil l.time_window.opens.minutes

abbrev pub close_slot : Location → ℕ
close_slot l = l.time_window.closes.minutes / time_slot_minutes

pub record InitialService : Type 0 where
  pub departure_slot : ℕ
  pub wait_minutes : ℕ

unfoldable pub initial_service : SolverInput → ℕ → Option InitialService
initial_service input start_time_slot = do
  location ← start_location input.problem
  let arrival = start_time_slot
  let service_start = max arrival (open_slot location)
  departure ← U32.checked_add service_start (minutes_to_slot_ceil location.stay_minutes)
  let close = close_slot location
  if ltb close departure || leb slots_per_day departure then none else do
    wait_minutes ← U32.checked_mul (service_start - arrival) time_slot_minutes
    some (record { departure_slot = departure % 2 ^ 16; wait_minutes = wait_minutes })

-- The read of the location after the matrix is the index of the source, which panics out of range.
unfoldable pub transition_time : SolverInput → (from to time_slot : ℕ) → Option ℕ
transition_time input from to time_slot = do
  travel ← Matrix.travel_minutes input.matrix from to
  location ← get_elem? input.problem.locations to
  arrival ← U32.checked_add time_slot (minutes_to_slot_ceil travel)
  let service_start = max arrival (open_slot location)
  finish ← U32.checked_add service_start (minutes_to_slot_ceil location.stay_minutes)
  let close = close_slot location
  if leb finish close && ltb finish slots_per_day then some (finish % 2 ^ 16) else none
