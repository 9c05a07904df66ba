-- ===== src/Schedule/Agreement.antt =====
-- src/solver.rs and src/schedule.rs: the solvers' clock and the schedule, edge by edge.
use troute.Prelude.{
  ℕ, ◌+◌, ◌-◌, ◌≡◌, refl, inl, inr, Option-cases, Result-cases, some, ok, List, [], ◌∷◌, get_elem?,
  arith,
}
use troute.Domain.{TimeOfDay, ScheduledStop, IsInDay, start_location}
use troute.Domain.Time
use troute.Matrix
use troute.Matrix.{TravelTimeMatrix}
use troute.Solver.Types.{SolverInput}
use troute.Solver.Transition.{InitialService, initial_service}
use troute.Solver.Evaluate.{Progress, simulate_edge, simulate_edges, simulate_route}
use troute.Solver.Evaluate.Monotone.{IsSound, depart}
use troute.Schedule.{
  Clock, schedule_edge, schedule_edges, schedule_start, schedule_order, later, stop_at,
}

-- The clock of the schedule and the progress of the simulation read the same.
pub record Agrees (c : Clock) (p : Progress) : Type 0 where
  pub time : c.current_time.minutes ≡ p.time_slot
  pub travel : c.total_travel_minutes ≡ p.travel_minutes
  pub wait : c.total_wait_minutes ≡ p.wait_minutes
  pub sound : IsSound p

module _ (input : SolverInput) (start_time : TimeOfDay) where
  -- An edge that the simulation drives is scheduled, with the same times.
  simulated→scheduled :
      (from to : ℕ) (c : Clock) (p : Progress) {p' : Progress}
      → Agrees c p
      → simulate_edge input from to p ≡ some p'
      → (stop : ScheduledStop) × (c' : Clock) × (schedule_edge input.problem input.matrix start_time
            from to c
          ≡ ok (stop, c'))
        × Agrees c' p'
  unfolding simulate_edge schedule_edge Time.checked_add
  simulated→scheduled from to c p {p'} a h =
      elim (Option-cases (Matrix.travel_minutes input.matrix from to)) [
        | inl cut ↦ absurd (ground arith)
        | inr (travel, driven) ↦ elim (Option-cases (get_elem? input.problem.locations to)) [
          | inl missing ↦ absurd (ground arith)
          | inr (l, found) ↦
              let arrival : TimeOfDay = record { minutes = p.time_slot + travel } in
              let service : TimeOfDay = later arrival l.time_window.opens in
              let departure : TimeOfDay = record { minutes = service.minutes + l.stay_minutes } in
              let c' : Clock = record {
                current_time = departure;
                total_travel_minutes = p.travel_minutes + travel;
                total_wait_minutes = p.wait_minutes + (service.minutes - arrival.minutes);
              } in
              (stop_at to l arrival service departure, c', ground arith, ground arith)
        ]
      ]

  -- An edge that is scheduled is driven by the simulation, with the same times.
  scheduled→simulated :
      (from to : ℕ) (c : Clock) (p : Progress) {stop : ScheduledStop} {c' : Clock}
      → Agrees c p
      → schedule_edge input.problem input.matrix start_time from to c ≡ ok (stop, c')
      → (p' : Progress) × (simulate_edge input from to p ≡ some p') × Agrees c' p'
  unfolding simulate_edge schedule_edge Time.checked_add
  scheduled→simulated from to c p {stop} {c'} a h = (
    record {
      time_slot = c'.current_time.minutes;
      travel_minutes = c'.total_travel_minutes;
      wait_minutes = c'.total_wait_minutes;
    },
    ground arith,
    ground arith,
  )

  simulated→scheduled_edges :
      (from : ℕ) (rest : List ℕ) (c : Clock) (p : Progress) {p' : Progress}
      → Agrees c p
      → simulate_edges input from rest p ≡ some p'
      → (stops : List ScheduledStop) × (c' : Clock) × (schedule_edges input.problem input.matrix
            start_time from rest c
          ≡ ok (stops, c'))
        × Agrees c' p'
  unfolding simulate_edges schedule_edges
  simulated→scheduled_edges from [] c p a h = ([], c, refl, ground arith)
  simulated→scheduled_edges from (to ∷ rest) c p {p'} a h =
      elim (Option-cases (simulate_edge input from to p)) [
        | inl cut ↦ absurd (ground arith)
        | inr (q, went) ↦
            let (stop, d, e, b) = simulated→scheduled from to c p a went in
            let (stops, c', e', b') =
              simulated→scheduled_edges to rest d q {p' = p'} b (ground arith) in
            (stop ∷ stops, c', rw e (rw e'), b')
      ]

  scheduled→simulated_edges :
      (from : ℕ) (rest : List ℕ) (c : Clock) (p : Progress) {stops : List ScheduledStop}
      {c' : Clock}
      → Agrees c p
      → schedule_edges input.problem input.matrix start_time from rest c ≡ ok (stops, c')
      → (p' : Progress) × (simulate_edges input from rest p ≡ some p') × Agrees c' p'
  unfolding simulate_edges schedule_edges
  scheduled→simulated_edges from [] c p a h = (p, refl, ground arith)
  scheduled→simulated_edges from (to ∷ rest) c p {stops} {c'} a h =
      elim (Result-cases (schedule_edge input.problem input.matrix start_time from to c)) [
        | inr (e, failed) ↦ absurd (ground arith)
        | inl (step, went) ↦
            let (q, e, b) = scheduled→simulated from to c p {stop = step.0} {c' = step.1} a went in
            elim (Result-cases
              (schedule_edges input.problem input.matrix start_time to rest step.1)) [
                | inr (e', failed) ↦ absurd (ground arith)
                | inl (more, went_on) ↦
                    let (p', e', b') =
                      scheduled→simulated_edges to rest step.1 q {stops = more.0} {c' = more.1} b
                        went_on in
                    let same : more.1 ≡ c' = ground arith in (p', rw e e', rw same at b')
              ]
      ]

  -- The first stop: the two sides accept the same starts.
  begin_simulated→scheduled :
      {i : InitialService}
      → IsInDay start_time
      → initial_service input start_time.minutes ≡ some i
      → (stop : ScheduledStop) × (c : Clock) × (schedule_start input.problem start_time
          ≡ ok (stop, c))
        × Agrees c (record {
          time_slot = i.departure_slot;
          travel_minutes = 0;
          wait_minutes = i.wait_minutes;
        })
  unfolding initial_service schedule_start Time.checked_add
  begin_simulated→scheduled {i} day h = elim (Option-cases (start_location input.problem)) [
    | inl missing ↦ absurd (ground arith)
    | inr (l, found) ↦
        let service : TimeOfDay = later start_time l.time_window.opens in
        let departure : TimeOfDay = record { minutes = service.minutes + l.stay_minutes } in
        (
          stop_at 0 l start_time service departure,
          record {
            current_time = departure;
            total_travel_minutes = 0;
            total_wait_minutes = service.minutes - start_time.minutes;
          },
          ground arith,
          ground arith,
        )
  ]

  begin_scheduled→simulated :
      {stop : ScheduledStop} {c : Clock}
      → IsInDay start_time
      → schedule_start input.problem start_time ≡ ok (stop, c)
      → (i : InitialService) × (initial_service input start_time.minutes ≡ some i)
        × Agrees c (record {
          time_slot = i.departure_slot;
          travel_minutes = 0;
          wait_minutes = i.wait_minutes;
        })
  unfolding initial_service schedule_start Time.checked_add
  begin_scheduled→simulated {stop} {c} day h = (
    record { departure_slot = c.current_time.minutes; wait_minutes = c.total_wait_minutes },
    ground arith,
    ground arith,
  )

  -- A whole order of at least one location.
  pub order_simulated→scheduled :
      (order : List ℕ) {p : Progress}
      → IsInDay start_time
      → simulate_route input order start_time.minutes ≡ some p
      → (begin : ScheduledStop × Clock) × (more : List ScheduledStop × Clock) × (schedule_start
            input.problem start_time
          ≡ ok begin)
        × (schedule_order input.problem input.matrix start_time order begin.1 ≡ ok more)
        × Agrees more.1 p
  unfolding simulate_route schedule_order
  order_simulated→scheduled [] day h = cc
  order_simulated→scheduled (from ∷ rest) {p} day h =
      elim (Option-cases (initial_service input start_time.minutes)) [
        | inl shut ↦ absurd (ground arith)
        | inr (i, started) ↦
            let (stop, c, e, a) = begin_simulated→scheduled day started in
            let (stops, c', e', a') =
              simulated→scheduled_edges from rest c
                (depart start_time.minutes i.departure_slot i.wait_minutes) {p' = p} a
                (ground arith) in
            ((stop, c), (stops, c'), e, e', a')
      ]

  pub order_scheduled→simulated :
      (from : ℕ) (rest : List ℕ) {begin : ScheduledStop × Clock} {more : List ScheduledStop × Clock}
      → IsInDay start_time
      → schedule_start input.problem start_time ≡ ok begin
      → schedule_order input.problem input.matrix start_time (from ∷ rest) begin.1 ≡ ok more
      → (p : Progress) × (simulate_route input (from ∷ rest) start_time.minutes ≡ some p)
        × Agrees more.1 p
  unfolding simulate_route schedule_order
  order_scheduled→simulated from rest {begin} {more} day e h =
      let (i, started, a) = begin_scheduled→simulated {stop = begin.0} {c = begin.1} day e in
      let (p, driven, b) =
        scheduled→simulated_edges from rest begin.1
          (depart start_time.minutes i.departure_slot i.wait_minutes) {stops = more.0} {c' = more.1}
          a h in
      (p, rw started driven, b)
