-- ===== src/Initial/Tests.antt =====
-- The generators on a day trip.
use mathlib.Core.List.{reverse}
use troute.Moves.Counts.{count-reverse}
use troute.Prelude.{◌≡◌, refl, ok, arith}
use troute.Domain.{StartPolicy}
use troute.Solver.Fixtures.{trip, by_the_park}
use troute.Initial.{validate_generator_input, greedy_loop, greedy_route, random_route}
use troute.Initial.Complete.{IsValidRoute, greedy_route-IsValidRoute, random_route-IsValidRoute}

greedy_by_the_park : greedy_route (trip StartPolicy.earliest) ≡ ok by_the_park
unfolding greedy_route validate_generator_input greedy_loop
greedy_by_the_park = refl

trip_can_generate : validate_generator_input (trip StartPolicy.earliest) ≡ ok tt
unfolding validate_generator_input
trip_can_generate = refl

greedy_route-IsValidRoute_example :
    IsValidRoute (trip StartPolicy.earliest) (greedy_route (trip StartPolicy.earliest))
greedy_route-IsValidRoute_example =
    greedy_route-IsValidRoute (trip StartPolicy.earliest) (omega arith) trip_can_generate

random_route-IsValidRoute_example :
    IsValidRoute (trip StartPolicy.earliest) (random_route reverse (trip StartPolicy.earliest))
random_route-IsValidRoute_example =
    random_route-IsValidRoute reverse (trip StartPolicy.earliest) (λ xs x. count-reverse x xs)
      (omega arith) trip_can_generate
