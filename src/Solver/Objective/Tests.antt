-- ===== src/Solver/Objective/Tests.antt =====
-- The objective on two routes of one problem.
use troute.Prelude.{◌≡◌, refl, Ordering}
use troute.Domain.{StartPolicy}
use troute.Solver.Objective.{default_compare, start_order}
use troute.Solver.Objective.Order.{IsWeakOrder}
use troute.Solver.Objective.Comparison.{compare_of, default_compare-IsWeakOrder}
use troute.Solver.Fixtures.{late_trip, early_trip}

-- The later start wins under the latest policy, although it finishes later.
prefers_late : default_compare late_trip (early_trip StartPolicy.latest) ≡ Ordering.lt
unfolding default_compare start_order
prefers_late = refl

default_compare-IsWeakOrder_example : IsWeakOrder (compare_of StartPolicy.latest)
default_compare-IsWeakOrder_example = default_compare-IsWeakOrder StartPolicy.latest
