-- ===== src/Solver/Objective.antt =====
-- src/solver.rs, `DefaultObjectivePolicy`, and the trait of src/solver/core/objective.rs.
pub mod Order
pub mod Comparison
mod Tests
use troute.Prelude.{ℕ, ◌+◌, ◌*◌, ◌^◌, compare, Ordering}
use troute.Domain.{StartPolicy}
use troute.Solver.Types.{SolutionMetrics}

-- The trait `ObjectivePolicy`.
pub record ObjectivePolicy : Type 0 where
  pub score : ℕ → ℕ → ℕ
  pub frontier_cost : ℕ → ℕ → ℕ
  pub cmp : SolutionMetrics → SolutionMetrics → Ordering

-- `Ordering::then` and `Ordering::then_with`.
abbrev pub then_with : Ordering → Ordering → Ordering
then_with Ordering.eq second = second
then_with Ordering.lt second = Ordering.lt
then_with Ordering.gt second = Ordering.gt

unfoldable pub default_score : ℕ → ℕ → ℕ
default_score travel_minutes wait_minutes = travel_minutes + wait_minutes

-- `(travel << 32) | wait` of two `u32`: the parts do not overlap, so the or is a sum.
unfoldable pub default_frontier_cost : ℕ → ℕ → ℕ
default_frontier_cost travel_minutes wait_minutes = travel_minutes * 2 ^ 32 + wait_minutes

unfoldable pub start_order : StartPolicy → SolutionMetrics → SolutionMetrics → Ordering
start_order StartPolicy.fixed left right = Ordering.eq
start_order StartPolicy.earliest left right = compare left.start_time_slot right.start_time_slot
start_order StartPolicy.latest left right = compare right.start_time_slot left.start_time_slot

-- The assertion that both start policies agree holds only in debug builds.
unfoldable pub default_compare : SolutionMetrics → SolutionMetrics → Ordering
default_compare left right =
    then_with (compare right.visited_optional_count left.visited_optional_count) (
      then_with (compare right.visited_optional_priority left.visited_optional_priority) (
        then_with (start_order left.start_policy left right) (
          then_with (compare left.finish_time_slot right.finish_time_slot) (
            then_with (compare left.travel_minutes right.travel_minutes) (
              then_with (compare left.wait_minutes right.wait_minutes)
                (compare left.score right.score))))))

abbrev pub default_objective_policy : ObjectivePolicy
default_objective_policy = record {
  score = default_score;
  frontier_cost = default_frontier_cost;
  cmp = default_compare;
}
