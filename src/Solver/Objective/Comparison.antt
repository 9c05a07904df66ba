-- ===== src/Solver/Objective/Comparison.antt =====
-- src/solver.rs, `DefaultObjectivePolicy`: the comparison as an order, and its ties.
use troute.Prelude.{ℕ, ◌^◌, ◌<◌, ◌≡◌, ◌↔◌, ◌⊎◌, Ordering, arith}
use troute.Domain.{StartPolicy}
use troute.Solver.Types.{SolutionMetrics}
use troute.Solver.Objective.{default_compare, start_order, default_frontier_cost}
use troute.Solver.Objective.Order.{
  IsWeakOrder, IsWeakOrder-key, IsWeakOrder-flip, IsWeakOrder-eq, IsWeakOrder-then_with,
}

-- The metrics that one problem gives its routes: all have the start policy of the problem.
abbrev pub MetricsOf : StartPolicy → Type 0
MetricsOf p = (m : SolutionMetrics) × (m.start_policy ≡ p)

abbrev pub compare_of : (p : StartPolicy) → MetricsOf p → MetricsOf p → Ordering
compare_of p left right = default_compare left.0 right.0

start_order-IsWeakOrder :
    (p : StartPolicy) → IsWeakOrder {A = MetricsOf p} (λ left right. start_order p left.0 right.0)
unfolding start_order
start_order-IsWeakOrder StartPolicy.fixed = IsWeakOrder-eq
start_order-IsWeakOrder StartPolicy.earliest = IsWeakOrder-key (λ m. m.0.start_time_slot)
start_order-IsWeakOrder StartPolicy.latest =
    IsWeakOrder-flip (IsWeakOrder-key (λ m. m.0.start_time_slot))

start_order_of-IsWeakOrder :
    (p : StartPolicy)
    → IsWeakOrder {A = MetricsOf p} (λ left right. start_order left.0.start_policy left.0 right.0)
start_order_of-IsWeakOrder p =
    let w = start_order-IsWeakOrder p in
    record {
      swap = λ a b. simp (a.1, b.1) (w.swap a b);
      lt_trans = λ a b c u v. simp a.1 (w.lt_trans a b c (simp a.1 at u) (simp b.1 at v));
      eq_congr = λ a b c u. simp (a.1, b.1) (w.eq_congr a b c (simp a.1 at u));
    }

-- On the metrics of one start policy the objective is an order: comparing the other way round
-- gives the opposite answer, better-than is transitive, and tied metrics compare alike with all
-- others.
pub default_compare-IsWeakOrder : (p : StartPolicy) → IsWeakOrder (compare_of p)
unfolding default_compare
default_compare-IsWeakOrder p =
    IsWeakOrder-then_with (IsWeakOrder-flip (IsWeakOrder-key (λ m. m.0.visited_optional_count))) (
      IsWeakOrder-then_with
        (IsWeakOrder-flip (IsWeakOrder-key (λ m. m.0.visited_optional_priority)))
        (IsWeakOrder-then_with (start_order_of-IsWeakOrder p) (
          IsWeakOrder-then_with (IsWeakOrder-key (λ m. m.0.finish_time_slot)) (
            IsWeakOrder-then_with (IsWeakOrder-key (λ m. m.0.travel_minutes)) (
              IsWeakOrder-then_with (IsWeakOrder-key (λ m. m.0.wait_minutes))
                (IsWeakOrder-key (λ m. m.0.score)))))))

-- Metrics of one start policy tie exactly when they agree in optional visits, their priority,
-- finish, travel, waiting and score, and in the start too unless the start is fixed.
pub default_compare-eq :
    (a b : SolutionMetrics)
    → a.start_policy ≡ b.start_policy
    → (default_compare a b ≡ Ordering.eq) ↔ (
        (a.visited_optional_count ≡ b.visited_optional_count)
        × (a.visited_optional_priority ≡ b.visited_optional_priority)
        × ((a.start_policy ≡ StartPolicy.fixed) ⊎ (a.start_time_slot ≡ b.start_time_slot))
        × (a.finish_time_slot ≡ b.finish_time_slot)
        × (a.travel_minutes ≡ b.travel_minutes)
        × (a.wait_minutes ≡ b.wait_minutes)
        × (a.score ≡ b.score))
unfolding default_compare start_order
default_compare-eq a b same = ground arith

-- The packed frontier cost orders travel first and waiting second, for waiting times of a `u32`.
pub default_frontier_cost-lt :
    (travel wait travel' wait' : ℕ)
    → wait < 2 ^ 32
    → wait' < 2 ^ 32
    → (default_frontier_cost travel wait < default_frontier_cost travel' wait')
      ↔ ((travel < travel') ⊎ ((travel ≡ travel') × (wait < wait')))
unfolding default_frontier_cost
default_frontier_cost-lt t w t' w' h h' = ground arith
