-- ===== src/Selection/Agreement.antt =====
-- src/solver/orchestrator: the best that the accumulator keeps, and what the selector chooses.
use troute.Prelude.{
  true, inl, inr, Option, none, some, Option-cases, List, [], ◌∷◌, ◌≡◌, refl, sym, ap, ok_or, ◌∙◌,
  arith, ok, err,
}
use troute.Domain.{StartPolicy}
use troute.Solver.Types.{SolverSolution, SolutionMetrics, SolverError}
use troute.Selection.{
  SolverCandidate, is_selectable, compare_scores, compare_feasible, compare_candidates, rank,
  select,
}
use troute.Selection.Tracker.{new_accumulator, accumulate, warm_start}
use troute.Solver.Objective.{default_compare}
use troute.Solver.Objective.Comparison.{MetricsOf, default_compare-IsWeakOrder}
use troute.Selection.Choice.{better, first_best, select-rank}
use troute.Selection.Tracking.{
  all_have_routes, hold, hold_all, Tracks, Tracks-accumulate, Tracks-warm_start,
}

-- The metrics of all scored candidates are of one start policy, as those of one problem are.
abbrev pub HasPolicyScore : StartPolicy → Option SolutionMetrics → Type 0
HasPolicyScore p none = Unit
HasPolicyScore p (some m) = m.start_policy ≡ p

abbrev pub AllHavePolicy : StartPolicy → List SolverCandidate → Type 0
AllHavePolicy p [] = Unit
AllHavePolicy p (c ∷ cs) = HasPolicyScore p c.objective_score × AllHavePolicy p cs

unfoldable pub HeldHasPolicy : StartPolicy → Option SolverCandidate → Type 0
HeldHasPolicy p none = Unit
HeldHasPolicy p (some c) = (is_selectable c ≡ true) × HasPolicyScore p c.objective_score

-- Whichever of a held candidate and the first best of the others wins.
abbrev settle : Option SolverCandidate → Option SolverCandidate → Option SolverCandidate
settle none rest = rest
settle (some b) rest = better default_compare b rest

settle-hold :
    (p : StartPolicy) (held : Option SolverCandidate) (c : SolverCandidate)
    (rest : Option SolverCandidate)
    → HeldHasPolicy p held
    → HasPolicyScore p c.objective_score
    → HeldHasPolicy p rest
    → settle (hold default_compare held c) rest ≡ settle held (better default_compare c rest)
unfolding hold HeldHasPolicy compare_candidates compare_scores compare_feasible
settle-hold p none c rest h g f = ground arith
settle-hold p (some b) c none h g f = ground arith
settle-hold p (some b) c (some d) h g f =
    let w = default_compare-IsWeakOrder p in
    elim (Option-cases b.objective_score) [
      | inl u ↦ absurd (ground arith)
      | inr (mb, u) ↦ elim (Option-cases d.objective_score) [
        | inl v ↦ absurd (ground arith)
        | inr (md, v) ↦ elim (Option-cases c.objective_score) [
          | inl x ↦ ground arith
          | inr (mc, x) ↦
              let kb : MetricsOf p = (mb, ground arith) in
              let kc : MetricsOf p = (mc, ground arith) in
              let kd : MetricsOf p = (md, ground arith) in
              ground (
                arith,
                w.lt_trans kd kc kb,
                w.lt_trans kb kc kd,
                w.lt_trans kc kb kd,
                w.lt_trans kc kd kb,
                w.eq_congr kc kb kd,
                w.eq_congr kc kd kb,
                w.eq_congr kd kc kb,
                w.swap kb kc,
                w.swap kb kd,
                w.swap kc kd,
              )
        ]
      ]
    ]

better-HeldHasPolicy :
    (p : StartPolicy) (c : SolverCandidate) (rest : Option SolverCandidate)
    → HasPolicyScore p c.objective_score
    → HeldHasPolicy p rest
    → HeldHasPolicy p (better default_compare c rest)
unfolding HeldHasPolicy
better-HeldHasPolicy p c none g f = ground arith
better-HeldHasPolicy p c (some d) g f = ground arith

pub first_best-HeldHasPolicy :
    (p : StartPolicy) (cs : List SolverCandidate)
    → AllHavePolicy p cs
    → HeldHasPolicy p (first_best default_compare cs)
unfolding HeldHasPolicy
first_best-HeldHasPolicy p [] h = tt
first_best-HeldHasPolicy p (c ∷ cs) h =
    better-HeldHasPolicy p c (first_best default_compare cs) h.0 (first_best-HeldHasPolicy p cs h.1)

hold-HeldHasPolicy :
    (p : StartPolicy) (held : Option SolverCandidate) (c : SolverCandidate)
    → HeldHasPolicy p held
    → HasPolicyScore p c.objective_score
    → HeldHasPolicy p (hold default_compare held c)
unfolding HeldHasPolicy hold
hold-HeldHasPolicy p none c h g = ground arith
hold-HeldHasPolicy p (some b) c h g = ground arith

hold_all-first_best :
    (p : StartPolicy) (held : Option SolverCandidate) (cs : List SolverCandidate)
    → HeldHasPolicy p held
    → AllHavePolicy p cs
    → hold_all default_compare held cs ≡ settle held (first_best default_compare cs)
unfolding hold_all HeldHasPolicy
hold_all-first_best p none [] h g = refl
hold_all-first_best p (some b) [] h g = ground arith
hold_all-first_best p held (c ∷ cs) h g =
    hold_all-first_best p (hold default_compare held c) cs (hold-HeldHasPolicy p held c h g.0) g.1
    ∙ settle-hold p held c (first_best default_compare cs) h g.0 (first_best-HeldHasPolicy p cs g.1)

-- For the default objective, where all scores are of one start policy: ranking all candidates and
-- taking the first usable one chooses what one pass over them in the order of registration chooses,
-- which replaces its choice only by a strictly better candidate. Where no candidate is feasible with
-- a score, the answer is `NoFeasibleRoute`.
pub select-hold_all :
    (p : StartPolicy) (cs : List SolverCandidate)
    → AllHavePolicy p cs
    → select (rank default_compare cs)
      ≡ ok_or (hold_all default_compare none cs) SolverError.no_feasible_route
unfolding HeldHasPolicy
select-hold_all p cs h =
    select-rank default_compare cs
    ∙ ap (λ best. ok_or best SolverError.no_feasible_route)
        (sym (hold_all-first_best p none cs tt h))

-- The route of what `rank` and `select` choose.
abbrev pub chosen_route : List SolverCandidate → Option SolverSolution
chosen_route cs = elim (select (rank default_compare cs)) [
  | ok chosen ↦ chosen.route
  | err e ↦ none
]

-- For the default objective, where all scores are of one start policy and every scored candidate
-- has its route: the route with which the accumulator starts annealing runs, after it has taken all
-- candidates in, is the route of the candidate that ranking and selecting them chooses.
pub warm_start-accumulate :
    (p : StartPolicy) (cs : List SolverCandidate)
    → AllHavePolicy p cs
    → all_have_routes cs ≡ true
    → warm_start (accumulate default_compare new_accumulator cs) ≡ chosen_route cs
unfolding Tracks HeldHasPolicy
warm_start-accumulate p cs h r =
    let tracks = Tracks-accumulate default_compare new_accumulator none cs (refl, refl) r in
    ground (
      arith,
      Tracks-warm_start default_compare (accumulate default_compare new_accumulator cs)
          (hold_all default_compare none cs) tracks,
      hold_all-first_best p none cs tt h,
      select-rank default_compare cs,
    )
