-- ===== src/Lib.antt =====
-- Verification of troute, a route optimizer: given places with opening hours, stays and a matrix
-- of travel times, it searches a visit order, times it, and runs such searches as persisted jobs.
--
-- The parts and their files, with the paths of the code from the repository's root:
--
-- - `Domain` (src/domain.rs): times of day and their text (`Domain.TimeText`), locations, problems
--   and plans (`Domain.Problem`). A time is a number of minutes, and a valid one is below 1440.
-- - `Matrix` (src/matrix.rs): travel times as rows of optional numbers. `Matrix.Laws` has the
--   checks of its construction.
-- - `Solver` (src/solver.rs, src/solver/core, src/solver/exact/transition.rs): the types that
--   solvers share, the minute clock (`Solver.Transition`), the objective (`Solver.Objective`) and
--   `evaluate_solution` (`Solver.Evaluate`): a visit order is checked, driven from the requested
--   minute, and under the latest policy driven again from later starts by a binary search.
-- - `Schedule` (src/schedule.rs): the same order, checked again and turned into a plan with stops
--   and errors. `Schedule.Marks` and `Schedule.Orders` compare the two checks,
--   `Schedule.Agreement` the two drives, edge by edge, and `Schedule.Outcome` the two parts as a
--   whole.
-- - `Selection` (src/solver/orchestrator/selector.rs, candidate_accumulator.rs beside it, and
--   src/solver/portfolio/objective.rs): the candidates that solvers return, ranked and selected,
--   and the best one tracked while they arrive. The evaluator of the metrics is a parameter, which
--   the objective of `Solver.Objective` fills.
-- - `Exact` (src/solver/exact): the bit-mask search for the best route. `Exact.Search` has the
--   search from one start, loop by loop, and `Exact.Solve` the choice of the start. A mask is a
--   number with its bit operations by recursion (`Exact.Masks`, `Exact.Sums`); cells and arena are
--   lists. `Exact.Search.Route`, `Cells`, `Rounds`, `Complete` and `Sound` follow what a state of the
--   arena stands for up to the result; `Better`, `Offers`, `Prefixes`, `Stages`, `Reached`, `Chain`
--   and `Optimal` follow an arbitrary route through the cells that cover it.
-- - `Resources` (src/solver/portfolio/resources.rs): the budget that solver runs lease from. The
--   mutex makes each acquisition and each drop of a lease one step of `Resources.Conservation`.
-- - `Initial` (src/solver/initial): the greedy and the random route, and in
--   `Initial.Mst` the one by a spanning tree: `Initial.Euler` has the walk around the tree and
--   `Initial.Tours` what shortens it to a route.
--   `Initial.Counts` reads the check of a visit order as a count of each location.
-- - `Moves` (src/solver/heuristic/annealing/neighbor.rs): the moves of annealing from a route to a
--   neighbour, with each vector operation on lists.
-- - `Timelines` (the in-memory store of src/observation.rs): the entries kept for each job, as a map
--   with a queue of its keys.
-- - `Jobs` (src/storage.rs, src/events.rs, the event payload of src/jobs.rs): the file store of
--   jobs. `Jobs.Store` has its files, `Jobs.Operations` the operations, `Jobs.Recovery` the
--   restart and the reads, `Jobs.History` all of them in any order. The invariant of its
--   directories is in `Jobs.Invariant`, and what writes do to it in `Jobs.Writes`, `Jobs.Kept`,
--   `Jobs.Terminal`, `Jobs.Lifecycle` and `Jobs.Restart`.
-- - `Prelude`: names of the libraries, lists over native numbers, results, checked arithmetic, and
--   `sort_by` of the standard library as a stable sort, where the comparison is an order up to ties.
--
-- Numbers of the source that can wrap around or saturate do so here, at 2^16, 2^32 or 2^64. A
-- `panic` on an index is a missing answer where the order has not been validated. The binary
-- search is given one round for each minute of its interval, which is enough since the interval
-- shrinks in each. The way back through the arena of the exact search is given as many rounds as
-- the arena has states, which is enough since a predecessor stands before its state. The loop of
-- `acquire_until` runs over the rounds that the clock and other threads make. A store has a
-- list of the outcomes of the writes to come, so that any of them may fail and the store be used
-- further, or the machine stop. An operation takes them from the list as it writes.
-- The walk around a tree is given a round for each neighbour of each node and one for the way back,
-- which is enough.
--
-- Text is a list of bytes where the code looks into it. A cancellation token, a clock reading and
-- the order of a directory listing are arguments. Not modelled: JSON and the file system below
-- whole files, HTTP, routing providers and their caches, the initial routes by matchings and
-- clusters and the chain of all generators, annealing but for its moves, the clustered,
-- mixed-integer and external solvers, the asynchronous job runner, telemetry and logging, and
-- everything that computes with floats.
pub mod Prelude
pub mod Domain
pub mod Matrix
pub mod Solver
pub mod Schedule
pub mod Exact
pub mod Initial
pub mod Moves
pub mod Timelines
pub mod Selection
pub mod Resources
pub mod Jobs
