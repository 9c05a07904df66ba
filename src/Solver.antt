-- ===== src/Solver.antt =====
-- src/solver.rs and below: the types that solvers share, the minute-accurate transition, the
-- objective and the evaluation of complete routes.
pub mod Types
pub mod Transition
pub mod Objective
pub mod Evaluate
pub mod Fixtures
