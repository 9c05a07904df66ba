-- ===== src/Domain.antt =====
-- src/domain.rs: the value types of an optimisation problem and of a computed route.
pub mod Time
pub mod TimeText
mod Problem
mod Tests
pub use Time.{TimeOfDay, TimeParseError, minutes_per_day, IsInDay}
pub use Problem.*
