-- ===== src/Queue/System.antt =====
-- Workers, the reaper and new uploads acting on one table, in any order, as a step relation.
pub mod Defs
mod Soundness
mod Retries
mod Rows
mod Budget
pub use Defs.{System, Step, Reach, IsNew, retriers, start}
pub use Soundness.{IsSound, Reach-IsSound}
pub use Budget.{retry_count-le}
