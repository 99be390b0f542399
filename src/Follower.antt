-- ===== src/Follower.antt =====
-- The follower, after the second half of protocol/src/timeline.rs. `View` has what a reader
-- evaluates, `Core` the updates; the other children are their laws.
pub mod View
pub mod Core
pub mod Monotone
pub mod Runs
pub mod Sound
pub mod Reports
pub mod Confirm
pub use View.*
pub use Core.*
