-- ===== src/Leader.antt =====
-- The leader's side of native/src/network.rs: `Changes`, `State` and `Job` are the code, `Serving` and
-- `Lifecycle` code with its laws, the other children laws.
pub mod Changes
pub mod State
pub mod Job
pub mod Appends
pub mod Anchors
pub mod Controls
pub mod Commands
pub mod Passes
pub mod Serving
pub mod Published
pub mod Lifecycle
pub mod Promotion
