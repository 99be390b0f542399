-- ===== src/FollowerJob.antt =====
-- The follower's side of native/src/network.rs: `Defs`, `Receive` and `Pass` are the code, the other
-- children its laws.
pub mod Defs
pub mod Receive
pub mod Pass
pub mod Invariant
pub mod Stages
pub mod Steps
pub mod Backoff
pub mod Delivery
