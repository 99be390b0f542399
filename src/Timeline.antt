-- ===== src/Timeline.antt =====
-- Timelines: protocol/src/timeline.rs up to `Timeline::from_wire`. `Defs` and `Convert` are the code,
-- the other children its laws.
pub mod Defs
pub mod Convert
pub mod Schedule
pub mod Promote
pub mod Latch
pub mod RoundTrip
pub mod Accept
pub mod Decode
pub use Defs.*
pub use Convert.*
