-- ===== src/Clock.antt =====
-- The clock estimator, after protocol/src/clock.rs. `Defs` has the mapping, `Estimator` the updates,
-- `Probes` (protocol/src/probes.rs) the matching of requests and replies; the other children are
-- their laws.
pub mod Defs
pub mod Fit
pub mod Estimator
pub mod Admission
pub mod Probes
pub use Defs.*
pub use Estimator.*
