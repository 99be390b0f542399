-- ===== src/Timecode.antt =====
-- Timecode arithmetic, after protocol/src/timecode.rs, and the error type of protocol/src/lib.rs.
-- The children: frame formats and labels, Q32 positions, rational rates.
pub mod Defs
pub mod Labels
pub mod Motion
pub mod Positions
pub mod Bounds
pub mod Rates
pub use Defs.*
pub use Motion.*
