-- ===== src/Wire.antt =====
-- The messages of protocol/proto/tidkod/v1 and the checks of protocol/src/lib.rs.
pub mod Messages
pub mod Validate
pub use Messages.*
pub use Validate.*
