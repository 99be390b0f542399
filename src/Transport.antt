-- ===== src/Transport.antt =====
-- The native transport: native/src/transport/mod.rs (its errors), quic.rs (connections, streams and
-- the endpoint) and runtime.rs (timers and machines).
pub mod Defs
pub mod Shared
pub mod Receiving
pub mod Bytes
pub mod Sending
pub mod Connections
pub mod Quinn
pub mod Visits
pub mod Endpoint
pub mod Packets
pub mod Bounds
pub mod Capacity
pub mod Observers
pub mod Segments
pub mod Arrivals
pub mod Tables
pub mod Wakes
pub mod Timers
pub mod Peers
pub mod Handshakes
pub mod Budget
