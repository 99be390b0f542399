-- ===== src/Tests.antt =====
-- Runs of the definitions at concrete inputs, and the theorems applied to concrete inputs.
mod Samples
mod Serial
mod Frames
mod States
mod Exchanges
mod Connections
mod Searches
mod Outputs
mod Sources
mod Leading
mod Following
mod Options
mod Transports
mod Engines
mod Joining
