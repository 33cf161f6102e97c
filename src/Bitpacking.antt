-- ===== src/Bitpacking.antt =====
-- src/main/algorithms/compression/physical: vertical bit packing.
pub mod Code
pub mod Lanes
pub mod Stream
pub mod Packed
pub mod Shift
pub mod Statements
pub mod Schedule
pub mod Generator
pub mod Impl
pub mod Dispatch
pub mod Generated
pub mod Pack
pub mod Column
