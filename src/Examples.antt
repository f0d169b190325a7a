-- ===== src/Examples.antt =====
-- Tests: concrete documents, transports and endpoints, and the theorems at concrete inputs.
pub mod Documents
pub mod Network
mod Packets
mod Caches
mod Definitions
mod Endpoints
mod Containers
mod Multiplexers
mod Transports
mod Disconnected
mod Memory
