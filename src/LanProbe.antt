-- ===== src/LanProbe.antt =====
-- scripts/lan-probe.js, the observation probe for ICE candidates and WebRTC statistics.
pub mod Candidates
pub mod Matching
pub mod Selection
pub mod Snapshots
pub mod Connections
pub mod Report
pub mod Peers
pub mod Page
mod Tests
