-- ===== src/Network.antt =====
-- Network captures and their analysis, network/.
pub mod Packets
pub mod Stats
pub mod Warnings
pub mod Tcp
pub mod Quic
pub mod Udp
pub mod Aggregate
pub mod Capture
pub mod Tests
