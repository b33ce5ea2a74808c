-- ===== src/Network/Tcp.antt =====
-- The TCP metrics, network/metrics.py: connections, handshakes, zero-window stalls and counts.
pub mod Handshake
pub mod Stalls
pub mod Connections
pub mod Metrics
pub mod Ratios
pub mod Handshakes
