-- ===== src/Discovery.antt =====
-- Discovery: what the firmware broadcasts (firmware/vanilla/DiscoveryManager.cpp), and how the host
-- listens and reads it (src/discovery).
pub mod Packet
pub mod Beacon
pub mod RoundTrip
pub mod Listener
pub mod Verifier
pub mod Search
pub mod Cadence
