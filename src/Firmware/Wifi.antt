-- ===== src/Firmware/Wifi.antt =====
-- The station and access-point lifecycle: firmware/vanilla/WiFiManager.h and WiFiManager.cpp.
pub mod State
pub mod Handlers
pub mod Campaign
pub mod Manager
pub mod Diagram
pub mod Steps
pub mod Runs
pub mod Rounds
pub mod Recovery
pub mod Budget
pub mod Join
