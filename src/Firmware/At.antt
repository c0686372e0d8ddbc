-- ===== src/Firmware/At.antt =====
-- The AT commands: firmware/vanilla/AtCommandDispatcher.cpp.
pub mod Commands
pub mod Dispatcher
pub mod Matching
pub mod Credentials
pub mod SetWifi
pub mod Helo
