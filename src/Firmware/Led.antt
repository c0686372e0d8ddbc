-- ===== src/Firmware/Led.antt =====
-- The status LED: firmware/vanilla/StatusLED.cpp and LedPatternPolicy.cpp.
pub mod Patterns
pub mod Player
pub mod Playback
