-- ===== src/Firmware.antt =====
-- The firmware's hardware-free classes: firmware/vanilla. The hardware behind an interface answers
-- through arguments, and what the code does to it is a list of effects.
pub mod Framer
pub mod Reset
pub mod Led
pub mod At
pub mod Tcp
pub mod Wifi
pub mod Ota
