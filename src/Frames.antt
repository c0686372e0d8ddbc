-- ===== src/Frames.antt =====
-- CAN frames on the wire: the firmware prints a frame as a line of hexadecimal
-- (firmware/vanilla/CanBridge.cpp), the host reads it back (src/pipeline/Elm327Normaliser.cpp).
pub mod Bridge
pub mod Normaliser
pub mod Reader
pub mod Forward
pub mod RoundTrip
