-- ===== src/Elm.antt =====
-- The ELM327 adapter as the host sees it: src/boundary/ELM327Transport.cpp reads its answers,
-- src/ble/Elm327Session.cpp takes its notifications, src/boundary/OBD2Protocol.cpp detects with them.
pub mod Response
pub mod Monitor
pub mod Session
pub mod Fuel
pub mod Protocol
pub mod Vin
pub mod Commands
pub mod Assertion
pub mod Stream
pub mod Frame
pub mod Answer
pub mod Prompts
pub mod RoundTrip
pub mod Banner
pub mod Stripping
pub mod Scanning
