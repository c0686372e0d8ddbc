-- ===== src/Tests.antt =====
-- Runs of the model on small inputs, and the theorems at concrete arguments.
pub mod Sample
mod Decoding
mod Files
mod Discovering
mod Console
mod Network
mod Wifi
mod Vehicle
mod Commands
mod Update
mod Playing
mod Dialogue
mod Adapter
