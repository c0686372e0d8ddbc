-- ===== src/Provisioning.antt =====
-- The provisioning dialogue of the host: src/cli/ProvisioningRunner.cpp.
pub mod Reply
pub mod Polling
pub mod Steps
pub mod Chunks
pub mod Strip
pub mod Acks
pub mod Accepted
pub mod Handshake
pub mod Delivery
pub mod Console
pub mod Transport
pub mod Run
