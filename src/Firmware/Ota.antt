-- ===== src/Firmware/Ota.antt =====
-- Updates over the air: firmware/vanilla/OtaUpdateServer.cpp and its header.
pub mod Signature
pub mod Verify
pub mod Server
pub mod Image
pub mod Upload
pub mod Post
