-- ===== src/Firmware/Tcp.antt =====
-- The TCP server: firmware/vanilla/TcpServerManager.cpp.
pub mod Manager
pub mod Chunks
pub mod Access
pub mod Ping
