-- ===== src/Proto.antt =====
-- pkg/deviceproto: the frames between a device and the server.
pub mod Types
pub mod Header
pub mod Verify
pub mod Ping
pub mod Send
mod Examples
