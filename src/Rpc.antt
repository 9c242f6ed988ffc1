-- ===== src/Rpc.antt =====
-- internal/deviceaccess/access_server/apprpc/apprpc.go: the calls that users make, handed on to the
-- session of their device.
pub mod Codes
pub mod Calls
pub mod Observe
mod Examples
