-- ===== src/Link.antt =====
-- The two ends of a connection together: the server's session of devicetcp/session.go, and the
-- device's of devicesession.go.
pub mod Calls
pub mod Handshake
pub mod Users
pub mod Resources
pub mod Observations
pub mod Notifications
pub mod Streams
pub mod Traffic
pub mod Oversize
mod Examples
