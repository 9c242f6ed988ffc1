-- ===== src/Server.antt =====
-- internal/deviceaccess/access_server/devicetcp: a device's connection, as the server serves it.
pub mod State
pub mod Observing
pub mod Requesting
pub mod Verifying
pub mod Pinging
pub mod Resources
pub mod Incoming
pub mod Sessions
pub mod Serving
pub mod Goroutines
pub mod Listening
mod Examples
