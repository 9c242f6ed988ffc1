-- ===== src/Device.antt =====
-- internal/deviceaccess/access_client/devicesession: the SDK on the device, which keeps its connection
-- to the access server.
pub mod State
pub mod Requesting
pub mod Observing
pub mod Answering
pub mod Incoming
pub mod Serving
mod Examples
