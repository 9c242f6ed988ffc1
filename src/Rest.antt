-- ===== src/Rest.antt =====
-- pkg/deviceproto/codec_restlike.go: the REST-like layer that rides on SendReq and SendResp.
-- Method and StatusCode are uint8 in the source and numbers here. An encoder's result is the
-- buffer as the call leaves it.
pub mod Status
pub mod Defs
pub mod Framing
pub mod Co
pub mod Observe
mod Examples
