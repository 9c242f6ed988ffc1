-- ===== src/Device/Incoming/Failing.antt =====
-- A handler of the application that fails.
use rtio.Prelude.{ℕ, suc, ◌+◌, ◌≡◌, refl, ap, ◌∙◌, none, List, ◌++◌, length, arith}
use rtio.Proto.Types.{server_send_req}
use rtio.Rest.Framing.{frame_header}
use rtio.Rest.Co.{CoReq}
use rtio.Rest.Co.RoundTrip.{FitsReq, co_req_bytes}
use rtio.Rest.Co.Frames.{co_req_frame}
use rtio.Device.State.{DeviceSession, Handler, handler_error}
use rtio.Device.Answering.Calls.{Serves, server_send_request_failed}
use rtio.Device.Incoming.{tcp_incomming, stopped, continue_with}
use rtio.Device.Incoming.Rounds.{device_incomming_step_lem}

-- When a handler of the application fails for a request of the server, the incoming loop of the
-- device ends with the handler's error. Nothing is sent for the request, and what came after it on
-- the connection is left unread.
pub handler_error_stops :
    (req : CoReq) (handler : Handler) (rest : List ℕ) (rounds : ℕ) (d : DeviceSession)
    → FitsReq req
    → Serves d req.method req.uri handler
    → handler req.payload ≡ none
    → d.conn_in ≡ co_req_frame server_send_req req ++ rest
    → tcp_incomming (suc rounds) d ≡ (stopped handler_error, record d { conn_in = rest })
unfolding tcp_incomming
handler_error_stops req handler rest rounds d v serves h e =
    let bytes = co_req_bytes req ++ rest in
    ap (continue_with (tcp_incomming rounds)) (
      device_incomming_step_lem
        (frame_header server_send_req req.header_id (5 + length req.payload)) bytes d
        (omega (arith, v)) e
      ∙ server_send_request_failed req handler rest (record d { conn_in = bytes }) v serves refl h)
