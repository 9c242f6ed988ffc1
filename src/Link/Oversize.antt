-- ===== src/Link/Oversize.antt =====
-- An answer of the device that is longer than a frame may be.
use rtio.Prelude.{
  ℕ, ◌+◌, ◌*◌, ◌/◌, ◌%◌, ◌≤◌, ◌<◌, ◌≡◌, refl, ◌∙◌, some, List, [], ◌∷◌, ◌++◌, length, drop,
  replicate, length-replicate, length-drop, ok, arith,
}
use rtio.Proto.Types.{server_send_req, server_send_resp}
use rtio.Proto.Header.Layout.{header_bytes}
use rtio.Proto.Header.RoundTrip.{decode_header_long}
use rtio.Rest.Status
use rtio.Rest.Framing.{frame_header}
use rtio.Rest.Co.{CoReq, CoResp, encode_co_resp, encode_co_resp_over_server_send_resp}
use rtio.Rest.Co.RoundTrip.{FitsReq, co_req_bytes, co_resp_bytes, encode_co_resp_fields}
use rtio.Rest.Co.Frames.{co_req_frame, co_resp_frame, over_frame}
use rtio.Server.State.{Session, err_decode}
use rtio.Server.State.Reading.{read_full_lem}
use rtio.Server.Incoming.{Config, Effect, stopped, incomming_step, tcp_incomming}
use rtio.Device.State.{DeviceSession, Handler}
use rtio.Device.Answering.{co_resp}
use rtio.Device.Answering.Calls.{Serves, answered, server_send_request_handled}
use rtio.Device.Incoming
use rtio.Device.Incoming.Rounds.{device_incomming_step_lem}

-- The encoder of a response refuses no length.
oversize_frame :
    (resp : CoResp) (buf : List ℕ)
    → resp.method < 16
    → resp.code < 16
    → resp.header_id < 65536
    → 1 + length resp.payload < 65536
    → length buf ≡ 6 + length resp.payload
    → encode_co_resp_over_server_send_resp resp buf ≡ ok (co_resp_frame server_send_resp resp)
unfolding encode_co_resp_over_server_send_resp
oversize_frame resp buf m c i n room =
    over_frame server_send_resp resp.header_id (1 + length resp.payload) _ _ buf
      (co_resp_bytes resp) (encode_co_resp resp) (omega (arith, i, n)) (omega arith)
      (omega (arith, n)) room (omega arith)
      (encode_co_resp_fields resp (drop 5 buf) m c (omega (arith, length-drop 5 buf)))

-- And no device with a handler for a request stops.
oversize_answered :
    (req : CoReq) (handler : Handler) (out rest : List ℕ) (d : DeviceSession)
    → FitsReq req
    → Serves d req.method req.uri handler
    → d.conn_in ≡ co_req_frame server_send_req req ++ rest
    → handler req.payload ≡ some out
    → 1 + length out < 65536
    → Incoming.incomming_step d ≡ (ok tt, answered d rest (co_resp req Status.success out))
oversize_answered req handler out rest d v serves e h n =
    device_incomming_step_lem (frame_header server_send_req req.header_id (5 + length req.payload))
      (co_req_bytes req ++ rest) d (omega (arith, v)) e
    ∙ (server_send_request_handled req handler rest
          (record d { conn_in = co_req_bytes req ++ rest }) v serves refl
        ∙ rw
            (
              h,
              oversize_frame (co_resp req Status.success out) (replicate (6 + length out) 0)
                  v.method_lt (omega arith) v.id_lt n (length-replicate _ 0),
            )
            refl)

-- A frame with a body of more than 4096 bytes ends the session's loop.
oversize_stops :
    (c : Config) (cs : List Config) (es : List Effect) (resp : CoResp) (more : List ℕ) (s : Session)
    → resp.header_id < 65536
    → 4096 < 1 + length resp.payload
    → 1 + length resp.payload < 65536
    → (tcp_incomming
        (c ∷ cs)
        es
        (record s { conn_in = co_resp_frame server_send_resp resp ++ more })).exit
      ≡ stopped err_decode
unfolding tcp_incomming incomming_step
oversize_stops c cs es resp more s i long n =
    let h = frame_header server_send_resp resp.header_id (1 + length resp.payload) in
    let stream = co_resp_frame server_send_resp resp ++ more in
    rw
      (
        read_full_lem 5 (record s { conn_in = stream }) (header_bytes h)
            (co_resp_bytes resp ++ more) refl refl,
        decode_header_long (server_send_resp * 16 + 1) (resp.header_id / 256) (resp.header_id % 256)
            ((1 + length resp.payload) / 256) ((1 + length resp.payload) % 256) []
            (omega arith, (omega arith, (omega arith, (omega arith, (omega arith, tt)))))
            (omega arith),
      )
      refl

pub oversize_answer_stops :
    (c : Config) (cs : List Config) (es : List Effect) (req : CoReq) (handler : Handler)
    (out rest more : List ℕ) (d : DeviceSession) (s : Session)
    → FitsReq req
    → Serves d req.method req.uri handler
    → d.conn_in ≡ co_req_frame server_send_req req ++ rest
    → handler req.payload ≡ some out
    → 4096 ≤ length out
    → length out < 65535
    → (frame : List ℕ) × (Incoming.incomming_step d
        ≡ (ok tt, record d { conn_in = rest; outgoing_chan = d.outgoing_chan ++ (frame ∷ []) }))
      × ((tcp_incomming (c ∷ cs) es (record s { conn_in = frame ++ more })).exit
          ≡ stopped err_decode)
oversize_answer_stops c cs es req handler out rest more d s v serves e h long n =
    let resp = co_resp req Status.success out in
    (
      co_resp_frame server_send_resp resp,
      oversize_answered req handler out rest d v serves e h (omega (arith, n)),
      oversize_stops c cs es resp more s v.id_lt (omega (arith, long)) (omega (arith, n)),
    )
