-- ===== src/Device/Answering/Calls.antt =====
-- How the device answers a request of the server that it has a handler for.
use rtio.Prelude.{
  ℕ, ◌+◌, ◌≤◌, ◌≡◌, refl, ap, ◌∙◌, ◌⊎◌, inl, inr, ◌==◌, none, some, List, [], ◌∷◌, ◌++◌, length,
  replicate, length-replicate, ok, err, arith,
}
use rtio.Proto.Types.{server_send_req, server_send_resp}
use rtio.Proto.Header.{Header}
use rtio.Rest.Status
use rtio.Rest.Defs.{observed_get, constrained_get, constrained_post}
use rtio.Rest.Framing.{frame_header}
use rtio.Rest.Co.{CoReq, CoResp}
use rtio.Rest.Co.RoundTrip.{FitsReq, FitsResp, co_req_bytes, decode_co_req_lem}
use rtio.Rest.Co.Frames.{co_resp_frame, server_resp_frame, decode_method-co_req_bytes}
use rtio.SyncMap.{load, nat_eq}
use rtio.Device.State.{DeviceSession, Handler, handler_error}
use rtio.Device.State.Reading.{read_full_lem}
use rtio.Device.Answering.{
  server_send_request, co_get_req_handler, co_post_req_handler, co_resp, send_co_resp, co_handled,
}

-- The device has this handler for a method and a URI.
abbrev pub Serves : DeviceSession → ℕ → ℕ → Handler → Type 0
Serves d method uri handler =
    ((method ≡ constrained_get) × (load uri d.reg_get_handler_map ≡ some handler))
    ⊎ ((method ≡ constrained_post) × (load uri d.reg_post_handler_map ≡ some handler))

-- The device with one more frame to send, and the rest of the stream to read.
abbrev pub answered : DeviceSession → List ℕ → CoResp → DeviceSession
answered d rest resp = record d {
  conn_in = rest;
  outgoing_chan = d.outgoing_chan ++ (co_resp_frame server_send_resp resp ∷ []);
}

send_co_resp_lem :
    (resp : CoResp) (d : DeviceSession)
    → FitsResp resp
    → send_co_resp resp d ≡ (
      ok tt,
      record d { outgoing_chan = d.outgoing_chan ++ (co_resp_frame server_send_resp resp ∷ []) },
    )
send_co_resp_lem resp d v =
    rw (server_resp_frame resp v (replicate (6 + length resp.payload) 0) (length-replicate _ 0))

module _ (req : CoReq) (v : FitsReq req) (handler : Handler) (d : DeviceSession) where
  get_lem :
      (h : Header)
      → h.id ≡ req.header_id
      → load req.uri d.reg_get_handler_map ≡ some handler
      → co_get_req_handler h (co_req_bytes req) d ≡ co_handled req (some handler) d
  unfolding co_get_req_handler
  get_lem h i q = rw (i, decode_co_req_lem req v, q)

  post_lem :
      (h : Header)
      → h.id ≡ req.header_id
      → load req.uri d.reg_post_handler_map ≡ some handler
      → co_post_req_handler h (co_req_bytes req) d ≡ co_handled req (some handler) d
  unfolding co_post_req_handler
  post_lem h i q = rw (i, decode_co_req_lem req v, q)

-- A device that has a handler for a request calls it.
pub server_send_request_handled :
    (req : CoReq) (handler : Handler) (rest : List ℕ) (d : DeviceSession)
    → FitsReq req
    → Serves d req.method req.uri handler
    → d.conn_in ≡ co_req_bytes req ++ rest
    → server_send_request (frame_header server_send_req req.header_id (5 + length req.payload)) d
      ≡ co_handled req (some handler) (record d { conn_in = rest })
unfolding server_send_request
server_send_request_handled req handler rest d v serves e =
    let d' : DeviceSession = record d { conn_in = rest } in
    let h : Header = frame_header server_send_req req.header_id (5 + length req.payload) in
    rw
      (
        read_full_lem (5 + length req.payload) d (co_req_bytes req) rest e (omega arith),
        decode_method-co_req_bytes req v.method_lt,
      )
      (elim serves [
        | inl (m, q) ↦ rw (
          ap (λ k. k == observed_get) m,
          ap (λ k. k == constrained_get) m,
          get_lem req v handler d' h refl q,
        )
        | inr (m, q) ↦ rw (
          ap (λ k. k == observed_get) m,
          ap (λ k. k == constrained_get) m,
          ap (λ k. k == constrained_post) m,
          post_lem req v handler d' h refl q,
        )
      ])

-- Where the handler gives an answer that fits a frame, the device sends it with the status OK.
pub server_send_request_replies :
    (req : CoReq) (handler : Handler) (out rest : List ℕ) (d : DeviceSession)
    → FitsReq req
    → Serves d req.method req.uri handler
    → d.conn_in ≡ co_req_bytes req ++ rest
    → handler req.payload ≡ some out
    → 1 + length out ≤ 4096
    → server_send_request (frame_header server_send_req req.header_id (5 + length req.payload)) d
      ≡ (ok tt, answered d rest (co_resp req Status.success out))
server_send_request_replies req handler out rest d v serves e h le =
    server_send_request_handled req handler rest d v serves e
    ∙ rw h (
        send_co_resp_lem (co_resp req Status.success out) (record d { conn_in = rest })
          (omega (arith, v)))

-- Where the handler fails, the device sends no answer, and its incoming loop gets the error.
pub server_send_request_failed :
    (req : CoReq) (handler : Handler) (rest : List ℕ) (d : DeviceSession)
    → FitsReq req
    → Serves d req.method req.uri handler
    → d.conn_in ≡ co_req_bytes req ++ rest
    → handler req.payload ≡ none
    → server_send_request (frame_header server_send_req req.header_id (5 + length req.payload)) d
      ≡ (err handler_error, record d { conn_in = rest })
server_send_request_failed req handler rest d v serves e h =
    server_send_request_handled req handler rest d v serves e ∙ rw h refl
