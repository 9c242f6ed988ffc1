-- ===== src/Rpc/Calls/Capacity.antt =====
-- The capacity that a call is checked against, and the frame that it sends.
use rtio.Prelude.{ℕ, ◌+◌, ◌^◌, ◌≤◌, ◌<◌, ◌≡◌, List, [], ◌∷◌, ◌++◌, length, ok, arith, le→ltb_false}
use rtio.Proto.Header.{decode_header}
use rtio.Proto.Types.{server_send_req}
use rtio.Rest.Framing.{frame_header}
use rtio.Rest.Co.Frames.{co_req_frame}
use rtio.Proto.Header.RoundTrip.{decode_header-bytes}
use rtio.Rest.Co.RoundTrip.{co_req_bytes}
use rtio.Server.State.{Session, M, gen_header_id}
use rtio.Server.Observing.{Arrival, timeout}
use rtio.Server.Requesting.{send, receive_co_resp}
use rtio.Server.Requesting.Sending.{send_co_req_lem, next_header_id, request}
use rtio.Rpc.Calls.{Env, Req, call_session, capacity_less}

-- A device that does not answer.
abbrev pub silent : ℕ → M Arrival
silent c s = (ok timeout, s)

-- Where a device's capacity is from 5 to 4095 bytes, Get and Post let a request through whose message
-- has a body of one to four bytes more than the capacity: the check counts one byte for the header of
-- the request, which has five. The frame is put on the connection, and its header says so.
pub call_session_over_capacity :
    (method : ℕ) (env : Env) (req : Req) (s : Session)
    → method < 16
    → env.checksum req.uri < 2 ^ 32
    → 5 ≤ s.body_cap_size
    → s.body_cap_size < length req.payload + 5
    → length req.payload < s.body_cap_size
    → length req.payload + 5 ≤ 4096
    → (frame : List ℕ) × ((call_session method (record env { wait = silent }) req s).1.outgoing_chan
        ≡ s.outgoing_chan ++ (frame ∷ []))
      × (decode_header frame
          ≡ ok (frame_header server_send_req (next_header_id s) (5 + length req.payload)))
      × (s.body_cap_size < 5 + length req.payload)
unfolding call_session send receive_co_resp gen_header_id
call_session_over_capacity method env req s m u c5 over under le = (
  co_req_frame server_send_req (request s (env.checksum req.uri) method req.payload),
  rw (
    le→ltb_false (capacity_less 1 s) (length req.payload) (omega arith),
    send_co_req_lem env.now (request s (env.checksum req.uri) method req.payload) _ (omega arith),
  ),
  decode_header-bytes (frame_header server_send_req (next_header_id s) (5 + length req.payload))
      (co_req_bytes (request s (env.checksum req.uri) method req.payload)) (omega arith),
  omega arith,
)
