-- ===== src/Rpc/Calls.antt =====
-- Get and Post of the AccessServer.
pub mod Answers
pub mod Capacity
use rtio.Prelude.{
  ℕ, ◌+◌, ◌-◌, ◌==◌, Bool, Option, none, some, List, [], length, ltb, if◌then◌else◌, u16, Outcome,
  ok, err, panic,
}
use rtio.Rest.Defs.{constrained_get, constrained_post}
use rtio.Rest.Co.{header_len_co_resp}
use rtio.Server.State.{Fault, is_send_timeout, Session, M, return}
use rtio.Server.Observing.{Arrival}
use rtio.Server.Requesting.{send}
use rtio.Server.Sessions.{SessionMap, get_session_of}
use rtio.Rpc.Codes.{
  trans_to_rpc_code, code_ok, code_deviceid_offline, code_bad_request, code_request_timeout,
  code_internal_server_error,
}

-- Req and Resp of the generated protobuf code.
pub record Req : Type 0 where
  pub id : ℕ
  pub device_id : List ℕ
  pub uri : List ℕ
  pub payload : List ℕ

pub record Resp : Type 0 where
  pub id : ℕ
  pub code : ℕ
  pub payload : List ℕ

-- The server's sessions, and the session that each pointer in the map stands for.
pub record AccessServer : Type 0 where
  pub sessions : SessionMap
  pub objects : ℕ → Session

abbrev pub update : (ℕ → Session) → ℕ → Session → ℕ → Session
update objects h s k = if h == k then s else objects k

-- What the rest of the program gives to a call: crc32.ChecksumIEEE, the time, and what happens while
-- the call waits for the device.
pub record Env : Type 0 where
  pub checksum : List ℕ → ℕ
  pub now : ℕ
  pub wait : ℕ → M Arrival

abbrev coded : Req → ℕ → Resp
coded req code = record { id = req.id; code = code; payload = [] }

-- `session.BodyCapSize - n` in uint16.
abbrev pub capacity_less : ℕ → Session → ℕ
capacity_less n s = u16 (s.body_cap_size + 65536 - n)

-- The data goes with CODE_OK only.
abbrev pub answered : Req → ℕ → List ℕ → Resp
answered req code payload = record {
  id = req.id;
  code = code;
  payload = if code == code_ok then payload else [];
}

abbrev pub sent_result : Req → Outcome Fault (ℕ × List ℕ) × Session → Outcome Fault Resp × Session
sent_result req (ok (code, payload), s) = (ok (answered req (trans_to_rpc_code code) payload), s)
sent_result req (err e, s) = (
  ok (coded req (if is_send_timeout e then code_request_timeout else code_internal_server_error)),
  s,
)
sent_result req (panic, s) = (panic, s)

-- What Get and Post do with the session of the device.
unfoldable pub call_session : ℕ → Env → Req → M Resp
call_session method env req s =
    if ltb (capacity_less header_len_co_resp s) (length req.payload)
    then (ok (coded req code_bad_request), s)
    else sent_result req (send env.now (env.checksum req.uri) method req.payload env.wait s)

abbrev pub call_found : AccessServer → ℕ → Env → Req → Option ℕ → Outcome Fault Resp × AccessServer
call_found a method env req none = (ok (coded req code_deviceid_offline), a)
call_found a method env req (some h) =
    let (result, s) = call_session method env req (a.objects h) in
    (result, record a { objects = update a.objects h s })

unfoldable pub get : Env → Req → AccessServer → Outcome Fault Resp × AccessServer
unfolding call_session
get env req a = call_found a constrained_get env req (get_session_of req.device_id a.sessions)

unfoldable pub post : Env → Req → AccessServer → Outcome Fault Resp × AccessServer
unfolding call_session
post env req a = call_found a constrained_post env req (get_session_of req.device_id a.sessions)
