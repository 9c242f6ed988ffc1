-- ===== src/Server/Resources.antt =====
-- Requests from the device to the backend in devicetcp/session.go: deviceSendRequest, receiveCoReq,
-- accessResource and sendCoResp.
-- The device service and its gRPC client are not part of the program: what they answer is an
-- argument.
pub mod Calls
use rtio.Prelude.{
  ℕ, ◌+◌, ◌||◌, Bool, true, false, Option, List, [], length, replicate, ◌==◌, u16, if◌then◌else◌,
  Outcome, ok, err, panic,
}
use rtio.Proto.Types.{header_len}
use rtio.Proto.Header.{Header}
use rtio.Rest.Status
use rtio.Rest.Defs.{constrained_get, constrained_post, observed_get, decode_method}
use rtio.Rest.Co.{
  CoReq, CoResp, header_len_co_resp, decode_co_req, encode_co_resp_over_device_send_resp,
}
use rtio.Utils.{gen_uint32_id}
use rtio.Server.State.{
  Fault, backend_error, err_method_not_allowed, err_resource_not_found, M, ◌>>=◌, return,
  get_session, lift, ignore_error, read_full, put_outgoing,
}
use rtio.Server.Observing.{receive_ob_notify_req}

-- deviceservice.Req of the generated protobuf code.
pub record ServiceReq : Type 0 where
  pub id : ℕ
  pub device_id : List ℕ
  pub uri : ℕ
  pub payload : List ℕ

-- deviceservice.Resp, as far as the server reads it, or the error of the call.
pub data Reply : Type 0 where
  replied : ℕ → List ℕ → Reply
  unimplemented failed : Reply

pub record Service : Type 0 where
  pub has_client : Bool
  pub random : Option ℕ
  pub post : ServiceReq → Reply
  pub get : ServiceReq → Reply

-- The values of deviceservice.Code.
abbrev pub trans_to_device_code : ℕ → ℕ
trans_to_device_code code =
    if code == 0
    then Status.internal_server_error
    else if code == 1
    then Status.success
    else if code == 4
    then Status.continue
    else if code == 5
    then Status.terminate
    else if code == 6
    then Status.not_fount
    else if code == 7
    then Status.bad_request
    else if code == 8
    then Status.method_not_allowed
    else if code == 9
    then Status.too_many_requests
    else if code == 10
    then Status.too_many_observations
    else Status.unknown

abbrev pub call_result : Reply → Outcome Fault (ℕ × List ℕ)
call_result (replied code payload) = ok (code, payload)
call_result unimplemented = err err_method_not_allowed
call_result failed = err backend_error

unfoldable pub access_resource : Service → ℕ → ServiceReq → Outcome Fault (ℕ × List ℕ)
access_resource service method req =
    if service.has_client
    then (if method == constrained_post
        then call_result (service.post req)
        else if method == constrained_get
        then call_result (service.get req)
        else err err_method_not_allowed)
    else err err_resource_not_found

-- The code and data of the response.
abbrev pub co_answer : Outcome Fault (ℕ × List ℕ) → ℕ × List ℕ
co_answer (ok (code, payload)) =
    let device_code = trans_to_device_code code in
    (device_code, if device_code == Status.success then payload else [])
co_answer (err err_method_not_allowed) = (Status.method_not_allowed, [])
co_answer (err err_resource_not_found) = (Status.not_fount, [])
co_answer (err e) = (Status.internal_server_error, [])
co_answer panic = (Status.internal_server_error, [])

unfoldable pub send_co_resp : CoResp → M (Unit {0})
send_co_resp resp = do
  let room = u16 (header_len + header_len_co_resp + u16 (length resp.payload))
  buf ← lift (encode_co_resp_over_device_send_resp resp (replicate room 0))
  put_outgoing buf

abbrev pub query : Bool → Service → CoReq → M (ℕ × List ℕ)
query true service req = return (Status.method_not_allowed, [])
query false service req = do
  id ← lift (gen_uint32_id service.random)
  s ← get_session
  return (
      co_answer (
        access_resource service req.method
          (record { id = id; device_id = s.device_id; uri = req.uri; payload = req.payload })))

-- `disabled` is the flag `disable.deviceservice`. An error of sendCoResp is logged and dropped.
unfoldable pub receive_co_req : Bool → Service → Header → List ℕ → M (Unit {0})
unfolding send_co_resp
receive_co_req disabled service header buf = do
  req ← lift (decode_co_req header.id buf)
  (code, payload) ← query disabled service req
  ignore_error (
      send_co_resp
        (record { header_id = req.header_id; method = req.method; code = code; payload = payload }))

unfoldable pub device_send_request : Bool → Service → Header → M (Unit {0})
device_send_request disabled service header = do
  body_buf ← read_full header.body_len
  method ← lift (decode_method body_buf)
  if method == constrained_get || method == constrained_post
      then receive_co_req disabled service header body_buf
      else if method == observed_get
      then receive_ob_notify_req header body_buf
      else return tt
