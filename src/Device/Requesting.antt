-- ===== src/Device/Requesting.antt =====
-- The device's own requests: Get and Post of restlike.go, with sendCoReq and receiveCoResp of
-- devicesession.go, and the registration of handlers.
pub mod Sending
use rtio.Prelude.{
  ℕ, ◌+◌, ◌||◌, not, Option, none, some, List, [], length, replicate, ◌==◌, if◌then◌else◌, Outcome,
  ok, err, panic,
}
use rtio.Proto.Types.{header_len}
use rtio.Rest.Status
use rtio.Rest.Defs.{constrained_get, constrained_post}
use rtio.Rest.Co.{CoReq, header_len_co_req, encode_co_req_over_device_send_req, decode_co_resp}
use rtio.SyncMap.{SyncMap, load, store, nat_eq}
use rtio.Server.Observing.{Arrival, body, closed, timeout}
use rtio.Device.State.{
  DeviceFault, err_send_timeout, is_send_timeout, err_canceled, err_send_resp_chann_close,
  err_method_not_match, DeviceSession, Handler, ObHandler, M, ◌>>=◌, ◌>>◌, return, raise, lift,
  put_outgoing, gen_header_id, open_resp_chan, forget,
}

-- The error of restlike.go for a URI that has a handler.
pub data Registered : Type 0 where
  registered err_already_registered : Registered

-- A write to a Go map under a new key.
abbrev add_handler {ℓ} : {H : Type ℓ} → ℕ → H → Option H → SyncMap ℕ H → Registered × SyncMap ℕ H
add_handler uri h none m = (registered, store uri h m)
add_handler uri h (some old) m = (err_already_registered, m)

unfoldable pub register_get_handler : ℕ → Handler → DeviceSession → Registered × DeviceSession
register_get_handler uri handler s =
    let (r, m) = add_handler uri handler (load uri s.reg_get_handler_map) s.reg_get_handler_map in
    (r, record s { reg_get_handler_map = m })

unfoldable pub register_post_handler : ℕ → Handler → DeviceSession → Registered × DeviceSession
register_post_handler uri handler s =
    let (r, m) = add_handler uri handler (load uri s.reg_post_handler_map) s.reg_post_handler_map in
    (r, record s { reg_post_handler_map = m })

unfoldable pub register_ob_get_handler : ℕ → ObHandler → DeviceSession → Registered × DeviceSession
register_ob_get_handler uri handler s =
    let (r, m) =
      add_handler uri handler (load uri s.reg_ob_get_handler_map) s.reg_ob_get_handler_map in
    (r, record s { reg_ob_get_handler_map = m })

pub data SdkError : Type 0 where
  err_internel err_internal_server_error err_resource_not_fount err_bad_request : SdkError
  err_method_not_allowed err_too_many_requests err_request_timeout : SdkError

-- `none` is a nil error.
abbrev pub trans_to_sdk_error : ℕ → Option SdkError
trans_to_sdk_error code =
    if code == Status.unknown
    then some err_internal_server_error
    else if code == Status.internal_server_error
    then some err_internal_server_error
    else if code == Status.success
    then none
    else if code == Status.continue
    then some err_internal_server_error
    else if code == Status.terminate
    then some err_internal_server_error
    else if code == Status.not_fount
    then some err_resource_not_fount
    else if code == Status.bad_request
    then some err_bad_request
    else if code == Status.method_not_allowed
    then some err_method_not_allowed
    else if code == Status.too_many_requests
    then some err_too_many_requests
    else if code == Status.too_many_observations
    then some err_internal_server_error
    else some err_internel

unfoldable pub send_co_req : ℕ → ℕ → ℕ → ℕ → List ℕ → M ℕ
unfolding open_resp_chan
send_co_req now header_id method uri payload = do
  let req : CoReq = record { header_id = header_id; method = method; uri = uri; payload = payload }
  let room = header_len + header_len_co_req + length payload
  buf ← lift (encode_co_req_over_device_send_req req (replicate room 0))
  resp_chan ← open_resp_chan now header_id
  put_outgoing buf
  return resp_chan

abbrev pub co_result : DeviceFault → ℕ → Arrival → M (ℕ × List ℕ)
co_result late header_id closed = raise err_send_resp_chann_close
co_result late header_id timeout = raise late
co_result late header_id (body b) = do
  resp ← lift (decode_co_resp header_id b)
  if not (resp.method == constrained_get || resp.method == constrained_post)
      then raise err_method_not_match
      else return (resp.code, resp.payload)

-- The deferred deletion runs on every return.
unfoldable pub receive_co_resp : ℕ → Arrival → M (ℕ × List ℕ)
receive_co_resp header_id arrival = do
  forget header_id
  co_result err_send_timeout header_id arrival

-- Here `timeout` is the end of the context.
unfoldable pub receive_co_resp_with_context : ℕ → Arrival → M (ℕ × List ℕ)
receive_co_resp_with_context header_id arrival = do
  forget header_id
  co_result err_canceled header_id arrival

-- The data and the error that Get and Post return.
abbrev pub SdkResult : Type 0
SdkResult = List ℕ × Option SdkError

abbrev pub sdk_result :
    Outcome DeviceFault (ℕ × List ℕ) × DeviceSession → Outcome DeviceFault SdkResult × DeviceSession
sdk_result (ok (code, payload), s) = (ok (payload, trans_to_sdk_error code), s)
sdk_result (err e, s) =
    (ok ([], some (if is_send_timeout e then err_request_timeout else err_internel)), s)
sdk_result (panic, s) = (panic, s)

abbrev pub when_sent :
    Outcome DeviceFault ℕ × DeviceSession
    → (ℕ → M SdkResult)
    → Outcome DeviceFault SdkResult × DeviceSession
when_sent (ok resp_chan, s) f = f resp_chan s
when_sent (err e, s) f = (ok ([], some err_internel), s)
when_sent (panic, s) f = (panic, s)

-- The body that Get, Get2, Post and Post2 share: `wait` is what the rest of the device does until
-- the `select` fires, and how it fires.
abbrev pub co_request :
    (ℕ → Arrival → M (ℕ × List ℕ)) → ℕ → ℕ → ℕ → List ℕ → (ℕ → M Arrival) → M SdkResult
co_request receive method now uri req wait = do
  header_id ← gen_header_id
  λ s.
      when_sent (send_co_req now header_id method uri req s)
        λ resp_chan. do arrival ← wait resp_chan; λ t. sdk_result (receive header_id arrival t)

unfoldable pub get : ℕ → ℕ → List ℕ → (ℕ → M Arrival) → M SdkResult
unfolding gen_header_id send_co_req receive_co_resp
get = co_request receive_co_resp constrained_get

unfoldable pub get2 : ℕ → ℕ → List ℕ → (ℕ → M Arrival) → M SdkResult
unfolding gen_header_id send_co_req receive_co_resp_with_context
get2 = co_request receive_co_resp_with_context constrained_get

unfoldable pub post : ℕ → ℕ → List ℕ → (ℕ → M Arrival) → M SdkResult
unfolding gen_header_id send_co_req receive_co_resp
post = co_request receive_co_resp constrained_post

unfoldable pub post2 : ℕ → ℕ → List ℕ → (ℕ → M Arrival) → M SdkResult
unfolding gen_header_id send_co_req receive_co_resp_with_context
post2 = co_request receive_co_resp_with_context constrained_post
