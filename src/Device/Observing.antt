-- ===== src/Device/Observing.antt =====
-- The device's side of an observation: the goroutine `observe`, which sends each notification of a
-- handler's channel and waits for the answer.
use rtio.Prelude.{
  ℕ, ◌+◌, not, Bool, true, false, Option, none, some, List, [], ◌∷◌, length, replicate, ◌==◌,
  if◌then◌else◌, Outcome, ok, err, panic,
}
use rtio.Proto.Types.{header_len}
use rtio.Rest.Status
use rtio.Rest.Defs.{observed_get}
use rtio.Rest.Observe.{
  ObGetNotifyReq, header_len_ob_get_notify_req, encode_ob_get_notify_req_over_device_send_req,
  decode_ob_get_notify_resp,
}
use rtio.Server.Observing.{Arrival, body, closed, timeout}
use rtio.Device.State.{
  DeviceFault, err_send_timeout, err_send_resp_chann_close, err_observa_not_match, DeviceSession, M,
  ◌>>=◌, ◌>>◌, return, raise, lift, put_outgoing, gen_header_id, open_resp_chan, forget,
}

abbrev pub notify_req : ℕ → ℕ → ℕ → List ℕ → ObGetNotifyReq
notify_req ob_id header_id code payload = record {
  header_id = header_id;
  method = observed_get;
  code = code;
  ob_id = ob_id;
  payload = payload;
}

-- What sendObNotifyReq and sendObNotifyReqTerminate share.
abbrev pub send_notify : ℕ → ObGetNotifyReq → M ℕ
send_notify now req = do
  let room = header_len + header_len_ob_get_notify_req + length req.payload
  buf ← lift (encode_ob_get_notify_req_over_device_send_req req (replicate room 0))
  resp_chan ← open_resp_chan now req.header_id
  put_outgoing buf
  return resp_chan

unfoldable pub send_ob_notify_req : ℕ → ℕ → ℕ → List ℕ → M ℕ
unfolding open_resp_chan
send_ob_notify_req now ob_id header_id payload =
    send_notify now (notify_req ob_id header_id Status.continue payload)

unfoldable pub send_ob_notify_req_terminate : ℕ → ℕ → ℕ → M ℕ
unfolding open_resp_chan
send_ob_notify_req_terminate now ob_id header_id =
    send_notify now (notify_req ob_id header_id Status.terminate [])

abbrev pub notify_status : ℕ → ℕ → Arrival → M ℕ
notify_status ob_id header_id closed = raise err_send_resp_chann_close
notify_status ob_id header_id timeout = raise err_send_timeout
notify_status ob_id header_id (body b) = do
  resp ← lift (decode_ob_get_notify_resp header_id b)
  if not (resp.ob_id == ob_id)
      then raise err_observa_not_match
      else if not (resp.method == observed_get)
      then return Status.method_not_allowed
      else return resp.code

-- The deferred deletion runs on every return.
unfoldable pub receive_ob_notify_resp : ℕ → ℕ → Arrival → M ℕ
receive_ob_notify_resp ob_id header_id arrival = do
  forget header_id
  notify_status ob_id header_id arrival

-- One value from the handler's channel, `none` when it is closed, at a time, and what the rest of the
-- device does until the answer arrives.
pub record Round : Type 0 where
  pub received : Option (List ℕ)
  pub now : ℕ
  pub wait : ℕ → M Arrival

abbrev pub send_round : ℕ → ℕ → ℕ → Option (List ℕ) → M ℕ
send_round ob_id now header_id (some payload) = send_ob_notify_req now ob_id header_id payload
send_round ob_id now header_id none = send_ob_notify_req_terminate now ob_id header_id

-- A round of the loop, to the status that the server answers.
abbrev pub observe_round : ℕ → Round → M ℕ
observe_round ob_id r = do
  header_id ← gen_header_id
  resp_chan ← send_round ob_id r.now header_id r.received
  arrival ← r.wait resp_chan
  receive_ob_notify_resp ob_id header_id arrival

-- How the goroutine stands: it has returned, and cancelled the handler's context, or it waits for the
-- next value.
pub data Observing : Type 0 where
  returned waiting crashed : Observing

abbrev is_closed : Option (List ℕ) → Bool
is_closed none = true
is_closed (some payload) = false

abbrev next_round :
    (DeviceSession → Observing × DeviceSession)
    → Option (List ℕ)
    → Outcome DeviceFault ℕ × DeviceSession
    → Observing × DeviceSession
next_round loop none (ok status, s) = (returned, s)
next_round loop (some payload) (ok status, s) =
    if status == Status.continue then loop s else (returned, s)
next_round loop received (err e, s) = (returned, s)
next_round loop received (panic, s) = (crashed, s)

-- The loop, over the values that the channel gives; it waits when they run out.
unfoldable pub observe : ℕ → List Round → DeviceSession → Observing × DeviceSession
unfolding gen_header_id send_ob_notify_req send_ob_notify_req_terminate receive_ob_notify_resp
observe ob_id [] s = (waiting, s)
observe ob_id (r ∷ rs) s = next_round (observe ob_id rs) r.received (observe_round ob_id r s)
