-- ===== src/Device/Answering.antt =====
-- What the device does with a message of the server: serverSendRequest with the three handlers, and
-- deviceSendRespone.
pub mod Calls
use rtio.Prelude.{
  ℕ, ◌+◌, Option, none, some, List, [], ◌∷◌, ◌++◌, length, replicate, ◌==◌, if◌then◌else◌, Outcome,
  ok, err, panic,
}
use rtio.Proto.Types.{Error, header_len}
use rtio.Proto.Header.{Header}
use rtio.Proto.Send.{decode_send_resp_body}
use rtio.Rest.Status
use rtio.Rest.Defs.{constrained_get, constrained_post, observed_get, decode_method}
use rtio.Rest.Co.{
  CoReq, CoResp, header_len_co_resp, decode_co_req, encode_co_resp_over_server_send_resp,
}
use rtio.Rest.Observe.{
  ObGetEstabReq, ObGetEstabResp, header_len_ob_get_estab_resp, decode_ob_get_estab_req,
  encode_ob_get_estab_resp_over_server_send_resp,
}
use rtio.SyncMap.{SyncMap, load, store, nat_eq}
use rtio.TimeKv
use rtio.Device.State.{
  DeviceFault, handler_error, err_header_id_not_exist, DeviceSession, Handler, ObHandler, Observer,
  M, ◌>>=◌, ◌>>◌, return, raise, crash, modify, get_session, lift, read_full, put_outgoing,
}

abbrev pub estab_resp : ObGetEstabReq → ℕ → ObGetEstabResp
estab_resp req code = record {
  header_id = req.header_id;
  method = req.method;
  code = code;
  ob_id = req.ob_id;
}

abbrev encode_estab : ObGetEstabReq → ℕ → M (List ℕ)
encode_estab req code = lift (
    encode_ob_get_estab_resp_over_server_send_resp (estab_resp req code)
      (replicate (header_len + header_len_ob_get_estab_resp) 0))

-- `go s.observe(...)`.
abbrev start_observer : ℕ → ℕ → M (Unit {0})
start_observer ob_id c = modify λ s. record s {
  observers = s.observers ++ (record { ob_id = ob_id; notify_req_chan = c } ∷ []);
}

-- The goroutine starts after the encoding.
abbrev ob_estab_answer : ObGetEstabReq → Option ObHandler → M (List ℕ)
ob_estab_answer req none = encode_estab req Status.not_fount
ob_estab_answer req (some handler) = elim (handler req.payload) [
  | none ↦ raise handler_error
  | some c ↦ do buf ← encode_estab req Status.continue; start_observer req.ob_id c; return buf
]

-- On a decoding error the log call reads `req.ObID` of a nil request.
unfoldable pub ob_get_req_handler : Header → List ℕ → M (Unit {0})
ob_get_req_handler header req_buf = elim (decode_ob_get_estab_req header.id req_buf) [
  | ok req ↦ do
    s ← get_session
    resp_buf ← ob_estab_answer req (load req.uri s.reg_ob_get_handler_map)
    put_outgoing resp_buf
  | err e ↦ crash
  | panic ↦ crash
]

abbrev pub co_resp : CoReq → ℕ → List ℕ → CoResp
co_resp req code payload = record {
  header_id = req.header_id;
  method = req.method;
  code = code;
  payload = payload;
}

abbrev pub send_co_resp : CoResp → M (Unit {0})
send_co_resp resp = do
  let room = header_len + header_len_co_resp + length resp.payload
  buf ← lift (encode_co_resp_over_server_send_resp resp (replicate room 0))
  put_outgoing buf

abbrev pub co_called : CoReq → Option (List ℕ) → M (Unit {0})
co_called req none = raise handler_error
co_called req (some payload) = send_co_resp (co_resp req Status.success payload)

-- A URI without a handler is answered by NotFount; an error of the handler is returned, and not
-- answered.
abbrev pub co_handled : CoReq → Option Handler → M (Unit {0})
co_handled req none = send_co_resp (co_resp req Status.not_fount [])
co_handled req (some handler) = co_called req (handler req.payload)

unfoldable pub co_get_req_handler : Header → List ℕ → M (Unit {0})
co_get_req_handler header req_buf = do
  req ← lift (decode_co_req header.id req_buf)
  s ← get_session
  co_handled req (load req.uri s.reg_get_handler_map)

unfoldable pub co_post_req_handler : Header → List ℕ → M (Unit {0})
co_post_req_handler header req_buf = do
  req ← lift (decode_co_req header.id req_buf)
  s ← get_session
  co_handled req (load req.uri s.reg_post_handler_map)

unfoldable pub server_send_request : Header → M (Unit {0})
unfolding ob_get_req_handler co_get_req_handler co_post_req_handler
server_send_request header = do
  body_buf ← read_full header.body_len
  method ← lift (decode_method body_buf)
  if method == observed_get
      then ob_get_req_handler header body_buf
      else if method == constrained_get
      then co_get_req_handler header body_buf
      else if method == constrained_post
      then co_post_req_handler header body_buf
      else return tt

abbrev pub chan_content : Option (List (List ℕ)) → List (List ℕ)
chan_content none = []
chan_content (some sent) = sent

-- `value.C <- body`. The channel of a stored value was made with it.
unfoldable pub push_chan : ℕ → List ℕ → DeviceSession → DeviceSession
push_chan c b s = record s {
  resp_chans = store c (chan_content (load c s.resp_chans) ++ (b ∷ [])) s.resp_chans;
}

abbrev pub answer : Header → Option ℕ → M (Unit {0})
answer header none = raise err_header_id_not_exist
answer header (some c) = do
  body_buf ← read_full header.body_len
  resp ← lift (decode_send_resp_body (some header) body_buf)
  modify (push_chan c resp.body)

unfoldable pub device_send_respone : Header → M (Unit {0})
unfolding push_chan
device_send_respone header = do
  s ← get_session
  answer header (TimeKv.get header.id s.send_id_store)
