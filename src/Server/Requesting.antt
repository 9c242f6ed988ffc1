-- ===== src/Server/Requesting.antt =====
-- Requests from the server to the device in devicetcp/session.go: Send and its two halves, and
-- serverSendRespone, which hands a response to the request that waits for it.
pub mod Routing
pub mod Sending
use rtio.Prelude.{
  ℕ, ◌+◌, ◌||◌, Bool, Option, none, some, List, [], ◌∷◌, ◌++◌, length, replicate, ◌==◌, not, u16,
  if◌then◌else◌,
}
use rtio.Proto.Types.{header_len}
use rtio.Proto.Header.{Header}
use rtio.Proto.Send.{decode_send_resp_body}
use rtio.Rest.Defs.{constrained_get, constrained_post}
use rtio.Rest.Co.{CoReq, header_len_co_req, encode_co_req_over_server_send_req, decode_co_resp}
use rtio.SyncMap.{SyncMap, load, store, nat_eq}
use rtio.TimeKv
use rtio.Server.State.{
  Fault, err_send_timeout, err_send_resp_chann_close, err_method_not_match, err_header_id_not_exist,
  Session, M, ◌>>=◌, ◌>>◌, return, raise, get_session, modify, lift, read_full, put_outgoing,
  gen_header_id,
}
use rtio.Server.Observing.{Arrival, body, closed, timeout, open_resp_chan, forget}

unfoldable pub send_co_req : ℕ → ℕ → ℕ → ℕ → List ℕ → M ℕ
unfolding open_resp_chan
send_co_req now uri method header_id payload = do
  let req : CoReq = record { header_id = header_id; method = method; uri = uri; payload = payload }
  let room = u16 (header_len + header_len_co_req + u16 (length payload))
  buf ← lift (encode_co_req_over_server_send_req req (replicate room 0))
  resp_chan ← open_resp_chan now header_id
  put_outgoing buf
  return resp_chan

abbrev pub co_result : ℕ → Arrival → M (ℕ × List ℕ)
co_result header_id closed = raise err_send_resp_chann_close
co_result header_id timeout = raise err_send_timeout
co_result header_id (body b) = do
  resp ← lift (decode_co_resp header_id b)
  if not (resp.method == constrained_get || resp.method == constrained_post)
      then raise err_method_not_match
      else return (resp.code, resp.payload)

-- The deferred deletion runs on every return.
unfoldable pub receive_co_resp : ℕ → Arrival → M (ℕ × List ℕ)
receive_co_resp header_id arrival = do forget header_id; co_result header_id arrival

-- `wait` is what the other goroutines do to the session until the `select` fires, and how it fires.
unfoldable pub send : ℕ → ℕ → ℕ → List ℕ → (ℕ → M Arrival) → M (ℕ × List ℕ)
unfolding send_co_req receive_co_resp gen_header_id
send now uri method payload wait = do
  header_id ← gen_header_id
  resp_chan ← send_co_req now uri method header_id payload
  arrival ← wait resp_chan
  receive_co_resp header_id arrival

-- `value.C <- body`. The channel of a stored value was made with it.
abbrev pub chan_content : Option (List (List ℕ)) → List (List ℕ)
chan_content none = []
chan_content (some sent) = sent

unfoldable pub push_chan : ℕ → List ℕ → Session → Session
push_chan c b s = record s {
  resp_chans = store c (chan_content (load c s.resp_chans) ++ (b ∷ [])) s.resp_chans;
}

abbrev pub answer : Header → Option ℕ → M (Unit {0})
answer header none = raise err_header_id_not_exist
answer header (some c) = do
  body_buf ← read_full header.body_len
  resp ← lift (decode_send_resp_body (some header) body_buf)
  modify (push_chan c resp.body)

unfoldable pub server_send_respone : Header → M (Unit {0})
unfolding push_chan
server_send_respone header = do
  s ← get_session
  answer header (TimeKv.get header.id s.send_id_store)
