-- ===== src/Server/Observing.antt =====
-- Observations in devicetcp/session.go: CreateObserva, DestroyObserva, the request that establishes
-- one, and the device's notifications.
pub mod Counting
pub mod Notifying
mod Examples
use rtio.Prelude.{
  ℕ, ◌+◌, ◌-◌, Bool, true, false, Option, none, some, List, [], ◌∷◌, ◌++◌, length, replicate, ltb,
  leb, ◌==◌, not, u16, if◌then◌else◌, Outcome, ok, err, panic,
}
use rtio.Proto.Types.{header_len}
use rtio.Proto.Header.{Header}
use rtio.Rest.Status
use rtio.Rest.Defs.{observed_get, observations_max}
use rtio.Rest.Observe.{
  ObGetEstabReq, ObGetNotifyReq, ObGetNotifyResp, header_len_ob_get_estab_req,
  header_len_ob_get_notify_resp, encode_ob_get_estab_req_over_server_send_req,
  decode_ob_get_estab_resp, decode_ob_get_notify_req,
  encode_ob_get_notify_resp_over_device_send_resp,
}
use rtio.SyncMap.{SyncMap, load, store, delete, nat_eq}
use rtio.TimeKv
use rtio.Server.State.{
  Fault, proto, status, err_send_timeout, err_send_resp_chann_close, err_observa_not_match, Observa,
  Session, M, ◌>>=◌, ◌>>◌, return, raise, crash, get_session, modify, lift, ignore_error,
  put_outgoing, gen_header_id, gen_observa_id,
}

unfoldable pub create_observa : M Observa
unfolding gen_observa_id
create_observa = do
  s ← get_session
  if leb observations_max s.observa_count then raise (status Status.too_many_observations) else do
    id ← gen_observa_id
    let ob : Observa = record { id = id; frame_id = 0; notify_chan = []; session_done = false }
    modify (λ t. record t { observa_store = store id ob t.observa_store })
    modify (λ t. record t { observa_count = t.observa_count + 1 })
    return ob

-- Closing NotifyChan is seen by the reader alone, which holds the observation.
unfoldable pub destroy_observa : ℕ → M (Unit {0})
destroy_observa id s = elim (load id s.observa_store) [
  | none ↦ (ok tt, s)
  | some ob ↦ (
    ok tt,
    record s { observa_store = delete id s.observa_store; observa_count = s.observa_count - 1 },
  )
]

-- `respChan := make(chan []byte, 1)` and `sendIDStore.Set`, at the time `now`.
unfoldable pub open_resp_chan : ℕ → ℕ → M ℕ
open_resp_chan now header_id s = (
  ok s.next_chan,
  record s {
    resp_chans = store s.next_chan [] s.resp_chans;
    next_chan = s.next_chan + 1;
    send_id_store = TimeKv.set now header_id s.next_chan s.send_id_store;
  },
)

unfoldable pub send_ob_estab_req : ℕ → Observa → ℕ → ℕ → List ℕ → M ℕ
unfolding open_resp_chan
send_ob_estab_req now ob uri header_id payload = do
  let req : ObGetEstabReq = record {
    header_id = header_id;
    method = observed_get;
    ob_id = ob.id;
    uri = uri;
    payload = payload;
  }
  let room = u16 (header_len + header_len_ob_get_estab_req + u16 (length payload))
  buf ← lift (encode_ob_get_estab_req_over_server_send_req req (replicate room 0))
  resp_chan ← open_resp_chan now header_id
  put_outgoing buf
  return resp_chan

-- What a `select` on a response channel and a timer ends with.
pub data Arrival : Type 0 where
  body : List ℕ → Arrival
  closed timeout : Arrival

-- The deferred `sendIDStore.Del`.
abbrev pub forget : ℕ → M (Unit {0})
forget header_id = modify (λ s. record s { send_id_store = TimeKv.del header_id s.send_id_store })

abbrev pub estab_status : Observa → ℕ → Arrival → M ℕ
estab_status ob header_id closed = raise err_send_resp_chann_close
estab_status ob header_id timeout = raise err_send_timeout
estab_status ob header_id (body b) = do
  resp ← lift (decode_ob_get_estab_resp header_id b)
  if not (resp.ob_id == ob.id)
      then raise err_observa_not_match
      else if not (resp.method == observed_get)
      then return Status.method_not_allowed
      else return resp.code

-- The deferred deletion runs on every return; it does not depend on what the body did before.
unfoldable pub receive_ob_estab_resp : Observa → ℕ → Arrival → M ℕ
receive_ob_estab_resp ob header_id arrival = do forget header_id; estab_status ob header_id arrival

-- `wait` is what the other goroutines do to the session until the `select` fires, and how it fires.
unfoldable pub ob_get_establish : ℕ → ℕ → Observa → List ℕ → (ℕ → M Arrival) → M ℕ
unfolding send_ob_estab_req receive_ob_estab_resp gen_header_id
ob_get_establish now uri ob payload wait = do
  header_id ← gen_header_id
  resp_chan ← send_ob_estab_req now ob uri header_id payload
  arrival ← wait resp_chan
  receive_ob_estab_resp ob header_id arrival

unfoldable pub send_ob_notify_resp : ObGetNotifyResp → M (Unit {0})
send_ob_notify_resp resp = do
  buf ← lift (
      encode_ob_get_notify_resp_over_device_send_resp resp
        (replicate (header_len + header_len_ob_get_notify_resp) 0))
  put_outgoing buf

-- `ob.NotifyChan <- req`. The channel has one place in the source, and the send waits while it is full;
-- here it is a queue without a bound. Server.Goroutines has the wait.
abbrev pub notify : ObGetNotifyReq → Observa → M (Unit {0})
notify req ob = modify λ s. record s {
  observa_store =
      store req.ob_id (record ob { notify_chan = ob.notify_chan ++ (req ∷ []) }) s.observa_store;
}

abbrev pub notify_resp : ObGetNotifyReq → ℕ → ObGetNotifyResp
notify_resp req code = record {
  header_id = req.header_id;
  method = req.method;
  code = code;
  ob_id = req.ob_id;
}

abbrev pub notify_found : ObGetNotifyReq → Option Observa → M (Unit {0})
notify_found req none = ignore_error (send_ob_notify_resp (notify_resp req Status.terminate))
notify_found req (some ob) = do
  notify req ob
  ignore_error (send_ob_notify_resp (notify_resp req Status.continue))

-- On a decoding error the log call reads `req.ObID` of a nil request.
unfoldable pub receive_ob_notify_req : Header → List ℕ → M (Unit {0})
receive_ob_notify_req header buf = elim (decode_ob_get_notify_req header.id buf) [
  | ok req ↦ do s ← get_session; notify_found req (load req.ob_id s.observa_store)
  | err e ↦ crash
  | panic ↦ crash
]
