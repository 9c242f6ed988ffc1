-- ===== src/Device/Serving.antt =====
-- The connection of a device: verify and ping, the outgoing loop, serve, and how recover connects
-- again.
pub mod Recovering
use rtio.Prelude.{
  ℕ, zero, suc, ◌+◌, ◌*◌, ◌^◌, ◌++◌, Bool, true, false, Option, none, some, List, [], ◌∷◌, length,
  take, ltb, ◌==◌, if◌then◌else◌, u16, Outcome, ok, err, panic,
}
use rtio.Proto.Types.{Error, protocol_version, device_verify_req, device_ping_req}
use rtio.Proto.Header.{Header}
use rtio.Proto.Verify.{VerifydReq, encode_verify_req}
use rtio.Proto.Ping.{PingReq, encode_ping_req}
use rtio.TimeKv.{del_expire_keys}
use rtio.Utils.{gen_uint16_id, Written, Total, write_full}
use rtio.Device.State.{
  DeviceFault, conn_write, DeviceSession, M, after, ◌>>=◌, ◌>>◌, return, raise, crash, modify,
  get_session, lift, put_outgoing, device_heartbeat_seconds_default,
}

abbrev pub request_header : ℕ → ℕ → Header
request_header msg_type id = record {
  version = protocol_version;
  msg_type = msg_type;
  id = id;
  body_len = 0;
  code = 0;
}

-- `random` is what the random source gives for the header's id.
unfoldable pub verify : Option ℕ → M (Unit {0})
verify random = do
  header_id ← lift (gen_uint16_id random)
  s ← get_session
  (buf, header) ← lift (
      encode_verify_req (record {
        header = request_header device_verify_req header_id;
        cap_level = 1;
        device_id = s.device_id;
        device_secret = s.device_secret;
      }))
  put_outgoing buf

abbrev ping_with : ℕ → Option ℕ → M (Unit {0})
ping_with timeout random = do
  header_id ← lift (gen_uint16_id random)
  (buf, header) ← lift (
      encode_ping_req
        (record { header = request_header device_ping_req header_id; timeout = timeout }))
  put_outgoing buf

unfoldable pub ping : Option ℕ → M (Unit {0})
ping = ping_with 0

unfoldable pub ping_remote_set : ℕ → Option ℕ → M (Unit {0})
ping_remote_set timeout = ping_with timeout

-- The error of a ping is dropped by its callers; a panic is not.
abbrev drop_result :
    Outcome DeviceFault (Unit {0}) × DeviceSession → Outcome DeviceFault (Unit {0}) × DeviceSession
drop_result (ok a, t) = (ok tt, t)
drop_result (err e, t) = (ok tt, t)
drop_result (panic, t) = (panic, t)

abbrev dropping : M (Unit {0}) → M (Unit {0})
dropping m s = drop_result (m s)

-- `time.NewTicker` with the heartbeat's seconds, which panics on 0.
abbrev new_ticker : M (Unit {0})
new_ticker = do s ← get_session; if s.heartbeat_seconds == 0 then crash else return tt

-- serve until its loop: `verify_random` and `ping_random` are what the random source gives.
unfoldable pub serve_start : Option ℕ → Option ℕ → M (Unit {0})
unfolding verify ping_remote_set
serve_start verify_random ping_random = do
  new_ticker
  verify verify_random
  modify (λ s. record s { heartbeat_seconds = 60 })
  s ← get_session
  if s.heartbeat_seconds == device_heartbeat_seconds_default
      then return tt
      else dropping (ping_remote_set s.heartbeat_seconds ping_random)

-- What the `select` of serve takes: an error of one of the two loops, the end of the context, the
-- heartbeat ticker with what the random source then gives, or the store's ticker at a time.
pub data Event : Type 0 where
  net_error : DeviceFault → Event
  context_done : Event
  heartbeat : Option ℕ → Event
  store_tick : ℕ → Event

-- How serve stands: it has sent an error to recover, it has ended with its context, it goes on, or it
-- has panicked.
pub data Serving : Type 0 where
  failed : DeviceFault → Serving
  ended serving crashed : Serving

abbrev serve_on :
    (DeviceSession → Serving × DeviceSession)
    → Outcome DeviceFault (Unit {0}) × DeviceSession
    → Serving × DeviceSession
serve_on loop (ok u, s) = loop s
serve_on loop (err e, s) = (failed e, s)
serve_on loop (panic, s) = (crashed, s)

-- The loop of serve, over the events that it sees.
unfoldable pub serve : List Event → DeviceSession → Serving × DeviceSession
unfolding ping
serve [] s = (serving, s)
serve (net_error e ∷ es) s = (failed e, s)
serve (context_done ∷ es) s = (ended, s)
serve (heartbeat random ∷ es) s = serve_on (serve es) (dropping (ping random) s)
serve (store_tick now ∷ es) s =
    serve es (record s { send_id_store = del_expire_keys now s.send_id_store })

abbrev written_all : List ℕ → Option Total → M (Unit {0})
written_all buf none = crash
written_all buf (some t) = do
  modify (λ s. record s { conn_out = s.conn_out ++ take t.writelen buf })
  if t.failed then raise conn_write else return tt

-- One round of tcpOutgoing, with the seconds that the heartbeat ticker is reset to: WriteFull of the
-- next frame, with fuel for each of its bytes.
unfoldable pub outgoing_step : (ℕ → List ℕ → Written) → M (Option ℕ)
outgoing_step write s = elim s.outgoing_chan [
  | [] ↦ (ok none, s)
  | buf ∷ rest ↦
      after
        (written_all buf (write_full (suc (length buf)) write 0 buf 0)
          (record s { outgoing_chan = rest }))
        (λ u. return (some s.heartbeat_seconds))
]

unfoldable pub get_reconnect_interval : ℕ → DeviceSession → ℕ
get_reconnect_interval max_level s =
    2 * 2 ^ (if ltb s.reconnect_times max_level then s.reconnect_times else max_level)

-- `dialed` is the stream of the new connection, or `none` where dialing fails. The result says
-- whether serve runs again; if not, recover gets the error.
unfoldable pub reconnect : Option (List ℕ) → DeviceSession → Bool × DeviceSession
reconnect none s = (false, record s { reconnect_times = u16 (s.reconnect_times + 1) })
reconnect (some conn) s = (true, record s { reconnect_times = 0; conn_in = conn; conn_out = [] })

-- How recover fared: the seconds it waited before each attempt, whether serve runs again, and the
-- session.
pub record Recovery : Type 0 where
  pub delays : List ℕ
  pub connected : Bool
  pub session : DeviceSession

abbrev recover_on : ℕ → (DeviceSession → Recovery) → Bool × DeviceSession → Recovery
recover_on delay loop (true, s) = record { delays = delay ∷ []; connected = true; session = s }
recover_on delay loop (false, s) = let r = loop s in record r { delays = delay ∷ r.delays }

-- recover after an error, over what each attempt to dial gives, until one succeeds.
unfoldable pub recover : List (Option (List ℕ)) → DeviceSession → Recovery
unfolding reconnect get_reconnect_interval
recover [] s = record { delays = []; connected = false; session = s }
recover (dialed ∷ dials) s =
    recover_on (get_reconnect_interval 6 s) (recover dials) (reconnect dialed s)
