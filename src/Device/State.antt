-- ===== src/Device/State.antt =====
-- The DeviceSession of devicesession.go, and the monad of its methods, as for the session of the
-- server. A channel is a queue of what was sent on it.
pub mod Reading
pub use rtio.Prelude.Methods.{Method, after, ◌>>=◌, ◌>>◌, return, raise, crash, modify}
use rtio.Prelude.Methods.{get_state, lift_by}
use rtio.Prelude.{
  Bool, true, false, ℕ, ◌+◌, Option, none, some, List, [], ◌∷◌, ◌++◌, length, take, drop, ltb,
  if◌then◌else◌, u16, u32, Outcome, ok, err, panic,
}
use rtio.Proto.Types.{Error}
use rtio.SyncMap.{SyncMap, load, store, nat_eq}
use rtio.TimeKv.{TimeKv, new_time_kv}
use rtio.TimeKv

-- The errors that a method returns: those of deviceproto, what reading or writing the connection or
-- a handler of the application fails with, and those that devicesession.go declares.
pub data DeviceFault : Type 0 where
  proto : Error → DeviceFault
  conn_read conn_write handler_error : DeviceFault
  err_data_type err_send_timeout err_canceled err_verify_failed err_ping_failed : DeviceFault
  err_observa_not_match err_method_not_match err_send_resp_chann_close : DeviceFault
  err_header_id_not_exist err_decode : DeviceFault

-- `err == ErrSendTimeout`.
abbrev pub is_send_timeout : DeviceFault → Bool
is_send_timeout err_send_timeout = true
is_send_timeout e = false

-- What the application registers: a function of the request that answers or fails.
abbrev pub Handler : Type 0
Handler = List ℕ → Option (List ℕ)

-- The same for an observation, where the answer is the channel of the notifications.
abbrev pub ObHandler : Type 0
ObHandler = List ℕ → Option ℕ

-- A goroutine of `observe`: the id of the observation, and the channel it reads.
pub record Observer : Type 0 where
  pub ob_id : ℕ
  pub notify_req_chan : ℕ

pub record DeviceSession : Type 0 where
  pub device_id : List ℕ
  pub device_secret : List ℕ
  pub outgoing_chan : List (List ℕ)
  pub reg_get_handler_map : SyncMap ℕ Handler
  pub reg_post_handler_map : SyncMap ℕ Handler
  pub reg_ob_get_handler_map : SyncMap ℕ ObHandler
  pub send_id_store : TimeKv ℕ  -- the response channel of a request in flight
  pub resp_chans : SyncMap ℕ (List (List ℕ))  -- what was sent on each response channel
  pub next_chan : ℕ
  pub rolling_header_id : ℕ  -- uint32
  pub conn_in : List ℕ  -- what the server has sent and the device has not read
  pub conn_out : List ℕ  -- what the device has written
  pub heartbeat_seconds : ℕ  -- uint16
  pub reconnect_times : ℕ  -- uint16
  pub observers : List Observer

abbrev pub device_heartbeat_seconds_default : ℕ
device_heartbeat_seconds_default = 300

unfoldable pub new_device_session : List ℕ → List ℕ → List ℕ → DeviceSession
new_device_session conn id secret = record {
  device_id = id;
  device_secret = secret;
  outgoing_chan = [];
  reg_get_handler_map = [];
  reg_post_handler_map = [];
  reg_ob_get_handler_map = [];
  send_id_store = new_time_kv 120;
  resp_chans = [];
  next_chan = 0;
  rolling_header_id = 0;
  conn_in = conn;
  conn_out = [];
  heartbeat_seconds = device_heartbeat_seconds_default;
  reconnect_times = 0;
  observers = [];
}

abbrev pub M : Type 0 → Type 0
M A = Method DeviceSession DeviceFault A

abbrev pub get_session : M DeviceSession
get_session = get_state

abbrev pub lift : {A : Type 0} → Outcome Error A → M A
lift x = lift_by proto x

-- `io.ReadFull(s.conn, buf)` with a buffer of n bytes.
unfoldable pub read_full : ℕ → M (List ℕ)
read_full n s =
    if ltb (length s.conn_in) n
    then (err conn_read, record s { conn_in = [] })
    else (ok (take n s.conn_in), record s { conn_in = drop n s.conn_in })

-- `s.outgoingChan <- buf`.
abbrev pub put_outgoing : List ℕ → M (Unit {0})
put_outgoing buf = modify (λ s. record s { outgoing_chan = s.outgoing_chan ++ (buf ∷ []) })

unfoldable pub set_heartbeat_seconds : ℕ → M (Unit {0})
set_heartbeat_seconds n = modify (λ s. record s { heartbeat_seconds = n })

unfoldable pub gen_header_id : M ℕ
gen_header_id s =
    let n = u32 (s.rolling_header_id + 1) in (ok (u16 n), record s { rolling_header_id = n })

-- `respChan := make(chan []byte, 1)` and `sendIDStore.Set`, at the time `now`.
unfoldable pub open_resp_chan : ℕ → ℕ → M ℕ
open_resp_chan now header_id s = (
  ok s.next_chan,
  record s {
    resp_chans = store s.next_chan [] s.resp_chans;
    next_chan = s.next_chan + 1;
    send_id_store = TimeKv.set now header_id s.next_chan s.send_id_store;
  },
)

-- The deferred `sendIDStore.Del`.
abbrev pub forget : ℕ → M (Unit {0})
forget header_id = modify (λ s. record s { send_id_store = TimeKv.del header_id s.send_id_store })
