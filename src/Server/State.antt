-- ===== src/Server/State.antt =====
-- The Session of devicetcp/session.go, and a monad for its methods: each returns a Go outcome and
-- the session as it leaves it.
-- A channel is a queue of what was sent on it. A send on a full channel waits for the reader; the
-- model lets it through at once, so a queue may be longer than the channel's buffer.
pub mod Reading
pub mod Triples
pub use rtio.Prelude.Methods.{
  Method, after, ◌>>=◌, ◌>>◌, return, raise, crash, modify, ignore_error, drop_error,
}
use rtio.Prelude.Methods.{get_state, lift_by}
use rtio.Prelude.{
  ℕ, ◌+◌, Bool, true, false, Option, none, some, List, [], ◌∷◌, ◌++◌, length, take, drop, ltb,
  if◌then◌else◌, u16, u32, shr, Outcome, ok, err, panic,
}
use rtio.Proto.Types.{Error}
use rtio.Rest.Observe.{ObGetNotifyReq}
use rtio.SyncMap.{SyncMap, load, store}
use rtio.SyncMap
use rtio.TimeKv.{TimeKv, new_time_kv}

-- The errors that a method returns: those of deviceproto, a StatusCode used as an error, what a
-- read of the connection or a call of a backend fails with, and those that session.go declares.
pub data Fault : Type 0 where
  proto : Error → Fault
  status : ℕ → Fault
  conn_read conn_write backend_error : Fault
  err_send_timeout err_send_resp_chann_close err_header_id_not_exist : Fault
  err_observa_not_match err_method_not_match err_method_not_allowed : Fault
  err_resource_not_found err_data_type err_decode : Fault

-- `err == ErrSendTimeout`.
abbrev pub is_send_timeout : Fault → Bool
is_send_timeout err_send_timeout = true
is_send_timeout e = false

pub record Observa : Type 0 where
  pub id : ℕ  -- uint16
  pub frame_id : ℕ  -- uint32
  pub notify_chan : List ObGetNotifyReq
  pub session_done : Bool

pub record Session : Type 0 where
  pub device_id : List ℕ
  pub conn_in : List ℕ  -- what the peer has sent and the server has not read
  pub outgoing_chan : List (List ℕ)
  pub send_id_store : TimeKv ℕ  -- the response channel of a request in flight
  pub resp_chans : SyncMap ℕ (List (List ℕ))  -- what was sent on each response channel
  pub next_chan : ℕ
  pub observa_store : SyncMap ℕ Observa
  pub rolling_header_id : ℕ  -- uint32
  pub rolling_observa_id : ℕ  -- uint32
  pub observa_count : ℕ  -- int32
  pub body_cap_size : ℕ  -- uint16
  pub heartbeat_seconds : ℕ  -- uint16
  pub verify_pass : Bool

abbrev pub heartbeat_seconds_default : ℕ
heartbeat_seconds_default = 300

unfoldable pub new_session : List ℕ → Session
new_session conn = record {
  device_id = [];
  conn_in = conn;
  outgoing_chan = [];
  send_id_store = new_time_kv 120;
  resp_chans = [];
  next_chan = 0;
  observa_store = [];
  rolling_header_id = 0;
  rolling_observa_id = 0;
  observa_count = 0;
  body_cap_size = 0;
  heartbeat_seconds = heartbeat_seconds_default;
  verify_pass = false;
}

abbrev pub M : Type 0 → Type 0
M A = Method Session Fault A

abbrev pub get_session : M Session
get_session = get_state

-- A result of deviceproto.
abbrev pub lift : {A : Type 0} → Outcome Error A → M A
lift x = lift_by proto x

-- `io.ReadFull(s.conn, buf)` with a buffer of n bytes. A connection that ends before gives what it
-- has, and an error.
unfoldable pub read_full : ℕ → M (List ℕ)
read_full n s =
    if ltb (length s.conn_in) n
    then (err conn_read, record s { conn_in = [] })
    else (ok (take n s.conn_in), record s { conn_in = drop n s.conn_in })

-- `s.outgoingChan <- buf`.
abbrev pub put_outgoing : List ℕ → M (Unit {0})
put_outgoing buf = modify (λ s. record s { outgoing_chan = s.outgoing_chan ++ (buf ∷ []) })

-- `heartbeat + (heartbeat >> 1)` in uint16.
unfoldable pub calcu_check_senconds : ℕ → ℕ
calcu_check_senconds heartbeat = u16 (heartbeat + shr heartbeat 1)

unfoldable pub gen_header_id : M ℕ
gen_header_id s =
    let n = u32 (s.rolling_header_id + 1) in (ok (u16 n), record s { rolling_header_id = n })

unfoldable pub gen_observa_id : M ℕ
gen_observa_id s =
    let n = u32 (s.rolling_observa_id + 1) in (ok (u16 n), record s { rolling_observa_id = n })
