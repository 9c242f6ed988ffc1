-- ===== src/Server/Incoming.antt =====
-- tcpIncomming of devicetcp/session.go: the loop that reads and dispatches messages.
pub mod Keeping
pub mod Heartbeat
pub mod Faults
use rtio.Prelude.{
  ℕ, zero, suc, Bool, true, false, Option, none, some, List, [], ◌∷◌, ◌++◌, ◌==◌, if◌then◌else◌,
  Outcome, ok, err, panic,
}
use rtio.Proto.Types.{
  Error, header_len, device_verify_req, device_ping_req, device_send_req, server_send_resp,
}
use rtio.Proto.Header.{Header, decode_header}
use rtio.Server.State.{
  Fault, err_data_type, err_decode, Session, M, ◌>>=◌, ◌>>◌, return, raise, crash, get_session,
  read_full, calcu_check_senconds,
}
use rtio.Server.Requesting.{server_send_respone}
use rtio.Server.Verifying.{Verifier, receive_verify_req}
use rtio.Server.Pinging.{device_ping_process}
use rtio.Server.Resources.{Service, device_send_request}

-- What the loop asks of the rest of the server, besides changing the session.
pub data Effect : Type 0 where
  add_session : List ℕ → Effect  -- `addSession(s.deviceID, s)` and `verifyTimer.Stop()`
  reset_heartbeat : ℕ → Effect  -- `heartbeatTimer.Reset` to so many seconds

-- The flags and backends in use, as they stand when a message is handled.
pub record Config : Type 0 where
  pub disable_deviceverify : Bool
  pub disable_deviceservice : Bool
  pub verifier : Verifier
  pub service : Service

abbrev pub header_or_err : Outcome Error Header → M Header
header_or_err (ok h) = return h
header_or_err (err e) = raise err_decode
header_or_err panic = crash

abbrev pub reset : M (List Effect)
reset = do s ← get_session; return (reset_heartbeat (calcu_check_senconds s.heartbeat_seconds) ∷ [])

abbrev pub passed : Bool → M (List Effect)
passed true = do s ← get_session; return (add_session s.device_id ∷ [])
passed false = return []

-- The `switch` on the message type.
abbrev pub dispatch : Config → Header → M (List Effect)
dispatch c header =
    if header.msg_type == device_verify_req
    then (receive_verify_req c.disable_deviceverify c.verifier header >>= passed)
    else if header.msg_type == device_ping_req
    then (device_ping_process header >> reset)
    else if header.msg_type == device_send_req
    then (device_send_request c.disable_deviceservice c.service header >> reset)
    else if header.msg_type == server_send_resp
    then (server_send_respone header >> reset)
    else raise err_data_type

-- One round of the loop.
unfoldable pub incomming_step : Config → M (List Effect)
incomming_step c = do
  head_buf ← read_full header_len
  header ← header_or_err (decode_header head_buf)
  dispatch c header

-- How the loop ends: by an error that goes to errChan, by a panic, or by the end of the context.
pub data Exit : Type 0 where
  stopped : Fault → Exit
  panicked done : Exit

pub record Trace : Type 0 where
  pub exit : Exit
  pub effects : List Effect
  pub session : Session

abbrev pub continue_with :
    (List Effect → Session → Trace) → List Effect → Outcome Fault (List Effect) × Session → Trace
continue_with loop effects (ok more, s) = loop (effects ++ more) s
continue_with loop effects (err e, s) = record { exit = stopped e; effects = effects; session = s }
continue_with loop effects (panic, s) = record { exit = panicked; effects = effects; session = s }

-- The loop, over the configurations that its rounds see; the context is done when they run out.
unfoldable pub tcp_incomming : List Config → List Effect → Session → Trace
tcp_incomming [] effects s = record { exit = done; effects = effects; session = s }
tcp_incomming (c ∷ cs) effects s = continue_with (tcp_incomming cs) effects (incomming_step c s)
