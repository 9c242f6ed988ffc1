-- ===== src/Device/Incoming.antt =====
-- tcpIncomming of devicesession.go: the loop that reads and dispatches the messages of the server.
pub mod Rounds
pub mod Failing
use rtio.Prelude.{
  ℕ, zero, suc, Option, none, some, List, ◌==◌, if◌then◌else◌, Outcome, ok, err, panic,
}
use rtio.Proto.Types.{
  Error, header_len, code_success, device_verify_resp, device_ping_resp, server_send_req,
  device_send_resp,
}
use rtio.Proto.Header.{Header, decode_header}
use rtio.Device.State.{
  DeviceFault, err_data_type, err_decode, err_verify_failed, err_ping_failed, DeviceSession, M,
  ◌>>=◌, return, raise, crash, read_full,
}
use rtio.Device.Answering.{server_send_request, device_send_respone}

abbrev pub header_or_err : Outcome Error Header → M Header
header_or_err (ok h) = return h
header_or_err (err e) = raise err_decode
header_or_err panic = crash

-- The `switch` on the message type.
abbrev pub dispatch : Header → M (Unit {0})
dispatch header =
    if header.msg_type == device_verify_resp
    then (if header.code == code_success then return tt else raise err_verify_failed)
    else if header.msg_type == device_ping_resp
    then (if header.code == code_success then return tt else raise err_ping_failed)
    else if header.msg_type == server_send_req
    then server_send_request header
    else if header.msg_type == device_send_resp
    then device_send_respone header
    else raise err_data_type

-- One round of the loop.
unfoldable pub incomming_step : M (Unit {0})
incomming_step = do
  header_buf ← read_full header_len
  header ← header_or_err (decode_header header_buf)
  dispatch header

-- How the loop ends: by an error that goes to errChan, by a panic, or by the end of the context.
pub data Exit : Type 0 where
  stopped : DeviceFault → Exit
  panicked done : Exit

abbrev pub continue_with :
    (DeviceSession → Exit × DeviceSession)
    → Outcome DeviceFault (Unit {0}) × DeviceSession
    → Exit × DeviceSession
continue_with loop (ok u, s) = loop s
continue_with loop (err e, s) = (stopped e, s)
continue_with loop (panic, s) = (panicked, s)

-- The loop, for as many rounds as it has until the context is done.
unfoldable pub tcp_incomming : ℕ → DeviceSession → Exit × DeviceSession
tcp_incomming zero s = (done, s)
tcp_incomming (suc rounds) s = continue_with (tcp_incomming rounds) (incomming_step s)
