-- ===== src/Server/Pinging.antt =====
-- devicePingProcess of devicetcp/session.go.
pub mod Outcomes
use rtio.Prelude.{
  ℕ, ◌||◌, Bool, true, false, Option, none, some, List, [], ltb, ◌==◌, if◌then◌else◌, Outcome, ok,
  err, panic,
}
use rtio.Proto.Types.{
  Error, err_length_error, protocol_version, device_ping_resp, code_success, code_para_invalid,
}
use rtio.Proto.Header.{Header}
use rtio.Proto.Ping.{PingReq, PingResp, decode_ping_req_body, encode_ping_resp}
use rtio.Server.State.{
  proto, Session, M, ◌>>=◌, ◌>>◌, return, raise, crash, modify, lift, read_full, put_outgoing,
}

abbrev pub ping_out_of_range : ℕ → Bool
ping_out_of_range t = ltb t 30 || ltb 43200 t

-- Update the heartbeat interval, and give the response code.
abbrev pub update_heartbeat : ℕ → M ℕ
update_heartbeat t =
    if t == 0
    then return code_success
    else if ping_out_of_range t
    then return code_para_invalid
    else do modify (λ s. record s { heartbeat_seconds = t }); return code_success

abbrev pub send_ping_resp : ℕ → ℕ → M (Unit {0})
send_ping_resp id code = do
  let resp : PingResp = record {
    header = record {
      version = protocol_version;
      msg_type = device_ping_resp;
      id = id;
      body_len = 0;
      code = code;
    };
  }
  buf ← lift (encode_ping_resp resp)
  put_outgoing buf

-- After ErrLengthError the code goes on with a nil request, and reads its Timeout. Any other error
-- is returned.
abbrev pub process_ping : Outcome Error PingReq → M (Unit {0})
process_ping (ok req) = do code ← update_heartbeat req.timeout; send_ping_resp req.header.id code
process_ping (err err_length_error) = crash
process_ping (err e) = raise (proto e)
process_ping panic = crash

unfoldable pub device_ping_process : Header → M (Unit {0})
device_ping_process header = do
  body_buf ← read_full header.body_len
  process_ping (decode_ping_req_body (some header) body_buf)
