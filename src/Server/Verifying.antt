-- ===== src/Server/Verifying.antt =====
-- receiveVerifyReq and sendVerifyResp of devicetcp/session.go.
-- The device verifier, its gRPC client and the random source are not part of the program: what they
-- answer is an argument.
pub mod Safety
mod Examples
use rtio.Prelude.{
  ℕ, Bool, true, false, Option, none, some, List, [], ◌∷◌, length, ◌==◌, ◌||◌, not, if◌then◌else◌,
  Outcome, ok, err, panic,
}
use rtio.Proto.Types.{
  Error, protocol_version, device_verify_resp, code_unkown_err, code_success, code_para_invalid,
  code_verify_fail, get_cap_size,
}
use rtio.Proto.Header.{Header}
use rtio.Proto.Verify.{VerifydReq, VerifyResp, decode_verify_req_body, encode_verify_resp}
use rtio.Utils.{gen_uint32_id}
use rtio.Server.State.{
  Session, M, ◌>>=◌, ◌>>◌, return, get_session, modify, lift, read_full, put_outgoing,
}

-- deviceverifier.Code_CODE_PASS of the generated protobuf code.
abbrev pub code_pass : ℕ
code_pass = 1

-- The backend: whether a client could be had, what the random source gives, and what the remote
-- Verify answers to a serial id, a device id and a secret (`none` is an error of the call).
pub record Verifier : Type 0 where
  pub has_client : Bool
  pub random : Option ℕ
  pub verify : ℕ → List ℕ → List ℕ → Option ℕ

unfoldable pub send_verify_resp : Header → ℕ → M (Unit {0})
send_verify_resp header code = do
  let resp : VerifyResp = record {
    header = record {
      version = protocol_version;
      msg_type = device_verify_resp;
      id = header.id;
      body_len = 0;
      code = code;
    };
  }
  buf ← lift (encode_verify_resp resp)
  put_outgoing buf

-- `return b, s.sendVerifyResp(header, code)`.
abbrev pub respond : Header → Bool → ℕ → M Bool
respond header passed code = do send_verify_resp header code; return passed

abbrev pub accept_level : Header → Outcome Error ℕ → M Bool
accept_level header (ok size) = do modify (λ s. record s { body_cap_size = size }); return true
accept_level header (err e) = respond header true code_success
accept_level header panic = respond header true code_success

abbrev pub accept : Header → VerifydReq → M Bool
accept header req = do
  modify (λ s. record s { verify_pass = true; device_id = req.device_id })
  accept_level header (get_cap_size req.cap_level)

abbrev pub judge : Header → VerifydReq → Option ℕ → M Bool
judge header req none = do s ← get_session; respond header s.verify_pass code_unkown_err
judge header req (some code) =
    if code == code_pass then accept header req else respond header false code_verify_fail

abbrev pub ask_verifier : Verifier → Header → VerifydReq → M Bool
ask_verifier verifier header req =
    if verifier.has_client
    then (do
      id ← lift (gen_uint32_id verifier.random)
      judge header req (verifier.verify id req.device_id req.device_secret))
    else respond header false code_unkown_err

-- `disabled` is the flag `disable.deviceverify`.
unfoldable pub receive_verify_req : Bool → Verifier → Header → M Bool
receive_verify_req disabled verifier header = do
  buf ← read_full header.body_len
  req ← lift (decode_verify_req_body (some header) buf)
  if (length req.device_id == 0) || (length req.device_secret == 0)
      then respond header false code_para_invalid
      else if disabled
      then accept header req
      else ask_verifier verifier header req
