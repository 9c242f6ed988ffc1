-- ===== src/Server/Verifying/Examples.antt =====
-- A device that is verified.
use rtio.Prelude.{
  ℕ, ◌≡◌, refl, ap, inl, inr, true, false, some, List, [], ◌∷◌, ◌++◌, replicate, ok, index_byte,
  arith,
}
use rtio.Proto.Header.{Header}
use rtio.Proto.Verify.{VerifydReq, decode_verify_req_body, split_verify}
use rtio.Server.State.{Session, new_session}
use rtio.Server.Verifying.{Verifier, receive_verify_req}
use rtio.Server.Verifying.Safety.{IsVouched, receive_verify_req_safe, receive_verify_req_accepts}

-- A backend that passes every device.
abbrev verifier : Verifier
verifier = record { has_client = true; random = some 77; verify = λ id device secret. some 1 }

abbrev header : Header
header = record { version = 0; msg_type = 1; id = 7; body_len = 62; code = 0 }

abbrev id_bytes : List ℕ
id_bytes = replicate 36 b'a'

abbrev secret_bytes : List ℕ
secret_bytes = replicate 24 b's'

abbrev req : VerifydReq
req = record { header = header; cap_level = 2; device_id = id_bytes; device_secret = secret_bytes }

abbrev body : List ℕ
body = 128 ∷ (id_bytes ++ (b':' ∷ secret_bytes))

decode_body : decode_verify_req_body (some header) body ≡ ok req
unfolding decode_verify_req_body split_verify index_byte
decode_body = refl

abbrev session : Session
session = new_session (body ++ (1 ∷ []))

passed : (receive_verify_req false verifier header session).1.verify_pass ≡ true
unfolding new_session
passed =
    ap (λ r. r.1.verify_pass)
      (receive_verify_req_accepts false verifier header session req body (1 ∷ []) refl refl
        decode_body (omega arith) (inr (refl, (77, refl, refl))))

receive_verify_req_safe_example :
    IsVouched false verifier header session (receive_verify_req false verifier header session).1
unfolding new_session
receive_verify_req_safe_example =
    receive_verify_req_safe false verifier header session refl (inl passed)
