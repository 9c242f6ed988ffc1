-- ===== src/Proto/Verify.antt =====
-- VerifydReq and VerifyResp of pkg/deviceproto/codec.go: a capability level, and
-- `deviceID:deviceSecret`. A string is the list of its bytes. Requests carry a header that is not
-- nil, but for the two body decoders, which test theirs.
pub mod RoundTrip
use rtio.Prelude.{
  ℕ, ◌+◌, ◌||◌, List, [], ◌∷◌, ◌++◌, Option, none, some, length, get_or, set, take, drop, replicate,
  copy_at, ltb, ◌==◌, not, if◌then◌else◌, bit_and, shr, shl8, u16, index_byte, Outcome, ok, err,
  fail_if, ◌>>=◌, ◌>>◌,
}
use rtio.Proto.Types.{
  Error, err_not_enought, err_exceed_length, err_verify_data, err_header_nil, header_len,
  device_id_len, device_secret_len_min, device_secret_len_max,
}
use rtio.Proto.Header.{Header, decode_header, encode_header}

pub record VerifydReq : Type 0 where
  pub header : Header
  pub cap_level : ℕ  -- uint8
  pub device_id : List ℕ
  pub device_secret : List ℕ

pub record VerifyResp : Type 0 where
  pub header : Header

-- The block that both decoders end with: split at the first colon, and check the two lengths.
unfoldable pub split_verify : List ℕ → Outcome Error (List ℕ × List ℕ)
split_verify buf_verify = elim (index_byte b':' buf_verify) [
  | some p ↦ do
    let secret = drop (p + 1) buf_verify
    fail_if
        (not (p == device_id_len)
          || ltb (length secret) device_secret_len_min
          || ltb device_secret_len_max (length secret))
        err_verify_data
    ok (take p buf_verify, secret)
  | none ↦ err err_verify_data
]

unfoldable pub decode_verify_req : List ℕ → Outcome Error VerifydReq
decode_verify_req buf = do
  fail_if (ltb (length buf) (header_len + device_id_len + device_secret_len_min + 1))
      err_not_enought
  fail_if (ltb (header_len + 1 + device_id_len + 1 + device_secret_len_max) (length buf))
      err_exceed_length
  header ← decode_header buf
  (id, secret) ← split_verify (drop (header_len + 1) buf)
  ok (record {
    header = header;
    cap_level = bit_and (shr (get_or buf header_len 0) 6) 0x03;
    device_id = id;
    device_secret = secret;
  })

unfoldable pub decode_verify_req_body : Option Header → List ℕ → Outcome Error VerifydReq
decode_verify_req_body none buf = err err_header_nil
decode_verify_req_body (some header) buf = do
  fail_if (ltb (length buf) (device_id_len + device_secret_len_min + 1)) err_not_enought
  fail_if (ltb (1 + device_id_len + 1 + device_secret_len_max) (length buf)) err_exceed_length
  (id, secret) ← split_verify (drop 1 buf)
  ok (record {
    header = header;
    cap_level = bit_and (shr (get_or buf 0 0) 6) 0x03;
    device_id = id;
    device_secret = secret;
  })

-- The frame, and the request's header as the call leaves it.
unfoldable pub encode_verify_req : VerifydReq → Outcome Error (List ℕ × Header)
encode_verify_req req = do
  let verify_data = req.device_id ++ (b':' ∷ req.device_secret)
  let body_len = length verify_data + 1
  fail_if
      (ltb body_len (1 + device_id_len + 1 + device_secret_len_min)
        || ltb (1 + device_id_len + 1 + device_secret_len_max) body_len)
      err_verify_data
  let buf = replicate (header_len + body_len) 0
  let buf1 = set buf header_len (bit_and (shl8 req.cap_level 6) 0xC0)
  let buf2 = copy_at (header_len + 1) buf1 verify_data
  let header = record (req.header) { body_len = u16 body_len }
  frame ← encode_header header buf2
  ok (frame, header)

unfoldable pub decode_verify_resp : List ℕ → Outcome Error VerifyResp
decode_verify_resp buf = do header ← decode_header buf; ok (record { header = header })

unfoldable pub encode_verify_resp : VerifyResp → Outcome Error (List ℕ)
encode_verify_resp resp = encode_header resp.header (replicate header_len 0)
