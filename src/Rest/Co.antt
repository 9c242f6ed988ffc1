-- ===== src/Rest/Co.antt =====
-- CoReq and CoResp, the messages of ConstrainedGet and ConstrainedPost.
pub mod RoundTrip
pub mod Frames
use rtio.Prelude.{
  ℕ, ◌+◌, List, length, drop, set, copy_at, ltb, bit_and, u16, shl8, Outcome, ok, fail_if, ◌>>◌,
}
use rtio.Proto.Types.{
  Error, err_not_enought, header_len, device_send_req, device_send_resp, server_send_req,
  server_send_resp,
}
use rtio.Rest.Defs.{method_byte, method_of, code_of, u32_at, put_u32, frame_over}

abbrev pub header_len_co_req : ℕ
header_len_co_req = 5

abbrev pub header_len_co_resp : ℕ
header_len_co_resp = 1

pub record CoReq : Type 0 where
  pub header_id : ℕ  -- uint16
  pub method : ℕ  -- uint8
  pub uri : ℕ  -- uint32
  pub payload : List ℕ

pub record CoResp : Type 0 where
  pub header_id : ℕ  -- uint16
  pub method : ℕ  -- uint8
  pub code : ℕ  -- uint8
  pub payload : List ℕ

unfoldable pub decode_co_req : ℕ → List ℕ → Outcome Error CoReq
decode_co_req header_id buf = do
  fail_if (ltb (length buf) header_len_co_req) err_not_enought
  ok (record {
    header_id = header_id;
    method = method_of buf;
    uri = u32_at buf 1;
    payload = drop 5 buf;
  })

unfoldable pub encode_co_req : CoReq → List ℕ → Outcome Error (List ℕ)
encode_co_req req buf = do
  fail_if (ltb (length buf) (header_len_co_req + length req.payload)) err_not_enought
  let buf1 = set buf 0 (bit_and (shl8 req.method 4) 0xF0)
  ok (copy_at 5 (put_u32 buf1 1 req.uri) req.payload)

unfoldable pub encode_co_req_over_device_send_req : CoReq → List ℕ → Outcome Error (List ℕ)
encode_co_req_over_device_send_req req =
    frame_over (header_len + header_len_co_req + length req.payload) device_send_req req.header_id
      (u16 (header_len_co_req + u16 (length req.payload))) (encode_co_req req)

unfoldable pub encode_co_req_over_server_send_req : CoReq → List ℕ → Outcome Error (List ℕ)
encode_co_req_over_server_send_req req =
    frame_over (header_len + header_len_co_req + length req.payload) server_send_req req.header_id
      (u16 (header_len_co_req + u16 (length req.payload))) (encode_co_req req)

unfoldable pub decode_co_resp : ℕ → List ℕ → Outcome Error CoResp
decode_co_resp header_id buf = do
  fail_if (ltb (length buf) header_len_co_resp) err_not_enought
  ok (record {
    header_id = header_id;
    method = method_of buf;
    code = code_of buf;
    payload = drop 1 buf;
  })

unfoldable pub encode_co_resp : CoResp → List ℕ → Outcome Error (List ℕ)
encode_co_resp resp buf = do
  fail_if (ltb (length buf) (header_len_co_resp + length resp.payload)) err_not_enought
  ok (copy_at 1 (set buf 0 (method_byte resp.method resp.code)) resp.payload)

unfoldable pub encode_co_resp_over_device_send_resp : CoResp → List ℕ → Outcome Error (List ℕ)
encode_co_resp_over_device_send_resp resp =
    frame_over (header_len + header_len_co_resp + length resp.payload) device_send_resp
      resp.header_id (u16 (header_len_co_resp + u16 (length resp.payload))) (encode_co_resp resp)

unfoldable pub encode_co_resp_over_server_send_resp : CoResp → List ℕ → Outcome Error (List ℕ)
encode_co_resp_over_server_send_resp resp =
    frame_over (header_len + header_len_co_resp + length resp.payload) server_send_resp
      resp.header_id (u16 (header_len_co_resp + u16 (length resp.payload))) (encode_co_resp resp)
