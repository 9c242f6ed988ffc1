-- ===== src/Rest/Observe.antt =====
-- The messages of ObservedGet: establishing an observation, and notifying the observer.
pub mod Establish
pub mod Notify
pub mod Frames
use rtio.Prelude.{
  ℕ, ◌+◌, List, length, drop, set, copy_at, ltb, bit_and, u16, shl8, Outcome, ok, fail_if, ◌>>◌,
}
use rtio.Proto.Types.{
  Error, err_not_enought, header_len, device_send_req, device_send_resp, server_send_req,
  server_send_resp,
}
use rtio.Rest.Defs.{method_byte, method_of, code_of, u16_at, u32_at, put_u16, put_u32, frame_over}

abbrev pub header_len_ob_get_estab_req : ℕ
header_len_ob_get_estab_req = 7

abbrev pub header_len_ob_get_estab_resp : ℕ
header_len_ob_get_estab_resp = 3

abbrev pub header_len_ob_get_notify_req : ℕ
header_len_ob_get_notify_req = 3

abbrev pub header_len_ob_get_notify_resp : ℕ
header_len_ob_get_notify_resp = 3

pub record ObGetEstabReq : Type 0 where
  pub header_id : ℕ  -- uint16
  pub method : ℕ  -- uint8
  pub ob_id : ℕ  -- uint16
  pub uri : ℕ  -- uint32
  pub payload : List ℕ

pub record ObGetEstabResp : Type 0 where
  pub header_id : ℕ  -- uint16
  pub method : ℕ  -- uint8
  pub code : ℕ  -- uint8
  pub ob_id : ℕ  -- uint16

pub record ObGetNotifyReq : Type 0 where
  pub header_id : ℕ  -- uint16
  pub method : ℕ  -- uint8
  pub code : ℕ  -- uint8
  pub ob_id : ℕ  -- uint16
  pub payload : List ℕ

pub record ObGetNotifyResp : Type 0 where
  pub header_id : ℕ  -- uint16
  pub method : ℕ  -- uint8
  pub code : ℕ  -- uint8
  pub ob_id : ℕ  -- uint16

unfoldable pub encode_ob_get_estab_req : ObGetEstabReq → List ℕ → Outcome Error (List ℕ)
encode_ob_get_estab_req req buf = do
  fail_if (ltb (length buf) (header_len_ob_get_estab_req + length req.payload)) err_not_enought
  let buf1 = set buf 0 (bit_and (shl8 req.method 4) 0xF0)
  ok (copy_at 7 (put_u32 (put_u16 buf1 1 req.ob_id) 3 req.uri) req.payload)

unfoldable pub encode_ob_get_estab_req_over_server_send_req :
    ObGetEstabReq → List ℕ → Outcome Error (List ℕ)
encode_ob_get_estab_req_over_server_send_req req =
    frame_over (header_len + header_len_ob_get_estab_req + length req.payload) server_send_req
      req.header_id (u16 (header_len_ob_get_estab_req + u16 (length req.payload)))
      (encode_ob_get_estab_req req)

unfoldable pub decode_ob_get_estab_req : ℕ → List ℕ → Outcome Error ObGetEstabReq
decode_ob_get_estab_req header_id buf = do
  fail_if (ltb (length buf) header_len_ob_get_estab_req) err_not_enought
  ok (record {
    header_id = header_id;
    method = method_of buf;
    ob_id = u16_at buf 1;
    uri = u32_at buf 3;
    payload = drop 7 buf;
  })

unfoldable pub encode_ob_get_estab_resp : ObGetEstabResp → List ℕ → Outcome Error (List ℕ)
encode_ob_get_estab_resp resp buf = do
  fail_if (ltb (length buf) header_len_ob_get_estab_resp) err_not_enought
  ok (put_u16 (set buf 0 (method_byte resp.method resp.code)) 1 resp.ob_id)

unfoldable pub encode_ob_get_estab_resp_over_server_send_resp :
    ObGetEstabResp → List ℕ → Outcome Error (List ℕ)
encode_ob_get_estab_resp_over_server_send_resp resp =
    frame_over (header_len + header_len_ob_get_estab_resp) server_send_resp resp.header_id
      header_len_ob_get_estab_resp (encode_ob_get_estab_resp resp)

unfoldable pub decode_ob_get_estab_resp : ℕ → List ℕ → Outcome Error ObGetEstabResp
decode_ob_get_estab_resp header_id buf = do
  fail_if (ltb (length buf) header_len_ob_get_estab_resp) err_not_enought
  ok (record {
    header_id = header_id;
    method = method_of buf;
    code = code_of buf;
    ob_id = u16_at buf 1;
  })

unfoldable pub encode_ob_get_notify_req : ObGetNotifyReq → List ℕ → Outcome Error (List ℕ)
encode_ob_get_notify_req req buf = do
  fail_if (ltb (length buf) (header_len_ob_get_notify_req + length req.payload)) err_not_enought
  let buf1 = put_u16 (set buf 0 (method_byte req.method req.code)) 1 req.ob_id
  ok (copy_at 3 buf1 req.payload)

unfoldable pub encode_ob_get_notify_req_over_device_send_req :
    ObGetNotifyReq → List ℕ → Outcome Error (List ℕ)
encode_ob_get_notify_req_over_device_send_req req =
    frame_over (header_len + header_len_ob_get_notify_req + length req.payload) device_send_req
      req.header_id (u16 (header_len_ob_get_notify_req + u16 (length req.payload)))
      (encode_ob_get_notify_req req)

unfoldable pub decode_ob_get_notify_req : ℕ → List ℕ → Outcome Error ObGetNotifyReq
decode_ob_get_notify_req header_id buf = do
  fail_if (ltb (length buf) header_len_ob_get_notify_req) err_not_enought
  ok (record {
    header_id = header_id;
    method = method_of buf;
    code = code_of buf;
    ob_id = u16_at buf 1;
    payload = drop 3 buf;
  })

unfoldable pub encode_ob_get_notify_resp : ObGetNotifyResp → List ℕ → Outcome Error (List ℕ)
encode_ob_get_notify_resp resp buf = do
  fail_if (ltb (length buf) header_len_ob_get_notify_resp) err_not_enought
  ok (put_u16 (set buf 0 (method_byte resp.method resp.code)) 1 resp.ob_id)

unfoldable pub encode_ob_get_notify_resp_over_device_send_resp :
    ObGetNotifyResp → List ℕ → Outcome Error (List ℕ)
encode_ob_get_notify_resp_over_device_send_resp resp =
    frame_over (header_len + header_len_ob_get_notify_resp) device_send_resp resp.header_id
      header_len_ob_get_notify_resp (encode_ob_get_notify_resp resp)

unfoldable pub decode_ob_get_notify_resp : ℕ → List ℕ → Outcome Error ObGetNotifyResp
decode_ob_get_notify_resp header_id buf = do
  fail_if (ltb (length buf) header_len_ob_get_notify_resp) err_not_enought
  ok (record {
    header_id = header_id;
    method = method_of buf;
    ob_id = u16_at buf 1;
    code = code_of buf;
  })
