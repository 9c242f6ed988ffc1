-- ===== src/Rest/Observe/Notify.antt =====
-- The messages that notify an observer come back from their frames.
use rtio.Prelude.{
  ℕ, ◌+◌, ◌*◌, ◌≤◌, ◌<◌, ◌≡◌, refl, List, [], ◌∷◌, length, drop, copy_full, ok, arith, le→ltb_false,
  length-drop,
}
use rtio.Proto.Types.{device_send_req, device_send_resp}
use rtio.Rest.Framing.{
  frame_header, Delivers, frame_over-Delivers, bytes16, word16, byte_at_lem, method_byte_lem,
  high_nibble, low_nibble,
}
use rtio.Rest.Observe.{
  ObGetNotifyReq, ObGetNotifyResp, encode_ob_get_notify_req, encode_ob_get_notify_resp,
  decode_ob_get_notify_req, decode_ob_get_notify_resp,
  encode_ob_get_notify_req_over_device_send_req, encode_ob_get_notify_resp_over_device_send_resp,
}

abbrev pub ob_get_notify_req_bytes : ObGetNotifyReq → List ℕ
ob_get_notify_req_bytes m = (m.method * 16 + m.code) ∷ bytes16 m.ob_id m.payload

pub record FitsObGetNotifyReq (m : ObGetNotifyReq) : Type 0 where
  pub method_lt : m.method < 16
  pub code_lt : m.code < 16
  pub id_lt : m.header_id < 65536
  pub ob_id_lt : m.ob_id < 65536
  pub payload_le : 3 + length m.payload ≤ 4096

pub encode_ob_get_notify_req_lem :
    (m : ObGetNotifyReq) (buf : List ℕ)
    → FitsObGetNotifyReq m
    → length buf ≡ 3 + length m.payload
    → encode_ob_get_notify_req m buf ≡ ok (ob_get_notify_req_bytes m)
unfolding encode_ob_get_notify_req
encode_ob_get_notify_req_lem m (a ∷ b ∷ c ∷ rest) v n = rw (
  le→ltb_false (length (a ∷ b ∷ c ∷ rest)) (3 + length m.payload) (omega arith),
  method_byte_lem m.method m.code v.method_lt v.code_lt,
  byte_at_lem m.ob_id 8,
  byte_at_lem m.ob_id 0,
  copy_full rest m.payload (omega arith),
)
encode_ob_get_notify_req_lem m _ v n = absurd (omega arith)

pub decode_ob_get_notify_req_lem :
    (m : ObGetNotifyReq)
    → FitsObGetNotifyReq m
    → decode_ob_get_notify_req m.header_id (ob_get_notify_req_bytes m) ≡ ok m
unfolding decode_ob_get_notify_req
decode_ob_get_notify_req_lem m v = ground (
  arith,
  high_nibble m.method m.code v.method_lt v.code_lt,
  low_nibble m.method m.code v.method_lt v.code_lt,
  word16 m.ob_id v.ob_id_lt,
)

-- An ObGetNotifyReq with nibbles for its method and code, 16-bit ids and a payload of 4093 bytes at
-- most is encoded into a buffer of its frame's length, and the server reads the same request and
-- leaves whatever follows on the stream.
ob_get_notify_req_delivered :
    (m : ObGetNotifyReq)
    → FitsObGetNotifyReq m
    → (buf rest : List ℕ) → length buf ≡ 8 + length m.payload
    → Delivers
        (encode_ob_get_notify_req_over_device_send_req m)
        decode_ob_get_notify_req
        (frame_header device_send_req m.header_id (3 + length m.payload))
        m
        buf
        rest
unfolding encode_ob_get_notify_req_over_device_send_req
ob_get_notify_req_delivered m v buf rest room =
    frame_over-Delivers device_send_req _ _ _ _ (omega (arith, v)) (omega arith) (omega (arith, v))
      _ decode_ob_get_notify_req m buf (ob_get_notify_req_bytes m) rest room (omega arith)
      (encode_ob_get_notify_req_lem m (drop 5 buf) v (omega (arith, length-drop 5 buf)))
      (decode_ob_get_notify_req_lem m v)

abbrev pub ob_get_notify_resp_bytes : ObGetNotifyResp → List ℕ
ob_get_notify_resp_bytes m = (m.method * 16 + m.code) ∷ bytes16 m.ob_id []

pub record FitsObGetNotifyResp (m : ObGetNotifyResp) : Type 0 where
  pub method_lt : m.method < 16
  pub code_lt : m.code < 16
  pub id_lt : m.header_id < 65536
  pub ob_id_lt : m.ob_id < 65536

pub encode_ob_get_notify_resp_lem :
    (m : ObGetNotifyResp) (buf : List ℕ)
    → FitsObGetNotifyResp m
    → length buf ≡ 3
    → encode_ob_get_notify_resp m buf ≡ ok (ob_get_notify_resp_bytes m)
unfolding encode_ob_get_notify_resp
encode_ob_get_notify_resp_lem m (a ∷ b ∷ c ∷ []) v n = rw (
  method_byte_lem m.method m.code v.method_lt v.code_lt,
  byte_at_lem m.ob_id 8,
  byte_at_lem m.ob_id 0,
)
encode_ob_get_notify_resp_lem m _ v n = absurd (omega arith)

pub decode_ob_get_notify_resp_lem :
    (m : ObGetNotifyResp)
    → FitsObGetNotifyResp m
    → decode_ob_get_notify_resp m.header_id (ob_get_notify_resp_bytes m) ≡ ok m
unfolding decode_ob_get_notify_resp
decode_ob_get_notify_resp_lem m v = ground (
  arith,
  high_nibble m.method m.code v.method_lt v.code_lt,
  low_nibble m.method m.code v.method_lt v.code_lt,
  word16 m.ob_id v.ob_id_lt,
)

-- An ObGetNotifyResp with nibbles for its method and code and 16-bit ids is encoded into a
-- buffer of its frame's length, 8 bytes, and a device reads the same response and leaves whatever
-- follows on the stream.
pub ob_get_notify_resp_delivered :
    (m : ObGetNotifyResp)
    → FitsObGetNotifyResp m
    → (buf rest : List ℕ) → length buf ≡ 8
    → Delivers
        (encode_ob_get_notify_resp_over_device_send_resp m)
        decode_ob_get_notify_resp
        (frame_header device_send_resp m.header_id (3))
        m
        buf
        rest
unfolding encode_ob_get_notify_resp_over_device_send_resp
ob_get_notify_resp_delivered m v buf rest room =
    frame_over-Delivers device_send_resp _ _ _ _ (omega (arith, v)) (omega arith) refl _
      decode_ob_get_notify_resp m buf (ob_get_notify_resp_bytes m) rest room (omega arith)
      (encode_ob_get_notify_resp_lem m (drop 5 buf) v (omega (arith, length-drop 5 buf)))
      (decode_ob_get_notify_resp_lem m v)
