-- ===== src/Rest/Observe/Establish.antt =====
-- The messages that establish an observation come back from their frames.
use rtio.Prelude.{
  ℕ, ◌+◌, ◌*◌, ◌^◌, ◌≤◌, ◌<◌, ◌≡◌, refl, List, [], ◌∷◌, length, drop, copy_full, ok, arith,
  le→ltb_false, length-drop,
}
use rtio.Proto.Types.{server_send_req, server_send_resp}
use rtio.Rest.Framing.{
  frame_header, Delivers, frame_over-Delivers, bytes16, word16, bytes32, word32, byte_at_lem,
  method_byte_lem, method_bits, high_nibble, low_nibble,
}
use rtio.Rest.Observe.{
  ObGetEstabReq, ObGetEstabResp, encode_ob_get_estab_req, encode_ob_get_estab_resp,
  decode_ob_get_estab_req, decode_ob_get_estab_resp, encode_ob_get_estab_req_over_server_send_req,
  encode_ob_get_estab_resp_over_server_send_resp,
}

abbrev pub ob_get_estab_req_bytes : ObGetEstabReq → List ℕ
ob_get_estab_req_bytes m = (m.method * 16) ∷ bytes16 m.ob_id (bytes32 m.uri m.payload)

pub record FitsObGetEstabReq (m : ObGetEstabReq) : Type 0 where
  pub method_lt : m.method < 16
  pub id_lt : m.header_id < 65536
  pub ob_id_lt : m.ob_id < 65536
  pub uri_lt : m.uri < 2 ^ 32
  pub payload_le : 7 + length m.payload ≤ 4096

pub encode_ob_get_estab_req_lem :
    (m : ObGetEstabReq) (buf : List ℕ)
    → FitsObGetEstabReq m
    → length buf ≡ 7 + length m.payload
    → encode_ob_get_estab_req m buf ≡ ok (ob_get_estab_req_bytes m)
unfolding encode_ob_get_estab_req
encode_ob_get_estab_req_lem m (a ∷ b ∷ c ∷ d ∷ e ∷ f ∷ g ∷ rest) v n = rw (
  le→ltb_false (length (a ∷ b ∷ c ∷ d ∷ e ∷ f ∷ g ∷ rest)) (7 + length m.payload) (omega arith),
  method_bits m.method v.method_lt,
  byte_at_lem m.ob_id 8,
  byte_at_lem m.ob_id 0,
  byte_at_lem m.uri 24,
  byte_at_lem m.uri 16,
  byte_at_lem m.uri 8,
  byte_at_lem m.uri 0,
  copy_full rest m.payload (omega arith),
)
encode_ob_get_estab_req_lem m _ v n = absurd (omega arith)

pub decode_ob_get_estab_req_lem :
    (m : ObGetEstabReq)
    → FitsObGetEstabReq m
    → decode_ob_get_estab_req m.header_id (ob_get_estab_req_bytes m) ≡ ok m
unfolding decode_ob_get_estab_req
decode_ob_get_estab_req_lem m v = ground (
  arith,
  high_nibble m.method 0 v.method_lt (omega arith),
  word16 m.ob_id v.ob_id_lt,
  word32 m.uri v.uri_lt,
)

-- An ObGetEstabReq with a nibble for its method, 16-bit ids, a 32-bit URI and a payload of 4089
-- bytes at most is encoded into a buffer of its frame's length, and a device reads the same request
-- and leaves whatever follows on the stream.
ob_get_estab_req_delivered :
    (m : ObGetEstabReq)
    → FitsObGetEstabReq m
    → (buf rest : List ℕ) → length buf ≡ 12 + length m.payload
    → Delivers
        (encode_ob_get_estab_req_over_server_send_req m)
        decode_ob_get_estab_req
        (frame_header server_send_req m.header_id (7 + length m.payload))
        m
        buf
        rest
unfolding encode_ob_get_estab_req_over_server_send_req
ob_get_estab_req_delivered m v buf rest room =
    frame_over-Delivers server_send_req _ _ _ _ (omega (arith, v)) (omega arith) (omega (arith, v))
      _ decode_ob_get_estab_req m buf (ob_get_estab_req_bytes m) rest room (omega arith)
      (encode_ob_get_estab_req_lem m (drop 5 buf) v (omega (arith, length-drop 5 buf)))
      (decode_ob_get_estab_req_lem m v)

abbrev pub ob_get_estab_resp_bytes : ObGetEstabResp → List ℕ
ob_get_estab_resp_bytes m = (m.method * 16 + m.code) ∷ bytes16 m.ob_id []

pub record FitsObGetEstabResp (m : ObGetEstabResp) : Type 0 where
  pub method_lt : m.method < 16
  pub code_lt : m.code < 16
  pub id_lt : m.header_id < 65536
  pub ob_id_lt : m.ob_id < 65536

pub encode_ob_get_estab_resp_lem :
    (m : ObGetEstabResp) (buf : List ℕ)
    → FitsObGetEstabResp m
    → length buf ≡ 3
    → encode_ob_get_estab_resp m buf ≡ ok (ob_get_estab_resp_bytes m)
unfolding encode_ob_get_estab_resp
encode_ob_get_estab_resp_lem m (a ∷ b ∷ c ∷ []) v n = rw (
  method_byte_lem m.method m.code v.method_lt v.code_lt,
  byte_at_lem m.ob_id 8,
  byte_at_lem m.ob_id 0,
)
encode_ob_get_estab_resp_lem m _ v n = absurd (omega arith)

pub decode_ob_get_estab_resp_lem :
    (m : ObGetEstabResp)
    → FitsObGetEstabResp m
    → decode_ob_get_estab_resp m.header_id (ob_get_estab_resp_bytes m) ≡ ok m
unfolding decode_ob_get_estab_resp
decode_ob_get_estab_resp_lem m v = ground (
  arith,
  high_nibble m.method m.code v.method_lt v.code_lt,
  low_nibble m.method m.code v.method_lt v.code_lt,
  word16 m.ob_id v.ob_id_lt,
)

-- An ObGetEstabResp with nibbles for its method and code and 16-bit ids is encoded into a
-- buffer of its frame's length, 8 bytes, and the server reads the same response and leaves whatever
-- follows on the stream.
ob_get_estab_resp_delivered :
    (m : ObGetEstabResp)
    → FitsObGetEstabResp m
    → (buf rest : List ℕ) → length buf ≡ 8
    → Delivers
        (encode_ob_get_estab_resp_over_server_send_resp m)
        decode_ob_get_estab_resp
        (frame_header server_send_resp m.header_id (3))
        m
        buf
        rest
unfolding encode_ob_get_estab_resp_over_server_send_resp
ob_get_estab_resp_delivered m v buf rest room =
    frame_over-Delivers server_send_resp _ _ _ _ (omega (arith, v)) (omega arith) refl _
      decode_ob_get_estab_resp m buf (ob_get_estab_resp_bytes m) rest room (omega arith)
      (encode_ob_get_estab_resp_lem m (drop 5 buf) v (omega (arith, length-drop 5 buf)))
      (decode_ob_get_estab_resp_lem m v)
