-- ===== src/Rest/Co/RoundTrip.antt =====
-- CoReq and CoResp come back from their frames.
use rtio.Prelude.{
  ℕ, ◌+◌, ◌*◌, ◌^◌, ◌≤◌, ◌<◌, ◌≡◌, List, [], ◌∷◌, length, drop, copy_full, ok, arith, le→ltb_false,
  u16, length-drop,
}
use rtio.Proto.Types.{device_send_req, device_send_resp, server_send_req, server_send_resp}
use rtio.Rest.Defs.{frame_over}
use rtio.Rest.Framing.{
  frame_header, Delivers, frame_over-Delivers, bytes32, word32, byte_at_lem, method_byte_lem,
  method_bits, high_nibble, low_nibble,
}
use rtio.Rest.Co.{
  CoReq, CoResp, decode_co_req, encode_co_req, encode_co_req_over_device_send_req,
  encode_co_req_over_server_send_req, decode_co_resp, encode_co_resp,
  encode_co_resp_over_device_send_resp, encode_co_resp_over_server_send_resp,
}

abbrev pub co_req_bytes : CoReq → List ℕ
co_req_bytes req = (req.method * 16) ∷ bytes32 req.uri req.payload

pub record FitsReq (req : CoReq) : Type 0 where
  pub method_lt : req.method < 16
  pub uri_lt : req.uri < 2 ^ 32
  pub id_lt : req.header_id < 65536
  pub payload_le : 5 + length req.payload ≤ 4096

pub encode_co_req_lem :
    (req : CoReq) (buf : List ℕ)
    → FitsReq req
    → length buf ≡ 5 + length req.payload
    → encode_co_req req buf ≡ ok (co_req_bytes req)
unfolding encode_co_req
encode_co_req_lem req (a ∷ b ∷ c ∷ d ∷ e ∷ rest) v n = rw (
  le→ltb_false (length (a ∷ b ∷ c ∷ d ∷ e ∷ rest)) (5 + length req.payload) (omega arith),
  method_bits req.method v.method_lt,
  byte_at_lem req.uri 24,
  byte_at_lem req.uri 16,
  byte_at_lem req.uri 8,
  byte_at_lem req.uri 0,
  copy_full rest req.payload (omega arith),
)
encode_co_req_lem req _ v n = absurd (omega arith)

pub decode_co_req_lem :
    (req : CoReq) → FitsReq req → decode_co_req req.header_id (co_req_bytes req) ≡ ok req
unfolding decode_co_req
decode_co_req_lem req v =
    ground (arith, high_nibble req.method 0 v.method_lt (omega arith), word32 req.uri v.uri_lt)

module _ (req : CoReq) (v : FitsReq req) (buf rest : List ℕ)
    (room : length buf ≡ 10 + length req.payload) where
  framed_req :
      (msg_type : ℕ)
      → msg_type < 16
      → Delivers
          (frame_over
            (10 + length req.payload)
            msg_type
            req.header_id
            (u16 (5 + u16 (length req.payload)))
            (encode_co_req req))
          decode_co_req
          (frame_header msg_type req.header_id (5 + length req.payload))
          req
          buf
          rest
  framed_req t lt =
      frame_over-Delivers t _ _ _ _ (omega (arith, v)) (omega arith) (omega (arith, v)) _
        decode_co_req req buf (co_req_bytes req) rest room (omega arith)
        (encode_co_req_lem req (drop 5 buf) v (omega (arith, length-drop 5 buf)))
        (decode_co_req_lem req v)

  -- A CoReq with a nibble for its method, a 32-bit URI, a 16-bit id and a payload of 4091 bytes at
  -- most is encoded into a buffer of its frame's length, and its receiver reads the same request
  -- and leaves whatever follows on the stream. So it is for a request that a device sends, and for
  -- one that the server sends.
  pub co_req_delivered :
      Delivers
        (encode_co_req_over_device_send_req req)
        decode_co_req
        (frame_header device_send_req req.header_id (5 + length req.payload))
        req
        buf
        rest
      × Delivers
          (encode_co_req_over_server_send_req req)
          decode_co_req
          (frame_header server_send_req req.header_id (5 + length req.payload))
          req
          buf
          rest
  unfolding encode_co_req_over_device_send_req encode_co_req_over_server_send_req
  co_req_delivered =
      (framed_req device_send_req (omega arith), framed_req server_send_req (omega arith))

abbrev pub co_resp_bytes : CoResp → List ℕ
co_resp_bytes resp = (resp.method * 16 + resp.code) ∷ resp.payload

pub record FitsResp (resp : CoResp) : Type 0 where
  pub method_lt : resp.method < 16
  pub code_lt : resp.code < 16
  pub id_lt : resp.header_id < 65536
  pub payload_le : 1 + length resp.payload ≤ 4096

pub encode_co_resp_fields :
    (resp : CoResp) (buf : List ℕ)
    → resp.method < 16
    → resp.code < 16
    → length buf ≡ 1 + length resp.payload
    → encode_co_resp resp buf ≡ ok (co_resp_bytes resp)
unfolding encode_co_resp
encode_co_resp_fields resp [] m c n = absurd (omega arith)
encode_co_resp_fields resp (a ∷ rest) m c n = rw (
  le→ltb_false (length (a ∷ rest)) (1 + length resp.payload) (omega arith),
  method_byte_lem resp.method resp.code m c,
  copy_full rest resp.payload (omega arith),
)

pub encode_co_resp_lem :
    (resp : CoResp) (buf : List ℕ)
    → FitsResp resp
    → length buf ≡ 1 + length resp.payload
    → encode_co_resp resp buf ≡ ok (co_resp_bytes resp)
encode_co_resp_lem resp buf v n = encode_co_resp_fields resp buf v.method_lt v.code_lt n

pub decode_co_resp_lem :
    (resp : CoResp) → FitsResp resp → decode_co_resp resp.header_id (co_resp_bytes resp) ≡ ok resp
unfolding decode_co_resp
decode_co_resp_lem resp v = ground (
  arith,
  high_nibble resp.method resp.code v.method_lt v.code_lt,
  low_nibble resp.method resp.code v.method_lt v.code_lt,
)

module _ (resp : CoResp) (v : FitsResp resp) (buf rest : List ℕ)
    (room : length buf ≡ 6 + length resp.payload) where
  framed_resp :
      (msg_type : ℕ)
      → msg_type < 16
      → Delivers
          (frame_over
            (6 + length resp.payload)
            msg_type
            resp.header_id
            (u16 (1 + u16 (length resp.payload)))
            (encode_co_resp resp))
          decode_co_resp
          (frame_header msg_type resp.header_id (1 + length resp.payload))
          resp
          buf
          rest
  framed_resp t lt =
      frame_over-Delivers t _ _ _ _ (omega (arith, v)) (omega arith) (omega (arith, v)) _
        decode_co_resp resp buf (co_resp_bytes resp) rest room (omega arith)
        (encode_co_resp_lem resp (drop 5 buf) v (omega (arith, length-drop 5 buf)))
        (decode_co_resp_lem resp v)

  -- A CoResp with nibbles for its method and code, a 16-bit id and a payload of 4095 bytes at most
  -- is encoded into a buffer of its frame's length, and its receiver reads the same response and
  -- leaves whatever follows on the stream. So it is for a response to a request of a device, and for
  -- one to a request of the server.
  co_resp_delivered :
      Delivers
        (encode_co_resp_over_device_send_resp resp)
        decode_co_resp
        (frame_header device_send_resp resp.header_id (1 + length resp.payload))
        resp
        buf
        rest
      × Delivers
          (encode_co_resp_over_server_send_resp resp)
          decode_co_resp
          (frame_header server_send_resp resp.header_id (1 + length resp.payload))
          resp
          buf
          rest
  unfolding encode_co_resp_over_device_send_resp encode_co_resp_over_server_send_resp
  co_resp_delivered =
      (framed_resp device_send_resp (omega arith), framed_resp server_send_resp (omega arith))
