-- ===== src/Rest/Co/Frames.antt =====
-- The frames of CoReq and CoResp, byte for byte.
use rtio.Prelude.{
  ℕ, ◌+◌, ◌<◌, ◌≡◌, ◌∙◌, List, ◌++◌, length, drop, u16, Outcome, ok, arith, length-drop,
}
use rtio.Proto.Types.{Error, device_send_req, device_send_resp, server_send_req, server_send_resp}
use rtio.Proto.Header.Layout.{IsSized, header_bytes}
use rtio.Rest.Defs.{frame_over, decode_method}
use rtio.Rest.Framing.{frame_header, framed, high_nibble}
use rtio.Rest.Co.{
  CoReq, CoResp, encode_co_req, encode_co_resp, encode_co_req_over_device_send_req,
  encode_co_req_over_server_send_req, encode_co_resp_over_device_send_resp,
  encode_co_resp_over_server_send_resp,
}
use rtio.Rest.Co.RoundTrip.{
  FitsReq, FitsResp, co_req_bytes, co_resp_bytes, encode_co_req_lem, encode_co_resp_lem,
}

abbrev pub co_req_frame : ℕ → CoReq → List ℕ
co_req_frame msg_type req =
    header_bytes (frame_header msg_type req.header_id (5 + length req.payload)) ++ co_req_bytes req

abbrev pub co_resp_frame : ℕ → CoResp → List ℕ
co_resp_frame msg_type resp =
    header_bytes (frame_header msg_type resp.header_id (1 + length resp.payload))
    ++ co_resp_bytes resp

-- A frame, where the room and the length are written in another way.
pub over_frame :
    (msg_type id body_len need len : ℕ) (buf body : List ℕ)
    (encode : List ℕ → Outcome Error (List ℕ))
    → IsSized (frame_header msg_type id body_len)
    → need ≡ 5 + body_len
    → len ≡ body_len
    → length buf ≡ need
    → length body ≡ body_len
    → encode (drop 5 buf) ≡ ok body
    → frame_over need msg_type id len encode buf
      ≡ ok (header_bytes (frame_header msg_type id body_len) ++ body)
over_frame t id bl need len buf body encode v en el room full e =
    rw (en, el) (framed t id bl v buf body (room ∙ en) full encode e)

module _ (req : CoReq) (v : FitsReq req) (buf : List ℕ)
    (room : length buf ≡ 10 + length req.payload) where
  over_req :
      (msg_type : ℕ)
      → msg_type < 16
      → frame_over
          (10 + length req.payload)
          msg_type
          req.header_id
          (u16 (5 + u16 (length req.payload)))
          (encode_co_req req)
          buf
        ≡ ok (co_req_frame msg_type req)
  over_req t lt =
      over_frame t req.header_id (5 + length req.payload) _ _ buf (co_req_bytes req)
        (encode_co_req req) (omega (arith, v)) (omega arith) (omega (arith, v)) room (omega arith)
        (encode_co_req_lem req (drop 5 buf) v (omega (arith, length-drop 5 buf)))

  pub device_req_frame :
      encode_co_req_over_device_send_req req buf ≡ ok (co_req_frame device_send_req req)
  unfolding encode_co_req_over_device_send_req
  device_req_frame = over_req device_send_req (omega arith)

  pub server_req_frame :
      encode_co_req_over_server_send_req req buf ≡ ok (co_req_frame server_send_req req)
  unfolding encode_co_req_over_server_send_req
  server_req_frame = over_req server_send_req (omega arith)

module _ (resp : CoResp) (v : FitsResp resp) (buf : List ℕ)
    (room : length buf ≡ 6 + length resp.payload) where
  over_resp :
      (msg_type : ℕ)
      → msg_type < 16
      → frame_over
          (6 + length resp.payload)
          msg_type
          resp.header_id
          (u16 (1 + u16 (length resp.payload)))
          (encode_co_resp resp)
          buf
        ≡ ok (co_resp_frame msg_type resp)
  over_resp t lt =
      over_frame t resp.header_id (1 + length resp.payload) _ _ buf (co_resp_bytes resp)
        (encode_co_resp resp) (omega (arith, v)) (omega arith) (omega (arith, v)) room (omega arith)
        (encode_co_resp_lem resp (drop 5 buf) v (omega (arith, length-drop 5 buf)))

  pub device_resp_frame :
      encode_co_resp_over_device_send_resp resp buf ≡ ok (co_resp_frame device_send_resp resp)
  unfolding encode_co_resp_over_device_send_resp
  device_resp_frame = over_resp device_send_resp (omega arith)

  pub server_resp_frame :
      encode_co_resp_over_server_send_resp resp buf ≡ ok (co_resp_frame server_send_resp resp)
  unfolding encode_co_resp_over_server_send_resp
  server_resp_frame = over_resp server_send_resp (omega arith)

-- The receiver of a request finds its method.
pub decode_method-co_req_bytes :
    (req : CoReq) → req.method < 16 → decode_method (co_req_bytes req) ≡ ok req.method
unfolding decode_method
decode_method-co_req_bytes req h = ground (arith, high_nibble req.method 0 h (omega arith))
