-- ===== src/Rest/Observe/Frames.antt =====
-- The frames of the messages of an observation, byte for byte.
use rtio.Prelude.{ℕ, ◌+◌, ◌<◌, ◌≡◌, refl, List, ◌++◌, length, drop, ok, arith, length-drop}
use rtio.Proto.Types.{device_send_req, device_send_resp, server_send_req, server_send_resp}
use rtio.Proto.Header.Layout.{header_bytes}
use rtio.Rest.Defs.{decode_method}
use rtio.Rest.Framing.{frame_header, high_nibble}
use rtio.Rest.Co.Frames.{over_frame}
use rtio.Rest.Observe.{
  ObGetEstabReq, ObGetEstabResp, encode_ob_get_estab_req, encode_ob_get_estab_resp,
  encode_ob_get_estab_req_over_server_send_req, encode_ob_get_estab_resp_over_server_send_resp,
  ObGetNotifyReq, ObGetNotifyResp, encode_ob_get_notify_req, encode_ob_get_notify_resp,
  encode_ob_get_notify_req_over_device_send_req, encode_ob_get_notify_resp_over_device_send_resp,
}
use rtio.Rest.Observe.Establish.{
  FitsObGetEstabReq, FitsObGetEstabResp, ob_get_estab_req_bytes, ob_get_estab_resp_bytes,
  encode_ob_get_estab_req_lem, encode_ob_get_estab_resp_lem,
}
use rtio.Rest.Observe.Notify.{
  FitsObGetNotifyReq, FitsObGetNotifyResp, ob_get_notify_req_bytes, ob_get_notify_resp_bytes,
  encode_ob_get_notify_req_lem, encode_ob_get_notify_resp_lem,
}

abbrev pub notify_req_frame : ObGetNotifyReq → List ℕ
notify_req_frame m =
    header_bytes (frame_header device_send_req m.header_id (3 + length m.payload))
    ++ ob_get_notify_req_bytes m

abbrev pub notify_resp_frame : ObGetNotifyResp → List ℕ
notify_resp_frame m =
    header_bytes (frame_header device_send_resp m.header_id 3) ++ ob_get_notify_resp_bytes m

pub encode_notify_req_lem :
    (m : ObGetNotifyReq) (buf : List ℕ)
    → FitsObGetNotifyReq m
    → length buf ≡ 8 + length m.payload
    → encode_ob_get_notify_req_over_device_send_req m buf ≡ ok (notify_req_frame m)
unfolding encode_ob_get_notify_req_over_device_send_req
encode_notify_req_lem m buf v room =
    over_frame device_send_req m.header_id (3 + length m.payload) _ _ buf
      (ob_get_notify_req_bytes m) (encode_ob_get_notify_req m) (omega (arith, v)) (omega arith)
      (omega (arith, v)) room (omega arith)
      (encode_ob_get_notify_req_lem m (drop 5 buf) v (omega (arith, length-drop 5 buf)))

pub encode_notify_resp_lem :
    (m : ObGetNotifyResp) (buf : List ℕ)
    → FitsObGetNotifyResp m
    → length buf ≡ 8
    → encode_ob_get_notify_resp_over_device_send_resp m buf ≡ ok (notify_resp_frame m)
unfolding encode_ob_get_notify_resp_over_device_send_resp
encode_notify_resp_lem m buf v room =
    over_frame device_send_resp m.header_id 3 _ _ buf (ob_get_notify_resp_bytes m)
      (encode_ob_get_notify_resp m) (omega (arith, v)) (omega arith) refl room (omega arith)
      (encode_ob_get_notify_resp_lem m (drop 5 buf) v (omega (arith, length-drop 5 buf)))

-- The receiver of a notification finds its method.
pub decode_method-notify_req_bytes :
    (m : ObGetNotifyReq)
    → m.method < 16
    → m.code < 16
    → decode_method (ob_get_notify_req_bytes m) ≡ ok m.method
unfolding decode_method
decode_method-notify_req_bytes m h k = ground (arith, high_nibble m.method m.code h k)

abbrev pub estab_req_frame : ObGetEstabReq → List ℕ
estab_req_frame m =
    header_bytes (frame_header server_send_req m.header_id (7 + length m.payload))
    ++ ob_get_estab_req_bytes m

abbrev pub estab_resp_frame : ObGetEstabResp → List ℕ
estab_resp_frame m =
    header_bytes (frame_header server_send_resp m.header_id 3) ++ ob_get_estab_resp_bytes m

pub encode_estab_req_lem :
    (m : ObGetEstabReq) (buf : List ℕ)
    → FitsObGetEstabReq m
    → length buf ≡ 12 + length m.payload
    → encode_ob_get_estab_req_over_server_send_req m buf ≡ ok (estab_req_frame m)
unfolding encode_ob_get_estab_req_over_server_send_req
encode_estab_req_lem m buf v room =
    over_frame server_send_req m.header_id (7 + length m.payload) _ _ buf (ob_get_estab_req_bytes m)
      (encode_ob_get_estab_req m) (omega (arith, v)) (omega arith) (omega (arith, v)) room
      (omega arith)
      (encode_ob_get_estab_req_lem m (drop 5 buf) v (omega (arith, length-drop 5 buf)))

pub encode_estab_resp_lem :
    (m : ObGetEstabResp) (buf : List ℕ)
    → FitsObGetEstabResp m
    → length buf ≡ 8
    → encode_ob_get_estab_resp_over_server_send_resp m buf ≡ ok (estab_resp_frame m)
unfolding encode_ob_get_estab_resp_over_server_send_resp
encode_estab_resp_lem m buf v room =
    over_frame server_send_resp m.header_id 3 _ _ buf (ob_get_estab_resp_bytes m)
      (encode_ob_get_estab_resp m) (omega (arith, v)) (omega arith) refl room (omega arith)
      (encode_ob_get_estab_resp_lem m (drop 5 buf) v (omega (arith, length-drop 5 buf)))

pub decode_method-estab_req_bytes :
    (m : ObGetEstabReq) → m.method < 16 → decode_method (ob_get_estab_req_bytes m) ≡ ok m.method
unfolding decode_method
decode_method-estab_req_bytes m h = ground (arith, high_nibble m.method 0 h (omega arith))
