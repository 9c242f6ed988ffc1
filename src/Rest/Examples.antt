-- ===== src/Rest/Examples.antt =====
-- The messages of the rest-like protocol on a stream.
use rtio.Prelude.{[], ◌∷◌, replicate, arith, refl}
use rtio.Proto.Types.{device_send_req, server_send_req}
use rtio.Rest.Framing.{Delivers, frame_header}
use rtio.Rest.Co.{
  CoReq, decode_co_req, encode_co_req_over_device_send_req, encode_co_req_over_server_send_req,
}
use rtio.Rest.Co.RoundTrip.{co_req_delivered}

abbrev co_req : CoReq
co_req = record { header_id = 513; method = 3; uri = 305419896; payload = 1 ∷ 2 ∷ [] }

co_req_delivered_example :
    Delivers
      (encode_co_req_over_device_send_req co_req)
      decode_co_req
      (frame_header device_send_req 513 7)
      co_req
      (replicate 12 0)
      (9 ∷ [])
    × Delivers
        (encode_co_req_over_server_send_req co_req)
        decode_co_req
        (frame_header server_send_req 513 7)
        co_req
        (replicate 12 0)
        (9 ∷ [])
co_req_delivered_example = co_req_delivered co_req (ground arith) (replicate 12 0) (9 ∷ []) refl
