-- ===== src/Proto/Ping/RoundTrip.antt =====
-- DecodePingReqBody against EncodePingReq.
use rtio.Prelude.{
  ℕ, zero, suc, ◌/◌, ◌%◌, ◌^◌, ◌<◌, ◌≡◌, refl, List, [], ◌∷◌, ◌++◌, some, take, drop, bit_and, u8,
  ok, ◌>>=◌, arith, and_255,
}
use rtio.Proto.Header.{Header, decode_header}
use rtio.Proto.Header.Layout.{IsEncodable, header_bytes, encode_header_lem}
use rtio.Proto.Header.RoundTrip.{decode_header-bytes}
use rtio.Proto.Ping.{PingReq, ping_body_len, decode_ping_req_body, encode_ping_req}

pub record IsAllowed (req : PingReq) : Type 0 where
  pub version_lt : req.header.version < 16
  pub type_lt : req.header.msg_type < 16
  pub id_lt : req.header.id < 65536
  pub code_lt : req.header.code < 8
  pub timeout_lt : req.timeout < 65536

abbrev pub sent_header : PingReq → Header
sent_header req = record (req.header) { body_len = ping_body_len req.timeout }

sent_IsEncodable : (req : PingReq) → IsAllowed req → IsEncodable (sent_header req)
sent_IsEncodable req v = record {
  version_lt = v.version_lt;
  type_lt = v.type_lt;
  id_lt = v.id_lt;
  body_len_le = ground arith;
  code_lt = v.code_lt;
}

-- The body on the wire: nothing for a timeout of 0, and two bytes for any other.
abbrev pub ping_body : ℕ → List ℕ
ping_body zero = []
ping_body (suc t) = (suc t / 256) ∷ (suc t % 256) ∷ []

pub encode_ping_req_lem :
    (req : PingReq) (t : ℕ)
    → req.timeout ≡ t
    → IsAllowed req
    → encode_ping_req req ≡ ok (header_bytes (sent_header req) ++ ping_body t, sent_header req)
unfolding encode_ping_req
encode_ping_req_lem req zero e v = ground (
  arith,
  encode_header_lem (sent_header req) (0 ∷ 0 ∷ 0 ∷ 0 ∷ 0 ∷ []) (sent_IsEncodable req v)
      (omega arith),
)
encode_ping_req_lem req (suc t) e v = ground (
  arith,
  and_255 (suc t),
  encode_header_lem (sent_header req)
      (0 ∷ 0 ∷ 0 ∷ 0 ∷ 0 ∷ u8 (suc t / 2 ^ 8) ∷ u8 (bit_and (suc t) 255) ∷ [])
      (sent_IsEncodable req v) (omega arith),
)

abbrev pub received : PingReq → PingReq
received req = record req { header = record (sent_header req) { version = 0 } }

decode_ping_body :
    (req : PingReq) (t : ℕ) (h : Header)
    → req.timeout ≡ t
    → IsAllowed req
    → h.body_len ≡ ping_body_len req.timeout
    → decode_ping_req_body (some h) (ping_body t) ≡ ok (record req { header = h })
unfolding decode_ping_req_body
decode_ping_body req zero h e v n = ground arith
decode_ping_body req (suc t) h e v n = ground arith

-- A ping with any timeout comes back from its frame, read as the server reads it: the five header
-- bytes, and then the body. The version comes back as 0, and the body length is 0 for a timeout of
-- 0 and 2 for any other; the encoder leaves that length in the caller's header too.
decode_ping_req-encode_ping_req :
    (req : PingReq)
    → IsAllowed req
    → (frame : List ℕ) × (encode_ping_req req ≡ ok (frame, sent_header req))
      × ((decode_header (take 5 frame) >>= λ h. decode_ping_req_body (some h) (drop 5 frame))
          ≡ ok (received req))
decode_ping_req-encode_ping_req req v = (
  header_bytes (sent_header req) ++ ping_body req.timeout,
  encode_ping_req_lem req req.timeout refl v,
  rw (decode_header-bytes (sent_header req) [] (sent_IsEncodable req v))
      (decode_ping_body req req.timeout _ refl v refl),
)
