-- ===== src/Proto/Verify/RoundTrip.antt =====
-- DecodeVerifyReq and DecodeVerifyReqBody against EncodeVerifyReq.
use rtio.Prelude.{
  ℕ, suc, ◌+◌, ◌*◌, ◌/◌, ◌^◌, ◌≤◌, ◌<◌, ◌≡◌, ap, sym, List, [], ◌∷◌, ◌++◌, some, length, take, drop,
  replicate, bit_and, shl8, u16, ok, ◌>>=◌, arith, and_c0, and_03, copy-replicate, copy_at, set,
  length-append, Lacks, index_byte, index_byte-append, Outcome-cases, Option-cases, inl, inr,
  index_byte_split, take-append, drop-suc-append,
}
use native.Mathlib.Numerals.{add-one}
use rtio.Proto.Header.{Header, decode_header}
use rtio.Proto.Header.Layout.{IsEncodable, header_bytes, encode_header_lem}
use rtio.Proto.Header.RoundTrip.{decode_header-bytes}
use rtio.Proto.Verify.{
  VerifydReq, split_verify, decode_verify_req, decode_verify_req_body, encode_verify_req,
}

-- A request that the protocol allows. The id has 36 bytes and no colon.
pub record IsAllowed (req : VerifydReq) : Type 0 where
  pub version_lt : req.header.version < 16
  pub type_lt : req.header.msg_type < 16
  pub id_lt : req.header.id < 65536
  pub code_lt : req.header.code < 8
  pub cap_level_lt : req.cap_level < 4
  pub device_id_len_eq : length req.device_id ≡ 36
  pub device_id_lacks : Lacks b':' req.device_id
  pub secret_ge : 24 ≤ length req.device_secret
  pub secret_le : length req.device_secret ≤ 64

abbrev pub verify_data : VerifydReq → List ℕ
verify_data req = req.device_id ++ (b':' ∷ req.device_secret)

-- The header as it is sent.
abbrev pub sent_header : VerifydReq → Header
sent_header req = record (req.header) { body_len = length req.device_secret + 38 }

abbrev pub verify_frame : VerifydReq → List ℕ
verify_frame req = header_bytes (sent_header req) ++ ((req.cap_level * 64) ∷ verify_data req)

blank :
    (x : ℕ) (xs : List ℕ)
    → copy_at 6 (set (replicate (5 + (length xs + 1)) 0) 5 x) xs ≡ 0 ∷ 0 ∷ 0 ∷ 0 ∷ 0 ∷ x ∷ xs
blank x xs =
    let e : 5 + (length xs + 1) ≡ suc (suc (suc (suc (suc (suc (length xs)))))) = omega arith in
    rw (e, copy-replicate xs 0)

sent_IsEncodable : (req : VerifydReq) → IsAllowed req → IsEncodable (sent_header req)
sent_IsEncodable req v = record {
  version_lt = v.version_lt;
  type_lt = v.type_lt;
  id_lt = v.id_lt;
  body_len_le = omega arith;
  code_lt = v.code_lt;
}

pub verify_data-length :
    (req : VerifydReq) → IsAllowed req → length (verify_data req) ≡ length req.device_secret + 37
verify_data-length req v = omega (arith, length-append req.device_id (b':' ∷ req.device_secret))

cap_bits : (c : ℕ) → c < 4 → bit_and (shl8 c 6) 0xC0 ≡ c * 64
cap_bits c h = omega (arith, and_c0 (shl8 c 6) (omega arith))

header_sent :
    (req : VerifydReq)
    → IsAllowed req
    → record (req.header) { body_len = u16 (length (verify_data req) + 1) } ≡ sent_header req
header_sent req v =
    ap (λ n. record (req.header) { body_len = n }) (omega (arith, verify_data-length req v))

pub encode_verify_req_lem :
    (req : VerifydReq)
    → IsAllowed req
    → encode_verify_req req ≡ ok (verify_frame req, sent_header req)
unfolding encode_verify_req
encode_verify_req_lem req v =
    rw
      (
        blank (bit_and (shl8 req.cap_level 6) 0xC0) (verify_data req),
        cap_bits req.cap_level v.cap_level_lt,
        header_sent req v,
        encode_header_lem (sent_header req)
            (0 ∷ 0 ∷ 0 ∷ 0 ∷ 0 ∷ (req.cap_level * 64) ∷ verify_data req) (sent_IsEncodable req v)
            (omega arith),
      )
      (ground (arith, verify_data-length req v))

split_verify_lem :
    (id secret : List ℕ)
    → length id ≡ 36
    → Lacks b':' id
    → 24 ≤ length secret
    → length secret ≤ 64
    → split_verify (id ++ (b':' ∷ secret)) ≡ ok (id, secret)
unfolding split_verify
split_verify_lem id secret n l lo hi =
    rw (index_byte-append b':' id secret l, split_verify)
      (ground (arith, take-append id (b':' ∷ secret), drop-suc-append id b':' secret))

-- What the server reads: the request as sent, its version bit lost.
abbrev pub received : VerifydReq → VerifydReq
received req = record req { header = record (sent_header req) { version = 0 } }

split_sent :
    (req : VerifydReq)
    → IsAllowed req
    → split_verify (verify_data req) ≡ ok (req.device_id, req.device_secret)
split_sent req v =
    split_verify_lem req.device_id req.device_secret v.device_id_len_eq v.device_id_lacks
      v.secret_ge v.secret_le

level_bits : (c : ℕ) → c < 4 → bit_and (c * 64 / 2 ^ 6) 0x03 ≡ c
level_bits c h = omega (arith, and_03 (c * 64 / 2 ^ 6) (omega arith))

pub decode_body_lem :
    (h : Header) (req : VerifydReq)
    → IsAllowed req
    → decode_verify_req_body (some h) ((req.cap_level * 64) ∷ verify_data req)
      ≡ ok (record req { header = h })
unfolding decode_verify_req_body
decode_body_lem h req v =
    ground
      (arith, verify_data-length req v, split_sent req v, level_bits req.cap_level v.cap_level_lt)

decode_whole_lem :
    (req : VerifydReq) → IsAllowed req → decode_verify_req (verify_frame req) ≡ ok (received req)
unfolding decode_verify_req
decode_whole_lem req v = ground (
  arith,
  verify_data-length req v,
  split_sent req v,
  level_bits req.cap_level v.cap_level_lt,
  decode_header-bytes (sent_header req) ((req.cap_level * 64) ∷ verify_data req)
      (sent_IsEncodable req v),
)

-- A request with an id of 36 bytes and no colon, a secret of 24 to 64 bytes and a capacity level
-- below 4 comes back from its frame, with the version 0 and the body length filled in, both by
-- decoding the frame whole and, as the server does, by decoding the five header bytes and then
-- the body. The encoder leaves the same body length in the caller's header.
pub decode_verify_req-encode_verify_req :
    (req : VerifydReq)
    → IsAllowed req
    → (frame : List ℕ) × (encode_verify_req req ≡ ok (frame, sent_header req))
      × (decode_verify_req frame ≡ ok (received req))
      × ((decode_header (take 5 frame) >>= λ h. decode_verify_req_body (some h) (drop 5 frame))
          ≡ ok (received req))
decode_verify_req-encode_verify_req req v = (
  verify_frame req,
  encode_verify_req_lem req v,
  decode_whole_lem req v,
  rw (decode_header-bytes (sent_header req) [] (sent_IsEncodable req v)) (decode_body_lem _ req v),
)

split_verify_sound :
    (buf : List ℕ) (r : List ℕ × List ℕ)
    → split_verify buf ≡ ok r
    → (length r.0 ≡ 36)
      × Lacks b':' r.0
      × (24 ≤ length r.1)
      × (length r.1 ≤ 64)
      × (buf ≡ r.0 ++ (b':' ∷ r.1))
unfolding split_verify
split_verify_sound buf r e = elim (Option-cases (index_byte b':' buf)) [
  | inl q ↦ cc (sym (rw (q, split_verify) at e))
  | inr (p, q) ↦ ground (arith, index_byte_split b':' buf p q, rw (q, split_verify, add-one) at e)
]

-- A request that DecodeVerifyReqBody accepts carries the header it was given, an id of 36 bytes
-- with no colon and a secret of 24 to 64 bytes, and the body is one byte of specifics, the id, a
-- colon and the secret. So no device can claim an id of another length.
pub decode_verify_req_body_sound :
    (h : Header) (buf : List ℕ) (req : VerifydReq)
    → decode_verify_req_body (some h) buf ≡ ok req
    → (req.header ≡ h)
      × (length req.device_id ≡ 36)
      × Lacks b':' req.device_id
      × (24 ≤ length req.device_secret)
      × (length req.device_secret ≤ 64)
      × (drop 1 buf ≡ req.device_id ++ (b':' ∷ req.device_secret))
unfolding decode_verify_req_body
decode_verify_req_body_sound h buf req e = elim (Outcome-cases (split_verify (drop 1 buf))) [
  | inl (r, q) ↦ ground (arith, split_verify_sound (drop 1 buf) r q)
  | inr (inl (x, q)) ↦ ground arith
  | inr (inr q) ↦ ground arith
]
