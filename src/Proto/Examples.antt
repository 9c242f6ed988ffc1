-- ===== src/Proto/Examples.antt =====
-- The codec on concrete messages.
use rtio.Prelude.{
  ℕ, ◌+◌, ◌*◌, index_byte, ◌≤◌, ◌<◌, ◌≡◌, refl, ◌⊎◌, some, List, [], ◌∷◌, ◌++◌, take, drop,
  replicate, ok, err, ◌>>=◌, arith,
}
use rtio.Proto.Types.{err_not_enought, err_exceed_length}
use rtio.Proto.Header.{Header, decode_header, encode_header}
use rtio.Proto.Header.RoundTrip.{header_of, decode_header_outcomes, decode_header-encode_header}
use rtio.Proto.Verify.{
  split_verify, VerifydReq, decode_verify_req, decode_verify_req_body, encode_verify_req,
}
use rtio.Proto.Verify.RoundTrip.{decode_verify_req-encode_verify_req}
use rtio.Proto.Send.{Slice}

-- A ping of two body bytes with id 258 and version 1.
abbrev ping_header : Header
ping_header = record { version = 1; msg_type = 3; id = 258; body_len = 2; code = 0 }

abbrev read_header : Header
read_header = record { version = 0; msg_type = 3; id = 258; body_len = 2; code = 0 }

abbrev ping_bytes : List ℕ
ping_bytes = 48 ∷ 1 ∷ 2 ∷ 0 ∷ 2 ∷ 1 ∷ 44 ∷ []

decode_ping_bytes : decode_header ping_bytes ≡ ok read_header
unfolding decode_header
decode_ping_bytes = refl

decode_header_outcomes_example :
    ((7 < 5) × (decode_header ping_bytes ≡ err err_not_enought))
    ⊎ ((a b c d e : ℕ) × (rest : List ℕ) × (ping_bytes ≡ a ∷ b ∷ c ∷ d ∷ e ∷ rest)
        × (((4096 < d * 256 + e) × (decode_header ping_bytes ≡ err err_exceed_length))
            ⊎ ((d * 256 + e ≤ 4096) × (decode_header ping_bytes ≡ ok (header_of a b c d e)))))
decode_header_outcomes_example = decode_header_outcomes ping_bytes (omega arith)

decode_header-encode_header_example :
    (encode_header ping_header (replicate 5 9) >>= decode_header) ≡ ok read_header
decode_header-encode_header_example =
    decode_header-encode_header ping_header (replicate 5 9) (omega arith) (omega arith)

abbrev verify_header : ℕ → ℕ → Header
verify_header version body_len = record {
  version = version;
  msg_type = 1;
  id = 7;
  body_len = body_len;
  code = 0;
}

abbrev id_bytes : List ℕ
id_bytes = replicate 36 b'a'

abbrev secret_bytes : List ℕ
secret_bytes = replicate 24 b's'

abbrev verify_req : ℕ → ℕ → VerifydReq
verify_req version body_len = record {
  header = verify_header version body_len;
  cap_level = 2;
  device_id = id_bytes;
  device_secret = secret_bytes;
}

decode_verify_req-encode_verify_req_example :
    (frame : List ℕ) × (encode_verify_req (verify_req 1 0) ≡ ok (frame, verify_header 1 62))
    × (decode_verify_req frame ≡ ok (verify_req 0 62))
    × ((decode_header (take 5 frame) >>= λ h. decode_verify_req_body (some h) (drop 5 frame))
        ≡ ok (verify_req 0 62))
decode_verify_req-encode_verify_req_example =
    decode_verify_req-encode_verify_req (verify_req 1 0) (ground arith)

abbrev verify_body : List ℕ
verify_body = 128 ∷ (id_bytes ++ (b':' ∷ secret_bytes))

decode_verify_body :
    decode_verify_req_body (some (verify_header 0 62)) verify_body ≡ ok (verify_req 0 62)
unfolding decode_verify_req_body split_verify index_byte
decode_verify_body = refl

-- A header that promises two bytes, and no more than one after it.
abbrev short_slice : Slice
short_slice = record { elems = 48 ∷ 1 ∷ 2 ∷ 0 ∷ 2 ∷ 1 ∷ []; spare = [] }

decode_short_slice : decode_header short_slice.elems ≡ ok read_header
unfolding decode_header
decode_short_slice = refl
