-- ===== src/Proto/Send/RoundTrip.antt =====
-- DecodeSendReq and DecodeSendResp against their encoders.
use rtio.Prelude.{
  ℕ, suc, ◌+◌, ◌-◌, ◌≤◌, ◌<◌, ◌≡◌, ap, List, ◌∷◌, ◌++◌, length, replicate, ◌↔◌, copy_at,
  copy-replicate, length-append, take-append, u16, ok, panic, ◌>>=◌, arith,
}
use rtio.Proto.Header.{Header, decode_header, encode_header}
use rtio.Proto.Header.Layout.{IsEncodable, header_bytes, encode_header_lem}
use rtio.Proto.Header.RoundTrip.{decode_header-bytes}
use rtio.Proto.Send.{
  SendReq, SendResp, Slice, slice_range, decode_send_req, encode_send_req, decode_send_resp,
  encode_send_resp,
}

-- The header fields that a sender chooses.
pub record IsAllowed (h : Header) : Type 0 where
  pub version_lt : h.version < 16
  pub type_lt : h.msg_type < 16
  pub id_lt : h.id < 65536
  pub code_lt : h.code < 8

abbrev pub sent_header : Header → List ℕ → Header
sent_header h body = record h { body_len = length body }

abbrev pub received_header : Header → List ℕ → Header
received_header h body = record h { version = 0; body_len = length body }

module _ (h : Header) (body : List ℕ) (v : IsAllowed h) (n : length body ≤ 4096) where
  sent_IsEncodable : IsEncodable (sent_header h body)
  sent_IsEncodable = record {
    version_lt = v.version_lt;
    type_lt = v.type_lt;
    id_lt = v.id_lt;
    body_len_le = n;
    code_lt = v.code_lt;
  }

  -- The frame that both encoders write.
  framed :
      ◌>>=◌ {B = List ℕ × Header}
        (encode_header (record h { body_len = u16 (length body) }) (replicate (5 + length body) 0))
        (λ buf. ok (copy_at 5 buf body, record h { body_len = u16 (length body) }))
      ≡ ok (header_bytes (sent_header h body) ++ body, sent_header h body)
  framed =
      let e : 5 + length body ≡ suc (suc (suc (suc (suc (length body))))) = omega arith in
      let w : u16 (length body) ≡ length body = omega arith in
      rw
        (
          e,
          w,
          encode_header_lem (sent_header h body) (0 ∷ 0 ∷ 0 ∷ 0 ∷ 0 ∷ replicate (length body) 0)
              sent_IsEncodable (omega arith),
        )
        (ap (λ b. ok (header_bytes (sent_header h body) ++ b, sent_header h body))
          (copy-replicate body 0))

  sliced :
      (spare : List ℕ)
      → slice_range
          (record { elems = header_bytes (sent_header h body) ++ body; spare = spare })
          5
          (u16 (5 + length body))
        ≡ ok body
  sliced spare =
      let e : u16 (5 + length body) - 5 ≡ length body = omega arith in
      rw (e, take-append body spare) (ground (arith, length-append body spare))

-- A request with a body of 4096 bytes at most comes back from its frame, in a buffer with any
-- spare capacity. The version comes back as 0 and the body length is the body's.
decode_send_req-encode_send_req :
    (req : SendReq) (spare : List ℕ)
    → IsAllowed req.header
    → length req.body ≤ 4096
    → (frame : List ℕ) × (encode_send_req req ≡ ok (frame, sent_header req.header req.body))
      × (decode_send_req (record { elems = frame; spare = spare })
          ≡ ok (record req { header = received_header req.header req.body }))
unfolding decode_send_req encode_send_req
decode_send_req-encode_send_req req spare v n = (
  header_bytes (sent_header req.header req.body) ++ req.body,
  framed _ _ v n,
  rw (
    decode_header-bytes (sent_header req.header req.body) req.body (sent_IsEncodable _ _ v n),
    sliced _ _ v n spare,
  ),
)

-- A response with a body of 4096 bytes at most comes back from its frame, in a buffer with any
-- spare capacity. The version comes back as 0 and the body length is the body's.
decode_send_resp-encode_send_resp :
    (resp : SendResp) (spare : List ℕ)
    → IsAllowed resp.header
    → length resp.body ≤ 4096
    → (frame : List ℕ) × (encode_send_resp resp ≡ ok (frame, sent_header resp.header resp.body))
      × (decode_send_resp (record { elems = frame; spare = spare })
          ≡ ok (record resp { header = received_header resp.header resp.body }))
unfolding decode_send_resp encode_send_resp
decode_send_resp-encode_send_resp resp spare v n = (
  header_bytes (sent_header resp.header resp.body) ++ resp.body,
  framed _ _ v n,
  rw (
    decode_header-bytes (sent_header resp.header resp.body) resp.body (sent_IsEncodable _ _ v n),
    sliced _ _ v n spare,
  ),
)

-- DecodeSendReq panics exactly when the header is good and promises more than the buffer's
-- capacity holds: it does not check the length it slices by.
decode_send_req-panic_iff :
    (buf : Slice) (h : Header)
    → decode_header buf.elems ≡ ok h
    → h.body_len ≤ 4096
    → (decode_send_req buf ≡ panic) ↔ (length buf.elems + length buf.spare < 5 + h.body_len)
unfolding decode_send_req
decode_send_req-panic_iff buf h e n = ground (arith, length-append buf.elems buf.spare)
