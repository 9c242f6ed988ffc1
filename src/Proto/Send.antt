-- ===== src/Proto/Send.antt =====
-- SendReq and SendResp of pkg/deviceproto/codec.go, which carry a body of any bytes.
pub mod RoundTrip
use rtio.Prelude.{
  ℕ, ◌+◌, ◌-◌, List, [], ◌++◌, Option, none, some, length, take, drop, replicate, copy_at, ltb,
  if◌then◌else◌, u16, Outcome, ok, err, panic, ◌>>=◌,
}
use rtio.Proto.Types.{Error, err_header_nil, header_len}
use rtio.Proto.Header.{Header, decode_header, encode_header}

pub record SendReq : Type 0 where
  pub header : Header
  pub body : List ℕ

pub record SendResp : Type 0 where
  pub header : Header
  pub body : List ℕ

-- A Go slice: its elements, and those between its length and its capacity.
pub record Slice : Type 0 where
  pub elems : List ℕ
  pub spare : List ℕ

-- `s[lo:hi]` with lo ≤ hi: it reaches up to the capacity, and panics beyond.
abbrev pub slice_range : Slice → ℕ → ℕ → Outcome Error (List ℕ)
slice_range s lo hi =
    let whole = s.elems ++ s.spare in
    if ltb (length whole) hi then panic else ok (take (hi - lo) (drop lo whole))

unfoldable pub decode_send_req : Slice → Outcome Error SendReq
decode_send_req buf = do
  header ← decode_header buf.elems
  body ← slice_range buf header_len (u16 (header_len + header.body_len))
  ok (record { header = header; body = body })

unfoldable pub decode_send_req_body : Option Header → List ℕ → Outcome Error SendReq
decode_send_req_body none buf = err err_header_nil
decode_send_req_body (some header) buf = ok (record { header = header; body = buf })

-- The frame, and the request's header as the call leaves it.
unfoldable pub encode_send_req : SendReq → Outcome Error (List ℕ × Header)
encode_send_req req = do
  let body_len = length req.body
  let header = record (req.header) { body_len = u16 body_len }
  buf ← encode_header header (replicate (header_len + body_len) 0)
  ok (copy_at header_len buf req.body, header)

unfoldable pub decode_send_resp : Slice → Outcome Error SendResp
decode_send_resp buf = do
  header ← decode_header buf.elems
  body ← slice_range buf header_len (u16 (header_len + header.body_len))
  ok (record { header = header; body = body })

unfoldable pub decode_send_resp_body : Option Header → List ℕ → Outcome Error SendResp
decode_send_resp_body none buf = err err_header_nil
decode_send_resp_body (some header) buf = ok (record { header = header; body = buf })

unfoldable pub encode_send_resp : SendResp → Outcome Error (List ℕ × Header)
encode_send_resp resp = do
  let body_len = length resp.body
  let header = record (resp.header) { body_len = u16 body_len }
  buf ← encode_header header (replicate (header_len + body_len) 0)
  ok (copy_at header_len buf resp.body, header)
