-- ===== src/Proto/Ping.antt =====
-- PingReq and PingResp of pkg/deviceproto/codec.go.
pub mod RoundTrip
use rtio.Prelude.{
  ℕ, ◌+◌, List, [], Option, none, some, length, get_or, set, replicate, ltb, ◌==◌, if◌then◌else◌,
  bit_and, u8, u16, shr, shl16, Outcome, ok, err, panic, ◌>>=◌,
}
use rtio.Proto.Types.{Error, err_header_nil, err_length_error, header_len}
use rtio.Proto.Header.{Header, encode_header}

pub record PingReq : Type 0 where
  pub header : Header
  pub timeout : ℕ  -- uint16

pub record PingResp : Type 0 where
  pub header : Header

-- The index expressions panic on a buffer shorter than the header says.
unfoldable pub decode_ping_req_body : Option Header → List ℕ → Outcome Error PingReq
decode_ping_req_body none buf = err err_header_nil
decode_ping_req_body (some header) buf =
    if header.body_len == 0
    then ok (record { header = header; timeout = 0 })
    else if header.body_len == 2
    then (if ltb (length buf) 2
        then panic
        else ok
            (record { header = header; timeout = u16 (shl16 (get_or buf 0 0) 8 + get_or buf 1 0) }))
    else err err_length_error

abbrev pub ping_body_len : ℕ → ℕ
ping_body_len timeout = if timeout == 0 then 0 else 2

-- The two bytes of the timeout, written behind the header where there is a body.
abbrev pub put_timeout : ℕ → List ℕ → List ℕ
put_timeout timeout buf =
    if ping_body_len timeout == 2
    then set (set buf header_len (u8 (shr timeout 8))) (header_len + 1) (u8 (bit_and timeout 0xFF))
    else buf

-- The frame, and the request's header as the call leaves it.
unfoldable pub encode_ping_req : PingReq → Outcome Error (List ℕ × Header)
encode_ping_req req = do
  let body_len = ping_body_len req.timeout
  let buf = replicate (header_len + body_len) 0
  let header = record (req.header) { body_len = u16 body_len }
  frame ← encode_header header (put_timeout req.timeout buf)
  ok (frame, header)

unfoldable pub encode_ping_resp : PingResp → Outcome Error (List ℕ)
encode_ping_resp resp = encode_header resp.header (replicate header_len 0)
