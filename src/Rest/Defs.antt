-- ===== src/Rest/Defs.antt =====
-- What the codecs of the REST-like layer share: the methods, the big-endian fields, and the frame
-- that each `…_Over…` function puts around a message.
use rtio.Prelude.{
  ℕ, ◌+◌, List, ◌++◌, length, take, drop, get_or, set, ltb, bit_and, shr, u8, u16, u32, shl8, shl16,
  shl32, Outcome, ok, fail_if, ◌>>=◌, ◌>>◌,
}
use rtio.Proto.Types.{Error, err_not_enought, header_len, protocol_version, code_success}
use rtio.Proto.Header.{Header, encode_header}

-- Method
abbrev pub method_unknown : ℕ
method_unknown = 0

abbrev pub constrained_get : ℕ
constrained_get = 1

abbrev pub constrained_post : ℕ
constrained_post = 2

abbrev pub observed_get : ℕ
observed_get = 3

abbrev pub observations_max : ℕ
observations_max = 256

-- `uint8(x>>k) & 0xFF`.
abbrev pub byte_at : ℕ → ℕ → ℕ
byte_at x k = bit_and (u8 (shr x k)) 0xFF

-- The first byte: a method above a status code.
abbrev pub method_byte : ℕ → ℕ → ℕ
method_byte method code = u8 (bit_and (shl8 method 4) 0xF0 + bit_and code 0x0F)

abbrev pub method_of : List ℕ → ℕ
method_of buf = bit_and (shr (get_or buf 0 0) 4) 0x0F

abbrev pub code_of : List ℕ → ℕ
code_of buf = bit_and (get_or buf 0 0) 0x0F

-- A uint16 and a uint32 read at an index.
abbrev pub u16_at : List ℕ → ℕ → ℕ
u16_at buf i = u16 (shl16 (get_or buf i 0) 8 + get_or buf (i + 1) 0)

abbrev pub u32_at : List ℕ → ℕ → ℕ
u32_at buf i = u32 (
    shl32 (get_or buf i 0) 24
    + shl32 (get_or buf (i + 1) 0) 16
    + shl32 (get_or buf (i + 2) 0) 8
    + get_or buf (i + 3) 0)

-- A uint16 and a uint32 written at an index.
abbrev pub put_u16 : List ℕ → ℕ → ℕ → List ℕ
put_u16 buf i x = set (set buf i (byte_at x 8)) (i + 1) (byte_at x 0)

abbrev pub put_u32 : List ℕ → ℕ → ℕ → List ℕ
put_u32 buf i x =
    set (set (set (set buf i (byte_at x 24)) (i + 1) (byte_at x 16)) (i + 2) (byte_at x 8)) (i + 3)
      (byte_at x 0)

-- The body of every `…_Over…` function: check the room, encode the message into `buf[5:]`, and
-- write the message header into `buf[:5]`.
unfoldable pub frame_over :
    ℕ → ℕ → ℕ → ℕ → (List ℕ → Outcome Error (List ℕ)) → List ℕ → Outcome Error (List ℕ)
frame_over need msg_type id body_len encode buf = do
  fail_if (ltb (length buf) need) err_not_enought
  body ← encode (drop header_len buf)
  let header : Header = record {
    version = protocol_version;
    msg_type = msg_type;
    id = id;
    body_len = body_len;
    code = code_success;
  }
  head ← encode_header header (take header_len buf)
  ok (head ++ body)

unfoldable pub decode_method : List ℕ → Outcome Error ℕ
decode_method buf = do fail_if (ltb (length buf) 1) err_not_enought; ok (method_of buf)
