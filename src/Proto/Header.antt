-- ===== src/Proto/Header.antt =====
-- The five-byte message header: DecodeHeader and EncodeHeader of pkg/deviceproto/codec.go.
pub mod Layout
pub mod RoundTrip
use rtio.Prelude.{
  ℕ, ◌+◌, List, [], ◌∷◌, length, get_or, set, ltb, bit_and, u8, u16, shr, shl8, shl16, Outcome, ok,
  fail_if, ◌>>◌,
}
use rtio.Proto.Types.{Error, err_not_enought, err_exceed_length, header_len, cap_level_to_size}

pub record Header : Type 0 where
  pub version : ℕ  -- uint8
  pub msg_type : ℕ  -- uint8
  pub id : ℕ  -- uint16
  pub body_len : ℕ  -- uint16
  pub code : ℕ  -- uint8

unfoldable pub decode_header : List ℕ → Outcome Error Header
decode_header buf = do
  fail_if (ltb (length buf) header_len) err_not_enought
  let b0 = get_or buf 0 0
  let body_len = u16 (shl16 (get_or buf 3 0) 8 + get_or buf 4 0)
  fail_if (ltb (get_or cap_level_to_size 3 0) body_len) err_exceed_length
  ok (record {
    version = bit_and (shr b0 3) 0x01;
    msg_type = bit_and (shr b0 4) 0x0F;
    id = u16 (shl16 (get_or buf 1 0) 8 + get_or buf 2 0);
    body_len = body_len;
    code = bit_and b0 0x07;
  })

-- The first byte: type, version and code.
abbrev pub first_byte : Header → ℕ
first_byte h =
    u8 (bit_and (shl8 h.msg_type 4) 0xF0 + bit_and (shl8 h.version 3) 0x80 + bit_and h.code 0x07)

-- The result is the buffer as the call leaves it.
unfoldable pub encode_header : Header → List ℕ → Outcome Error (List ℕ)
encode_header h buf = do
  fail_if (ltb (length buf) header_len) err_not_enought
  let buf0 = set buf 0 (first_byte h)
  let buf1 = set buf0 1 (bit_and (u8 (shr h.id 8)) 0xFF)
  let buf2 = set buf1 2 (bit_and (u8 h.id) 0xFF)
  let buf3 = set buf2 3 (bit_and (u8 (shr h.body_len 8)) 0xFF)
  ok (set buf3 4 (bit_and (u8 h.body_len) 0xFF))
