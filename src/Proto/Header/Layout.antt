-- ===== src/Proto/Header/Layout.antt =====
-- What EncodeHeader writes, as bytes: type and code share the first one.
use rtio.Prelude.{
  ℕ, ◌+◌, ◌*◌, ◌/◌, ◌%◌, ◌^◌, ◌≤◌, ◌<◌, ◌≡◌, ap, List, [], ◌∷◌, ◌++◌, length, drop, bit_and, u8,
  shl8, ok, arith, and_f0, and_80, and_07, and_ff, le→ltb_false,
}
use rtio.Proto.Header.{Header, first_byte, encode_header}

-- The fields that the header has room for. The version is wider than its bit on purpose.
pub record IsEncodable (h : Header) : Type 0 where
  pub version_lt : h.version < 16
  pub type_lt : h.msg_type < 16
  pub id_lt : h.id < 65536
  pub body_len_le : h.body_len ≤ 4096
  pub code_lt : h.code < 8

-- The fields that the bytes of the header hold: a body length that DecodeHeader refuses is one of them.
pub record IsSized (h : Header) : Type 0 where
  pub version_lt : h.version < 16
  pub type_lt : h.msg_type < 16
  pub id_lt : h.id < 65536
  pub body_len_lt : h.body_len < 65536
  pub code_lt : h.code < 8

abbrev pub header_bytes : Header → List ℕ
header_bytes h =
    (h.msg_type * 16 + h.code)
    ∷ (h.id / 256)
    ∷ (h.id % 256)
    ∷ (h.body_len / 256)
    ∷ (h.body_len % 256)
    ∷ []

first_byte_lem : (h : Header) → IsSized h → first_byte h ≡ h.msg_type * 16 + h.code
first_byte_lem h v = omega (
  arith,
  and_f0 (shl8 h.msg_type 4) (omega arith),
  and_80 (shl8 h.version 3) (omega arith),
  and_07 h.code (omega arith),
)

low_byte : (x : ℕ) → bit_and (u8 x) 0xFF ≡ x % 256
low_byte x = and_ff (u8 x) (omega arith)

high_byte : (x : ℕ) → x < 65536 → bit_and (u8 (x / 2 ^ 8)) 0xFF ≡ x / 256
high_byte x h = omega (arith, and_ff (u8 (x / 2 ^ 8)) (omega arith))

ap₅ :
    {a b c d e a' b' c' d' e' : ℕ}
    → a ≡ a'
    → b ≡ b'
    → c ≡ c'
    → d ≡ d'
    → e ≡ e'
    → (rest : List ℕ) → a ∷ b ∷ c ∷ d ∷ e ∷ rest ≡ a' ∷ b' ∷ c' ∷ d' ∷ e' ∷ rest
ap₅ p q r s t rest = cc

-- A header whose fields fit is written over the first five bytes, and the rest of the buffer stays.
pub encode_header_fields :
    (h : Header) (buf : List ℕ)
    → IsSized h
    → 5 ≤ length buf
    → encode_header h buf ≡ ok (header_bytes h ++ drop 5 buf)
unfolding encode_header
encode_header_fields h [] v n = absurd (omega arith)
encode_header_fields h (a ∷ []) v n = absurd (omega arith)
encode_header_fields h (a ∷ b ∷ []) v n = absurd (omega arith)
encode_header_fields h (a ∷ b ∷ c ∷ []) v n = absurd (omega arith)
encode_header_fields h (a ∷ b ∷ c ∷ d ∷ []) v n = absurd (omega arith)
encode_header_fields h (a ∷ b ∷ c ∷ d ∷ e ∷ rest) v n =
    rw (le→ltb_false (length (a ∷ b ∷ c ∷ d ∷ e ∷ rest)) 5 n) (
      ap ok (
        ap₅ (first_byte_lem h v) (high_byte h.id v.id_lt) (low_byte h.id)
          (high_byte h.body_len v.body_len_lt) (low_byte h.body_len) rest))

pub encode_header_lem :
    (h : Header) (buf : List ℕ)
    → IsEncodable h
    → 5 ≤ length buf
    → encode_header h buf ≡ ok (header_bytes h ++ drop 5 buf)
encode_header_lem h buf v n = encode_header_fields h buf (omega (arith, v)) n
