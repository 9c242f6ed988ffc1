-- ===== src/Proto/Header/RoundTrip.antt =====
-- DecodeHeader against EncodeHeader.
use rtio.Prelude.{
  ℕ, ◌+◌, ◌*◌, ◌/◌, ◌%◌, ◌^◌, ◌≤◌, ◌<◌, ◌≡◌, refl, List, [], ◌∷◌, ◌++◌, length, drop, ok, err,
  ◌>>=◌, eq_ok_unique, take, ap, sym, arith, ◌⊎◌, inl, inr, ◌∙◌, dec_lt, subst, and_0f, and_01,
  and_07, AllBytes,
}
use rtio.Proto.Types.{err_not_enought, err_exceed_length}
use rtio.Proto.Header.{Header, decode_header, encode_header}
use rtio.Proto.Header.Layout.{IsEncodable, header_bytes, encode_header_lem}

-- The header that five bytes stand for.
abbrev pub header_of : ℕ → ℕ → ℕ → ℕ → ℕ → Header
header_of a b c d e = record {
  version = a / 8 % 2;
  msg_type = a / 16;
  id = b * 256 + c;
  body_len = d * 256 + e;
  code = a % 8;
}

-- Decoding reads big-endian fields.
pub decode_header_lem :
    (a b c d e : ℕ) (rest : List ℕ)
    → AllBytes (a ∷ b ∷ c ∷ d ∷ e ∷ [])
    → d * 256 + e ≤ 4096
    → decode_header (a ∷ b ∷ c ∷ d ∷ e ∷ rest) ≡ ok (header_of a b c d e)
unfolding decode_header
decode_header_lem a b c d e rest h n = ground (
  arith,
  and_0f (a / 2 ^ 4) (omega arith),
  and_01 (a / 2 ^ 3) (omega arith),
  and_07 a (omega arith),
)

-- A body length above 4096 is refused.
pub decode_header_long :
    (a b c d e : ℕ) (rest : List ℕ)
    → AllBytes (a ∷ b ∷ c ∷ d ∷ e ∷ [])
    → 4096 < d * 256 + e
    → decode_header (a ∷ b ∷ c ∷ d ∷ e ∷ rest) ≡ err err_exceed_length
unfolding decode_header
decode_header_long a b c d e rest h n = ground arith

pub decode_header_short : (buf : List ℕ) → length buf < 5 → decode_header buf ≡ err err_not_enought
unfolding decode_header
decode_header_short buf h = ground arith

-- On a buffer of bytes DecodeHeader has three outcomes. A buffer of fewer than five bytes is
-- ErrNotEnought; a body length field above 4096 is ErrExceedLength; and otherwise it succeeds with
-- the big-endian fields of the first five bytes, whatever follows them.
pub decode_header_outcomes :
    (buf : List ℕ)
    → AllBytes buf
    → ((length buf < 5) × (decode_header buf ≡ err err_not_enought))
      ⊎ ((a b c d e : ℕ) × (rest : List ℕ) × (buf ≡ a ∷ b ∷ c ∷ d ∷ e ∷ rest)
          × (((4096 < d * 256 + e) × (decode_header buf ≡ err err_exceed_length))
              ⊎ ((d * 256 + e ≤ 4096) × (decode_header buf ≡ ok (header_of a b c d e)))))
decode_header_outcomes [] v = inl (omega arith, decode_header_short [] (omega arith))
decode_header_outcomes (a ∷ []) v = inl (omega arith, decode_header_short _ (omega arith))
decode_header_outcomes (a ∷ b ∷ []) v = inl (omega arith, decode_header_short _ (omega arith))
decode_header_outcomes (a ∷ b ∷ c ∷ []) v = inl (omega arith, decode_header_short _ (omega arith))
decode_header_outcomes (a ∷ b ∷ c ∷ d ∷ []) v =
    inl (omega arith, decode_header_short _ (omega arith))
decode_header_outcomes (a ∷ b ∷ c ∷ d ∷ e ∷ rest) v = inr (
  a,
  b,
  c,
  d,
  e,
  rest,
  refl,
  elim (dec_lt 4096 (d * 256 + e)) [
    | yes h ↦ inl (h, decode_header_long a b c d e rest (omega arith) h)
    | no h ↦ inr (omega arith, decode_header_lem a b c d e rest (omega arith) (omega arith))
  ],
)

header_of-IsEncodable :
    (a b c d e : ℕ) (rest : List ℕ)
    → AllBytes (a ∷ b ∷ c ∷ d ∷ e ∷ rest)
    → d * 256 + e ≤ 4096
    → IsEncodable (header_of a b c d e)
header_of-IsEncodable a b c d e rest h n = omega arith

-- A header that was decoded from bytes has every field in range, and a body of 4096 at most.
decode_header-IsEncodable :
    (buf : List ℕ) (h : Header) → AllBytes buf → decode_header buf ≡ ok h → IsEncodable h
decode_header-IsEncodable buf h v e = elim (decode_header_outcomes buf v) [
  | inl p ↦ ground arith
  | inr (a, b, c, d, e', rest, q, inl p) ↦ ground arith
  | inr (a, b, c, d, e', rest, q, inr p) ↦
      subst IsEncodable (eq_ok_unique p.1 e)
        (header_of-IsEncodable a b c d e' rest (subst AllBytes q v) p.0)
]

-- Decoding what was encoded gives back the header, except that the version comes back as 0: of a
-- version below 16 EncodeHeader writes no bit.
pub decode_header-encode_header :
    (h : Header) (buf : List ℕ)
    → IsEncodable h
    → 5 ≤ length buf
    → (encode_header h buf >>= decode_header) ≡ ok (record h { version = 0 })
decode_header-encode_header h buf v n =
    rw (encode_header_lem h buf v n)
      (decode_header_lem _ _ _ _ _ (drop 5 buf) (omega arith) (omega arith) ∙ ground arith)

-- Encoding what was decoded writes the same five bytes again, where the version bit is 0.
encode_header-decode_header :
    (buf out : List ℕ) (h : Header)
    → AllBytes buf
    → decode_header buf ≡ ok h
    → h.version ≡ 0
    → 5 ≤ length out
    → encode_header h out ≡ ok (take 5 buf ++ drop 5 out)
encode_header-decode_header buf out h v e z n = elim (decode_header_outcomes buf v) [
  | inl p ↦ ground arith
  | inr (a, b, c, d, e', rest, q, inl p) ↦ ground arith
  | inr (a, b, c, d, e', rest, q, inr p) ↦
      let hd : header_of a b c d e' ≡ h = eq_ok_unique p.1 e in
      let bytes : AllBytes (a ∷ b ∷ c ∷ d ∷ e' ∷ rest) = subst AllBytes q v in
      let clear : a / 8 % 2 ≡ 0 = ap (λ (g : Header). g.version) hd ∙ z in
      rw (← hd, q)
        (encode_header_lem (header_of a b c d e') out
            (subst IsEncodable (sym hd) (decode_header-IsEncodable buf h v e)) n
          ∙ ground arith)
]

-- The fields of a header in range come back from its five bytes, with version 0.
pub decode_header-bytes :
    (h : Header) (rest : List ℕ)
    → IsEncodable h
    → decode_header (header_bytes h ++ rest) ≡ ok (record h { version = 0 })
decode_header-bytes h rest v =
    decode_header_lem _ _ _ _ _ rest (omega arith) (omega arith) ∙ ground arith
