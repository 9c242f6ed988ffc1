-- ===== src/Rest/Framing.antt =====
-- The frame around a message, as its receiver takes it apart.
use rtio.Prelude.{
  ℕ, ◌+◌, ◌*◌, ◌/◌, ◌%◌, ◌^◌, ◌<◌, ◌≡◌, ◌∙◌, List, [], ◌∷◌, ◌++◌, length, take, drop, bit_and, shl8,
  Outcome, ok, ◌>>=◌, arith, and_f0, and_0f, and_255, length-take, drop_all, le→ltb_false,
  take-append, drop-append,
}
use rtio.Proto.Types.{Error}
use rtio.Proto.Header.{Header, decode_header}
use rtio.Proto.Header.Layout.{IsEncodable, IsSized, header_bytes, encode_header_fields}
use rtio.Proto.Header.RoundTrip.{decode_header-bytes}
use rtio.Rest.Defs.{byte_at, method_byte, frame_over}

abbrev pub frame_header : ℕ → ℕ → ℕ → Header
frame_header msg_type id body_len = record {
  version = 0;
  msg_type = msg_type;
  id = id;
  body_len = body_len;
  code = 1;
}

pub byte_at_lem : (x k : ℕ) → byte_at x k ≡ x / 2 ^ k % 256
byte_at_lem x k = omega (arith, and_255 (x / 2 ^ k % 256))

pub method_byte_lem : (m c : ℕ) → m < 16 → c < 16 → method_byte m c ≡ m * 16 + c
method_byte_lem m c hm hc = omega (arith, and_f0 (shl8 m 4) (omega arith), and_0f c (omega arith))

pub method_bits : (m : ℕ) → m < 16 → bit_and (shl8 m 4) 0xF0 ≡ m * 16
method_bits m h = omega (arith, and_f0 (shl8 m 4) (omega arith))

pub high_nibble : (m c : ℕ) → m < 16 → c < 16 → bit_and ((m * 16 + c) / 2 ^ 4) 0x0F ≡ m
high_nibble m c hm hc = omega (arith, and_0f ((m * 16 + c) / 2 ^ 4) (omega arith))

pub low_nibble : (m c : ℕ) → m < 16 → c < 16 → bit_and (m * 16 + c) 0x0F ≡ c
low_nibble m c hm hc = omega (arith, and_0f (m * 16 + c) (omega arith))

-- The two bytes of a uint16, the higher first.
abbrev pub bytes16 : ℕ → List ℕ → List ℕ
bytes16 x rest = (x / 2 ^ 8 % 256) ∷ (x / 2 ^ 0 % 256) ∷ rest

pub word16 : (x : ℕ) → x < 65536 → (x / 2 ^ 8 % 256) * 2 ^ 8 + x / 2 ^ 0 % 256 ≡ x
word16 x h = omega arith

-- The four bytes of a uint32, the highest first.
abbrev pub bytes32 : ℕ → List ℕ → List ℕ
bytes32 x rest =
    (x / 2 ^ 24 % 256) ∷ (x / 2 ^ 16 % 256) ∷ (x / 2 ^ 8 % 256) ∷ (x / 2 ^ 0 % 256) ∷ rest

pub word32 :
    (x : ℕ)
    → x < 2 ^ 32
    → (x / 2 ^ 24 % 256) * 2 ^ 24
        + (x / 2 ^ 16 % 256) * 2 ^ 16
        + (x / 2 ^ 8 % 256) * 2 ^ 8
        + x / 2 ^ 0 % 256
      ≡ x
word32 x h = omega arith

-- How either side reads a message off the connection: the five header bytes, and then as many
-- bytes as the header says. What is left stays for the next message.
abbrev pub receive {ℓ} :
    {A : Type ℓ} → (ℕ → List ℕ → Outcome Error A) → List ℕ → Outcome Error (Header × A × List ℕ)
receive decode stream = do
  header ← decode_header (take 5 stream)
  message ← decode header.id (take header.body_len (drop 5 stream))
  ok (header, message, drop header.body_len (drop 5 stream))

-- Where the encoder fills the rest of the buffer with `body`, the frame is the header and `body`.
pub framed :
    (msg_type id body_len : ℕ)
    → IsSized (frame_header msg_type id body_len)
    → (buf body : List ℕ) → length buf ≡ 5 + body_len
    → length body ≡ body_len
    → (encode : List ℕ → Outcome Error (List ℕ)) → encode (drop 5 buf) ≡ ok body
    → frame_over (5 + body_len) msg_type id body_len encode buf
      ≡ ok (header_bytes (frame_header msg_type id body_len) ++ body)
unfolding frame_over
framed msg_type id body_len v buf body room full encode e = rw (
  le→ltb_false (length buf) (5 + body_len) (omega arith),
  e,
  encode_header_fields (frame_header msg_type id body_len) (take 5 buf) v
      (omega (arith, length-take 5 buf (omega arith))),
  drop_all 5 (take 5 buf) (omega (arith, length-take 5 buf (omega arith))),
)

module _ (msg_type id body_len : ℕ) (v : IsEncodable (frame_header msg_type id body_len))
    (buf body : List ℕ) (room : length buf ≡ 5 + body_len) (full : length body ≡ body_len) where
  abbrev pub frame_bytes : List ℕ
  frame_bytes = header_bytes (frame_header msg_type id body_len) ++ body

  pub frame_over_lem :
      (encode : List ℕ → Outcome Error (List ℕ))
      → encode (drop 5 buf) ≡ ok body
      → frame_over (5 + body_len) msg_type id body_len encode buf ≡ ok frame_bytes
  frame_over_lem encode e =
      framed msg_type id body_len (omega (arith, v)) buf body room full encode e

  -- And its receiver, at the head of any stream, decodes `body` and leaves the rest.
  pub receive_lem {ℓ} :
      {A : Type ℓ} (decode : ℕ → List ℕ → Outcome Error A) (m : A) (rest : List ℕ)
      → decode id body ≡ ok m
      → receive decode (frame_bytes ++ rest) ≡ ok (frame_header msg_type id body_len, m, rest)
  receive_lem decode m rest e = rw (
    decode_header-bytes (frame_header msg_type id body_len) [] v,
    ← full,
    take-append body rest,
    drop-append body rest,
    e,
  )

-- Encoding into `buf` succeeds, and a receiver that finds the frame at the head of a stream decodes
-- `m` under the header of type `msg_type`, and leaves the rest of the stream.
abbrev pub Delivers {ℓ} :
    {A : Type ℓ}
    → (List ℕ → Outcome Error (List ℕ))
    → (ℕ → List ℕ → Outcome Error A)
    → Header
    → A
    → List ℕ
    → List ℕ
    → Type ℓ
Delivers encode decode h m buf rest =
    (frame : List ℕ) × (encode buf ≡ ok frame) × (receive decode (frame ++ rest) ≡ ok (h, m, rest))

pub frame_over-Delivers {ℓ} :
    {A : Type ℓ} (msg_type id body_len need len : ℕ)
    → IsEncodable (frame_header msg_type id body_len)
    → need ≡ 5 + body_len
    → len ≡ body_len
    → (encode : List ℕ → Outcome Error (List ℕ)) (decode : ℕ → List ℕ → Outcome Error A) (m : A)
      (buf body rest : List ℕ)
    → length buf ≡ need
    → length body ≡ body_len
    → encode (drop 5 buf) ≡ ok body
    → decode id body ≡ ok m
    → Delivers
        (frame_over need msg_type id len encode)
        decode
        (frame_header msg_type id body_len)
        m
        buf
        rest
frame_over-Delivers t id bl need len v en el encode decode m buf body rest room full e d = (
  frame_bytes t id bl v buf body (room ∙ en) full,
  rw (en, el) (frame_over_lem t id bl v buf body (room ∙ en) full encode e),
  receive_lem t id bl v buf body (room ∙ en) full decode m rest d,
)
