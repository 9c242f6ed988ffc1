-- ===== src/Server/Pinging/Outcomes.antt =====
-- What a ping does to the session, and how the device reads the answer.
use rtio.Prelude.{
  ℕ, ◌+◌, ◌*◌, ◌≤◌, ◌<◌, ◌≡◌, ◌≢◌, ◌⊎◌, some, List, [], ◌∷◌, ◌++◌, length, ◌==◌, if◌then◌else◌, ok,
  panic, arith, ne→==_false, AllBytes, sym,
}
use rtio.Proto.Types.{code_success, code_para_invalid, device_ping_resp}
use rtio.Proto.Header.{Header, decode_header}
use rtio.Proto.Header.Layout.{header_bytes, encode_header_lem}
use rtio.Proto.Header.RoundTrip.{decode_header-bytes}
use rtio.Proto.Ping.{decode_ping_req_body, encode_ping_resp}
use rtio.Server.State.{Session}
use rtio.Server.State.Reading.{read_full_lem, read_full_enough}
use rtio.Server.Pinging.{device_ping_process, process_ping, ping_out_of_range}

-- A ping whose body is there and is neither empty nor two bytes long panics.
pub device_ping_process_panics :
    (header : Header) (s : Session)
    → header.body_len ≢ 0
    → header.body_len ≢ 2
    → header.body_len ≤ length s.conn_in
    → (device_ping_process header s).0 ≡ panic
unfolding device_ping_process decode_ping_req_body
device_ping_process_panics header s h0 h2 n = rw (
  read_full_enough header.body_len s n,
  ne→==_false header.body_len 0 h0,
  ne→==_false header.body_len 2 h2,
)

abbrev pub ping_resp_header : ℕ → ℕ → Header
ping_resp_header id code = record {
  version = 0;
  msg_type = device_ping_resp;
  id = id;
  body_len = 0;
  code = code;
}

encode_ping_resp_lem :
    (id code : ℕ)
    → id < 65536
    → code < 8
    → encode_ping_resp (record { header = ping_resp_header id code })
      ≡ ok (header_bytes (ping_resp_header id code))
unfolding encode_ping_resp
encode_ping_resp_lem id code h k =
    encode_header_lem (ping_resp_header id code) (0 ∷ 0 ∷ 0 ∷ 0 ∷ 0 ∷ []) (omega arith)
      (omega arith)

-- What the server answers to a timeout, and the interval it keeps.
abbrev pub ping_code : ℕ → ℕ
ping_code t =
    if t == 0 then code_success else if ping_out_of_range t then code_para_invalid else code_success

abbrev pub ping_interval : ℕ → ℕ → ℕ
ping_interval t old = if t == 0 then old else if ping_out_of_range t then old else t

process_ping_lem :
    (h : Header) (t : ℕ) (s : Session)
    → h.id < 65536
    → process_ping (ok (record { header = h; timeout = t })) s ≡ (
      ok tt,
      record s {
        heartbeat_seconds = ping_interval t s.heartbeat_seconds;
        outgoing_chan =
            s.outgoing_chan ++ (header_bytes (ping_resp_header h.id (ping_code t)) ∷ []);
      },
    )
process_ping_lem h t s n = ground (
  arith,
  encode_ping_resp_lem h.id code_success n (omega arith),
  encode_ping_resp_lem h.id code_para_invalid n (omega arith),
)

decode_timeout :
    (h : Header) (hi lo : ℕ)
    → h.body_len ≡ 2
    → AllBytes (hi ∷ lo ∷ [])
    → decode_ping_req_body (some h) (hi ∷ lo ∷ [])
      ≡ ok (record { header = h; timeout = hi * 256 + lo })
unfolding decode_ping_req_body
decode_timeout h hi lo two b = ground arith

pub ping_answered_lem :
    (h : Header) (hi lo : ℕ) (rest : List ℕ) (s : Session)
    → h.id < 65536
    → h.body_len ≡ 2
    → AllBytes (hi ∷ lo ∷ [])
    → s.conn_in ≡ hi ∷ lo ∷ rest
    → let t : ℕ = hi * 256 + lo in
      (frame : List ℕ) × (decode_header frame ≡ ok (ping_resp_header h.id (ping_code t)))
      × (device_ping_process h s ≡ (
        ok tt,
        record s {
          conn_in = rest;
          heartbeat_seconds = ping_interval t s.heartbeat_seconds;
          outgoing_chan = s.outgoing_chan ++ (frame ∷ []);
        },
      ))
unfolding device_ping_process
ping_answered_lem h hi lo rest s n two b e = (
  header_bytes (ping_resp_header h.id (ping_code (hi * 256 + lo))),
  decode_header-bytes (ping_resp_header h.id (ping_code (hi * 256 + lo))) [] (ground arith),
  rw (
    read_full_lem h.body_len s (hi ∷ lo ∷ []) rest e (sym two),
    decode_timeout h hi lo two b,
    process_ping_lem h (hi * 256 + lo) (record s { conn_in = rest }) n,
  ),
)

-- The answer to a timeout and the interval after it: 0 is Success and leaves the interval, a timeout
-- outside 30 to 43200 is ParaInvalid and leaves it, and any other is Success and becomes it.
abbrev pub AnswersPing : ℕ → ℕ → ℕ → ℕ → Type 0
AnswersPing t old code interval =
    ((t ≡ 0) × (code ≡ 1) × (interval ≡ old))
    ⊎ (((1 ≤ t) × ((t < 30) ⊎ (43200 < t)) × (code ≡ 4) × (interval ≡ old))
        ⊎ ((30 ≤ t) × (t ≤ 43200) × (code ≡ 1) × (interval ≡ t)))

ping_code-AnswersPing : (t old : ℕ) → AnswersPing t old (ping_code t) (ping_interval t old)
ping_code-AnswersPing t old = ground arith

-- For a header of a ping and a body of the length that it names, two bytes: the server answers with
-- one frame, which the device decodes as a ping response with the same id. For a timeout of 0 its
-- code is Success, and the heartbeat interval stays; for one from 1 to 29 or above 43200 it is
-- ParaInvalid, and the interval stays; for one from 30 to 43200 it is Success, and the timeout
-- becomes the interval. Nothing else changes.
pub device_ping_process_lem :
    (h : Header) (hi lo : ℕ) (rest : List ℕ) (s : Session)
    → h.id < 65536
    → h.body_len ≡ 2
    → AllBytes (hi ∷ lo ∷ [])
    → s.conn_in ≡ hi ∷ lo ∷ rest
    → (frame : List ℕ) × (code interval : ℕ) × AnswersPing
        (hi * 256 + lo)
        s.heartbeat_seconds
        code
        interval
      × (decode_header frame ≡ ok (ping_resp_header h.id code))
      × (device_ping_process h s ≡ (
        ok tt,
        record s {
          conn_in = rest;
          heartbeat_seconds = interval;
          outgoing_chan = s.outgoing_chan ++ (frame ∷ []);
        },
      ))
device_ping_process_lem h hi lo rest s n two b e =
    let (frame, read, after) = ping_answered_lem h hi lo rest s n two b e in
    (
      frame,
      ping_code (hi * 256 + lo),
      ping_interval (hi * 256 + lo) s.heartbeat_seconds,
      ping_code-AnswersPing (hi * 256 + lo) s.heartbeat_seconds,
      read,
      after,
    )
