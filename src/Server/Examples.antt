-- ===== src/Server/Examples.antt =====
-- The server on concrete sessions.
use rtio.Prelude.{ℕ, ◌≡◌, refl, true, false, some, List, [], ◌∷◌, ◌++◌, ok, arith}
use rtio.Proto.Header.{Header, decode_header}
use rtio.Proto.Header.Layout.{header_bytes}
use rtio.SyncMap.{nat_eq}
use rtio.Server.State.{err_header_id_not_exist, Session, new_session}
use rtio.Server.Observing.{timeout}
use rtio.Server.Requesting.{receive_co_resp}
use rtio.Server.Verifying.{Verifier}
use rtio.Server.Pinging.{device_ping_process}
use rtio.Server.Pinging.Outcomes.{ping_resp_header, AnswersPing, device_ping_process_lem}
use rtio.Server.Resources.{Service, failed}
use rtio.Server.Incoming.{Config, stopped, panicked, tcp_incomming}
use rtio.Server.Incoming.Keeping.{InRange}
use rtio.Server.Incoming.Heartbeat.{AreSound, tcp_incomming_heartbeat}
use rtio.Server.Incoming.Faults.{ping_frame_panics, forgotten_response_stops}

-- A backend that passes every device.
abbrev verifier : Verifier
verifier = record { has_client = true; random = some 77; verify = λ id device secret. some 1 }

abbrev service : Service
service = record { has_client = false; random = some 5; post = λ r. failed; get = λ r. failed }

abbrev config : Config
config = record {
  disable_deviceverify = false;
  disable_deviceservice = false;
  verifier = verifier;
  service = service;
}

abbrev header : ℕ → ℕ → ℕ → Header
header msg_type id body_len = record {
  version = 0;
  msg_type = msg_type;
  id = id;
  body_len = body_len;
  code = 0;
}

-- A ping of 300 seconds, with two bytes after it.
abbrev ping_stream : List ℕ
ping_stream = 48 ∷ 0 ∷ 9 ∷ 0 ∷ 2 ∷ 1 ∷ 44 ∷ 7 ∷ 8 ∷ []

tcp_incomming_heartbeat_example :
    InRange (tcp_incomming (config ∷ config ∷ []) [] (new_session ping_stream)).session
    × AreSound (tcp_incomming (config ∷ config ∷ []) [] (new_session ping_stream)).effects
tcp_incomming_heartbeat_example = tcp_incomming_heartbeat (config ∷ config ∷ []) ping_stream

abbrev after_header : Session
after_header = new_session (1 ∷ 44 ∷ 7 ∷ 8 ∷ [])

device_ping_process_lem_example :
    (frame : List ℕ) × (code interval : ℕ) × AnswersPing 300 after_header.heartbeat_seconds code
      interval
    × (decode_header frame ≡ ok (ping_resp_header 9 code))
    × (device_ping_process (header 3 9 2) after_header ≡ (
      ok tt,
      record after_header {
        conn_in = 7 ∷ 8 ∷ [];
        heartbeat_seconds = interval;
        outgoing_chan = after_header.outgoing_chan ++ (frame ∷ []);
      },
    ))
unfolding new_session
device_ping_process_lem_example =
    device_ping_process_lem (header 3 9 2) 1 44 (7 ∷ 8 ∷ []) after_header (omega arith) refl
      (omega arith) refl

-- A ping with a body of three bytes.
abbrev bad_ping : Session
bad_ping = new_session (header_bytes (header 3 9 3) ++ (1 ∷ 2 ∷ 3 ∷ []))

ping_frame_panics_example :
    ((tcp_incomming (config ∷ []) [] bad_ping).exit ≡ panicked)
    × ((tcp_incomming (config ∷ []) [] bad_ping).effects ≡ [])
unfolding new_session
ping_frame_panics_example =
    ping_frame_panics config [] [] (header 3 9 3) (1 ∷ 2 ∷ 3 ∷ []) bad_ping (omega arith) refl refl
      (omega arith) (omega arith) (omega arith)

-- The request with id 5 waits on channel 2.
abbrev waiting : List ℕ → Session
waiting conn = record (new_session conn) {
  send_id_store = record { stored = (5, record { store_time = 0; value = 2 }) ∷ []; expire = 120 };
  resp_chans = (2, []) ∷ [];
  next_chan = 3;
}

abbrev timed_out : Session
timed_out = waiting (header_bytes (header 8 5 1) ++ (48 ∷ []))

forgotten_response_stops_example :
    (tcp_incomming (config ∷ []) [] (receive_co_resp 5 timeout timed_out).1).exit
    ≡ stopped err_header_id_not_exist
unfolding new_session
forgotten_response_stops_example =
    forgotten_response_stops config [] [] (header 8 5 1) (48 ∷ []) timeout timed_out (omega arith)
      refl refl
