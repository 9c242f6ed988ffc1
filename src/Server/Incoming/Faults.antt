-- ===== src/Server/Incoming/Faults.antt =====
-- What ends the loop of tcpIncomming: faults that a frame of the device causes.
use rtio.Prelude.{
  ℕ, ◌≤◌, ◌≡◌, refl, ◌≢◌, ap, none, List, [], ◌∷◌, ◌++◌, length, Outcome, ok, err, panic, arith,
}
use rtio.Proto.Types.{device_ping_req, server_send_resp}
use rtio.Proto.Header.{Header}
use rtio.Proto.Header.Layout.{IsEncodable, header_bytes}
use rtio.Proto.Header.RoundTrip.{decode_header-bytes}
use rtio.TimeKv
use rtio.Server.State.{Session, Fault, err_header_id_not_exist, M, after}
use rtio.Server.State.Reading.{read_full_lem}
use rtio.Server.Pinging.Outcomes.{device_ping_process_panics}
use rtio.Server.Requesting.{server_send_respone}
use rtio.Server.Requesting.{receive_co_resp}
use rtio.Server.Requesting.Routing.{receive_co_resp_session, get-del}
use rtio.Server.Observing.{Arrival}
use rtio.Server.Incoming.{
  Config, Effect, Trace, stopped, panicked, continue_with, incomming_step, dispatch, tcp_incomming,
}

-- The header as the peer reads it: the encoder loses the version.
abbrev received : Header → Header
received h = record h { version = 0 }

-- When a whole frame header stands in the connection, a round of the loop reads it and hands the
-- message to the branch of its type, with the rest of the bytes left to read.
pub incomming_step_lem :
    (c : Config) (h : Header) (rest : List ℕ) (s : Session)
    → IsEncodable h
    → s.conn_in ≡ header_bytes h ++ rest
    → incomming_step c s ≡ dispatch c (record h { version = 0 }) (record s { conn_in = rest })
unfolding incomming_step
incomming_step_lem c h rest s v e =
    rw (read_full_lem 5 s (header_bytes h) rest e refl, decode_header-bytes h [] v)

panic_ends :
    (loop : List Effect → Session → Trace) (es : List Effect)
    (r : Outcome Fault (Unit {0}) × Session) (f : Unit {0} → M (List Effect))
    → r.0 ≡ panic
    → ((continue_with loop es (after r f)).exit ≡ panicked)
      × ((continue_with loop es (after r f)).effects ≡ es)
panic_ends loop es (ok a, t) f e = ground arith
panic_ends loop es (err x, t) f e = ground arith
panic_ends loop es (panic, t) f e = (refl, refl)

-- A ping frame whose header announces a body of neither 0 nor 2 bytes, and whose body is there,
-- ends the loop by a panic, whether or not the device was verified, and leaves the effects as they
-- were.
pub ping_frame_panics :
    (c : Config) (cs : List Config) (es : List Effect) (h : Header) (rest : List ℕ) (s : Session)
    → IsEncodable h
    → s.conn_in ≡ header_bytes h ++ rest
    → h.msg_type ≡ device_ping_req
    → h.body_len ≢ 0
    → h.body_len ≢ 2
    → h.body_len ≤ length rest
    → ((tcp_incomming (c ∷ cs) es s).exit ≡ panicked) × ((tcp_incomming (c ∷ cs) es s).effects ≡ es)
unfolding tcp_incomming
ping_frame_panics c cs es h rest s v e ping n0 n2 n =
    rw (incomming_step_lem c h rest s v e, ping)
      (panic_ends (tcp_incomming cs) es _ _ (
        device_ping_process_panics (record h { version = 0; msg_type = device_ping_req })
          (record s { conn_in = rest }) n0 n2 n))

-- A response whose id is not in flight, since it came after its timeout or was never asked for,
-- ends the loop with ErrHeaderIDNotExist: the connection is closed for one late frame. The session
-- is left as it was, with the body unread.
late_response_stops :
    (c : Config) (cs : List Config) (es : List Effect) (h : Header) (rest : List ℕ) (s : Session)
    → IsEncodable h
    → s.conn_in ≡ header_bytes h ++ rest
    → h.msg_type ≡ server_send_resp
    → TimeKv.get h.id s.send_id_store ≡ none
    → tcp_incomming (c ∷ cs) es s ≡ record {
      exit = stopped err_header_id_not_exist;
      effects = es;
      session = record s { conn_in = rest };
    }
unfolding tcp_incomming server_send_respone
late_response_stops c cs es h rest s v e resp absent =
    rw (incomming_step_lem c h rest s v e, resp, absent) refl

-- Once Send has stopped waiting for the response to a request, by a timeout or by a response, a frame
-- from the device with the id of that request ends the loop with ErrHeaderIDNotExist.
pub forgotten_response_stops :
    (c : Config) (cs : List Config) (es : List Effect) (h : Header) (rest : List ℕ) (a : Arrival)
    (s : Session)
    → IsEncodable h
    → s.conn_in ≡ header_bytes h ++ rest
    → h.msg_type ≡ server_send_resp
    → (tcp_incomming (c ∷ cs) es (receive_co_resp h.id a s).1).exit
      ≡ stopped err_header_id_not_exist
forgotten_response_stops c cs es h rest a s v e resp = rw (receive_co_resp_session h.id a s) (
    ap (λ t. t.exit)
      (late_response_stops c cs es h rest
        (record s { send_id_store = TimeKv.del h.id s.send_id_store }) v e resp
        (get-del h.id s.send_id_store)))
