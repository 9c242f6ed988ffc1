-- ===== src/Link/Traffic/Examples.antt =====
-- One caller on a session with a device that has a handler.
use rtio.Prelude.{ℕ, ◌≡◌, refl, ◌⊎◌, true, false, none, some, List, [], ◌∷◌, ok, arith}
use rtio.Rest.Status
use rtio.Rest.Defs.{constrained_get}
use rtio.Rest.Co.{CoReq}
use rtio.SyncMap.{load, store, nat_eq}
use rtio.Server.State.{Session, new_session, gen_header_id}
use rtio.Server.Observing.{body}
use rtio.Server.Requesting.{receive_co_resp, send_co_req}
use rtio.Server.Resources.{failed}
use rtio.Server.Incoming.{Config, Effect}
use rtio.Server.Incoming
use rtio.Device.State.{DeviceSession, Handler, new_device_session}
use rtio.Device.Incoming.{incomming_step}
use rtio.Link.Traffic.{
  System, CanSend, sends, moves, server_writes, device_reads, device_writes, server_reads, reply_of,
}
use rtio.Link.Traffic.Invariant.{reply_bytes}
use rtio.Link.Traffic.Moving.{written, replied_to, device_read, server_read}
use rtio.Link.Traffic.Calling.{asked}
use rtio.TimeKv
use rtio.Link.Traffic.Reaching.{Reach, start, later}
use rtio.Link.Traffic.Freshness.{first_ids_free}
use rtio.Server.Requesting.Sending.{next_header_id}
use rtio.Link.Traffic.Answers.{own_answer, loops_go_on}
use rtio.Link.Traffic.Draining.{Moves, each_answered}

abbrev config : Config
config = record {
  disable_deviceverify = false;
  disable_deviceservice = false;
  verifier = record { has_client = true; random = some 77; verify = λ id device secret. some 1 };
  service = record { has_client = false; random = some 5; post = λ r. failed; get = λ r. failed };
}

-- A handler that answers with the request and one byte more.
abbrev handler : Handler
handler payload = some (b'!' ∷ payload)

abbrev system : System
system = record {
  server = new_session [];
  device = record (new_device_session [] [] []) { reg_get_handler_map = (77, handler) ∷ [] };
  calls = [];
}

abbrev one_asked : System
one_asked = asked system 4 77 constrained_get (1 ∷ 2 ∷ [])

can_send : CanSend system 77 constrained_get (1 ∷ 2 ∷ []) (b'!' ∷ 1 ∷ 2 ∷ [])
unfolding new_session new_device_session load TimeKv.get TimeKv.new_time_kv
can_send = record {
  uri_lt = omega arith;
  payload_le = omega arith;
  reply = refl;
  out_le = omega arith;
  is_free = refl;
}

one_asked_reached : Reach config one_asked
unfolding new_session new_device_session
one_asked_reached =
    later
      (start (record {
        no_asked = refl;
        no_there = refl;
        no_replied = refl;
        no_back = refl;
        no_calls = refl;
      }))
      (sends system 4 77 constrained_get (1 ∷ 2 ∷ []) (b'!' ∷ 1 ∷ 2 ∷ []) can_send)

each_answered_example :
    (u : System) × Moves config one_asked u
    × ((chan : ℕ) (req : CoReq)
        → load chan one_asked.calls ≡ some req
        → (out : List ℕ) × (reply_of one_asked.device req ≡ some out)
          × (load chan u.server.resp_chans ≡ some (reply_bytes req out ∷ [])))
each_answered_example = each_answered config one_asked one_asked_reached

-- The request as a frame, and its answer.
abbrev there_frame : List ℕ
there_frame = 113 ∷ 0 ∷ 1 ∷ 0 ∷ 7 ∷ 16 ∷ 0 ∷ 0 ∷ 0 ∷ 77 ∷ 1 ∷ 2 ∷ []

abbrev back_frame : List ℕ
back_frame = 129 ∷ 0 ∷ 1 ∷ 0 ∷ 4 ∷ 18 ∷ b'!' ∷ 1 ∷ 2 ∷ []

abbrev one_written : System
one_written = written one_asked there_frame []

abbrev one_read : System
one_read = device_read one_written

abbrev one_replied : System
one_replied = replied_to one_read back_frame []

abbrev one_answered : System
one_answered = server_read config one_replied

asked_lem : one_asked.server.outgoing_chan ≡ there_frame ∷ []
unfolding new_session new_device_session load TimeKv.get TimeKv.new_time_kv TimeKv.set store
    gen_header_id send_co_req rtio.Rest.Co.encode_co_req_over_server_send_req
    rtio.Rest.Defs.frame_over rtio.Rest.Co.encode_co_req rtio.Proto.Header.encode_header
asked_lem = refl

read_lem : one_read.device.outgoing_chan ≡ back_frame ∷ []
unfolding new_session new_device_session load TimeKv.get TimeKv.new_time_kv TimeKv.set store
    gen_header_id send_co_req incomming_step rtio.Device.State.read_full
    rtio.Proto.Header.decode_header rtio.Device.Answering.server_send_request
    rtio.Rest.Defs.decode_method rtio.Device.Answering.co_get_req_handler rtio.Rest.Co.decode_co_req
    rtio.Rest.Co.encode_co_resp_over_server_send_resp rtio.Rest.Defs.frame_over
    rtio.Rest.Co.encode_co_resp rtio.Proto.Header.encode_header
read_lem = refl

answered_lem : load 0 one_answered.server.resp_chans ≡ some ((18 ∷ b'!' ∷ 1 ∷ 2 ∷ []) ∷ [])
unfolding new_session new_device_session load TimeKv.get TimeKv.new_time_kv TimeKv.set store
    gen_header_id send_co_req Incoming.incomming_step rtio.Server.State.read_full
    rtio.Rest.Co.encode_co_req_over_server_send_req rtio.Rest.Defs.frame_over
    rtio.Rest.Co.encode_co_req rtio.Proto.Header.encode_header rtio.Proto.Header.decode_header
    rtio.Server.Requesting.server_send_respone rtio.Server.Requesting.push_chan
    rtio.Proto.Send.decode_send_resp_body
answered_lem = refl

there_lem : one_written.device.conn_in ≡ there_frame
unfolding new_device_session
there_lem = refl

back_lem : one_replied.server.conn_in ≡ back_frame
unfolding new_session gen_header_id send_co_req rtio.Rest.Co.encode_co_req_over_server_send_req
    rtio.Rest.Defs.frame_over rtio.Rest.Co.encode_co_req rtio.Proto.Header.encode_header
back_lem = refl

one_answered_reached : Reach config one_answered
one_answered_reached =
    later
      (later
        (later (later one_asked_reached (moves (server_writes one_asked there_frame [] asked_lem)))
          (moves (device_reads one_written (λ e. absurd (ground (arith, e, there_lem))))))
        (moves (device_writes one_read back_frame [] read_lem)))
      (moves (server_reads one_replied (λ e. absurd (ground (arith, e, back_lem)))))

loops_go_on_example :
    ((one_written.device.conn_in ≡ []) ⊎ ((incomming_step one_written.device).0 ≡ ok tt))
    × ((one_written.server.conn_in ≡ [])
        ⊎ ((es : List Effect) × ((Incoming.incomming_step config one_written.server).0 ≡ ok es)))
loops_go_on_example =
    loops_go_on config one_written
      (later one_asked_reached (moves (server_writes one_asked there_frame [] asked_lem)))

abbrev one_request : CoReq
one_request = record { header_id = 1; method = constrained_get; uri = 77; payload = 1 ∷ 2 ∷ [] }

one_called : load 0 one_answered.calls ≡ some one_request
unfolding new_session load store
one_called = refl

abbrev none_left : List (List ℕ)
none_left = []

own_answer_example :
    (none_left ≡ [])
    × ((out : List ℕ) × (reply_of one_answered.device one_request ≡ some out)
        × ((receive_co_resp 1 (body (18 ∷ b'!' ∷ 1 ∷ 2 ∷ [])) one_answered.server).0
            ≡ ok (Status.success, out)))
own_answer_example =
    own_answer config one_answered 0 one_request (18 ∷ b'!' ∷ 1 ∷ 2 ∷ []) [] one_answered_reached
      one_called answered_lem

first_ids_free_example :
    TimeKv.get (next_header_id one_asked.server) one_asked.server.send_id_store ≡ none
unfolding new_session new_device_session load TimeKv.get TimeKv.new_time_kv
first_ids_free_example =
    first_ids_free config one_asked
      (later
        (start (record {
          no_asked = refl;
          no_there = refl;
          no_replied = refl;
          no_back = refl;
          no_calls = refl;
        }))
        (sends system 4 77 constrained_get (1 ∷ 2 ∷ []) (b'!' ∷ 1 ∷ 2 ∷ []) can_send))
      (λ id. refl) (omega arith)
