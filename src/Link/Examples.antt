-- ===== src/Link/Examples.antt =====
-- A device and a server that know each other.
use rtio.Prelude.{
  ℕ, ◌≡◌, refl, inl, inr, true, false, some, none, List, [], ◌∷◌, ◌++◌, replicate, length-replicate,
  ok, arith,
}
use rtio.Rest.Status
use rtio.Rest.Defs.{constrained_get}
use rtio.SyncMap.{load, nat_eq}
use rtio.Server.State.{Session, Observa, new_session}
use rtio.Server.Observing.{ob_get_establish}
use rtio.Device.Observing.{observe_round}
use rtio.Device.Requesting.Sending
use rtio.Server.Resources.{failed, replied}
use rtio.Server.Incoming.{Config, add_session, reset_heartbeat, stopped, done, tcp_incomming}
use rtio.Server.Serving.Sending.{bytes_of}
use rtio.Server.Sessions.{get_session_of}
use rtio.Device.State.{DeviceSession, Handler, new_device_session}
use rtio.Device.Serving.{serve_start}
use rtio.Rpc.Codes.{code_ok}
use rtio.Rpc.Calls.{AccessServer, Req}
use rtio.Rpc.Calls
use rtio.Device.Requesting.{get, post}
use rtio.Link.Calls.{through}
use rtio.Link.Handshake.{IsRegistered, handshake}
use rtio.Link.Resources.{through_server, device_calls_answered}
use rtio.Link.Observations.{asked, ob_get_establish_observes}
use rtio.Link.Notifications.{notification, told, observe_round_notifies}
use rtio.Rest.Observe.{ObGetNotifyReq}
use rtio.Rpc.Observe.{ob_get}
use rtio.Rpc.Observe.Frames.{numbered, up_to_last}
use rtio.Link.Streams.{only, ob_get_streams}
use rtio.Link.Users.{get_answered}
use rtio.Link.Oversize.{oversize_answer_stops}
use rtio.Device.Incoming
use rtio.Rest.Co.{CoReq}
use rtio.Rest.Co.Frames.{co_req_frame}
use rtio.Proto.Types.{server_send_req}
use rtio.Server.State.{err_decode}

abbrev config : Config
config = record {
  disable_deviceverify = false;
  disable_deviceservice = false;
  verifier = record { has_client = true; random = some 77; verify = λ id device secret. some 1 };
  service = record { has_client = false; random = some 5; post = λ r. failed; get = λ r. failed };
}

-- A handler that answers with the request and one byte more.
abbrev handler : Handler
handler payload = some (b'!' ∷ payload)

abbrev id_bytes : List ℕ
id_bytes = replicate 36 b'a'

abbrev secret_bytes : List ℕ
secret_bytes = replicate 24 b's'

abbrev device : DeviceSession
device = record (new_device_session [] id_bytes secret_bytes) {
  reg_get_handler_map = (77, handler) ∷ [];
}

device-IsRegistered : IsRegistered device
unfolding new_device_session
device-IsRegistered = omega arith

handshake_example :
    let sent = (serve_start (some 70000) (some 8) device).1 in
    let t = tcp_incomming (config ∷ config ∷ []) [] (new_session (bytes_of sent.outgoing_chan)) in
    (t.exit ≡ done)
    × (t.effects ≡ add_session device.device_id ∷ reset_heartbeat 90 ∷ [])
    × (t.session.verify_pass ≡ true)
    × (t.session.device_id ≡ device.device_id)
    × (t.session.conn_in ≡ [])
    × (t.session.heartbeat_seconds ≡ sent.heartbeat_seconds)
unfolding new_device_session
handshake_example =
    handshake config device 70000 8 device-IsRegistered (omega arith) refl
      (inr (refl, (77, refl, refl)))

-- The session of the device, verified.
abbrev session : Session
session = record (new_session []) { device_id = id_bytes; verify_pass = true; body_cap_size = 1024 }

abbrev server : AccessServer
server = record { sessions = (id_bytes, 3) ∷ []; objects = λ h. session }

abbrev req : Req
req = record { id = 9; device_id = id_bytes; uri = b'/' ∷ []; payload = 1 ∷ 2 ∷ [] }

get_answered_example :
    (Calls.get
      (record { checksum = λ uri. 77; now = 4; wait = through config device })
      req
      server).0
    ≡ ok (record { id = 9; code = code_ok; payload = b'!' ∷ 1 ∷ 2 ∷ [] })
unfolding new_session new_device_session load get_session_of
get_answered_example =
    get_answered config device handler (λ uri. 77) 4 3 req (b'!' ∷ 1 ∷ 2 ∷ []) server refl
      (omega arith) (omega arith) (omega arith) (inl (refl, refl)) refl (omega arith) refl refl

-- A service that echoes a Get, and answers a Post with its URI.
abbrev echoing : Config
echoing = record config {
  service = record {
    has_client = true;
    random = some 5;
    post = λ r. replied 1 (r.uri ∷ []);
    get = λ r. replied 1 r.payload;
  };
}

device_calls_answered_example :
    ((get 4 77 (1 ∷ 2 ∷ []) (through_server echoing (new_session [])) device).0
      ≡ ok (1 ∷ 2 ∷ [], none))
    × ((post 4 77 (1 ∷ 2 ∷ []) (through_server echoing (new_session [])) device).0
        ≡ ok (77 ∷ [], none))
unfolding new_session new_device_session
device_calls_answered_example =
    device_calls_answered echoing 5 4 77 (1 ∷ 2 ∷ []) (1 ∷ 2 ∷ []) (77 ∷ []) (new_session []) device
      (omega arith) (omega arith) refl
      (record { has_client = refl; has_random = refl; replies = inl (refl, refl) })
      (record { has_client = refl; has_random = refl; replies = inr (refl, refl) }) (omega arith)
      (omega arith) refl refl

abbrev observa : Observa
observa = record { id = 6; frame_id = 0; notify_chan = []; session_done = false }

-- A device that can be observed.
abbrev observable : DeviceSession
observable = record device { reg_ob_get_handler_map = (77, λ payload. some 12) ∷ [] }

ob_get_establish_observes_example :
    ((ob_get_establish 4 77 observa (1 ∷ []) (through config observable) session).0
      ≡ ok Status.continue)
    × ((asked 4 77 observa (1 ∷ []) session observable).observers
        ≡ observable.observers ++ (record { ob_id = 6; notify_req_chan = 12 } ∷ []))
unfolding new_session new_device_session load
ob_get_establish_observes_example =
    ob_get_establish_observes config 4 77 observa (1 ∷ []) (λ payload. some 12) 12 session
      observable (omega arith) (omega arith) (omega arith) refl refl refl refl

-- The session that the device of an observation notifies.
abbrev observing : Session
observing = record session { observa_store = (6, observa) ∷ [] }

observe_round_notifies_example :
    ((observe_round 6
        (record { received = some (8 ∷ []); now = 4; wait = through_server config observing })
        device).0
      ≡ ok Status.continue)
    × (load 6 (told config 6 4 (some (8 ∷ [])) device observing).observa_store
        ≡ some (record observa {
          notify_chan =
              observa.notify_chan
              ++ (notification 6 (Sending.next_header_id device) (some (8 ∷ [])) ∷ []);
        }))
unfolding new_session new_device_session load
observe_round_notifies_example =
    observe_round_notifies config 6 4 (some (8 ∷ [])) observa observing device (omega arith)
      (omega arith) refl refl refl

abbrev observed_server : AccessServer
observed_server = record { sessions = (id_bytes, 3) ∷ []; objects = λ h. session }

abbrev notes : List ObGetNotifyReq
notes = notification 1 5 (some (8 ∷ [])) ∷ notification 1 6 none ∷ []

ob_get_streams_example :
    (ob_get
      (record { checksum = λ uri. 77; now = 4; wait = through config observable })
      (only notes)
      req
      observed_server).0
    ≡ ok (numbered req 0 (up_to_last notes))
unfolding new_session new_device_session load get_session_of
ob_get_streams_example =
    ob_get_streams config observable (λ payload. some 12) 12 (λ uri. 77) 4 3 req notes
      observed_server refl (omega arith) (omega arith) (omega arith) (omega arith) refl refl refl
      refl

-- A handler with a long answer.
abbrev long_answer : List ℕ
long_answer = replicate 5000 b'x'

abbrev wordy_handler : Handler
wordy_handler payload = some long_answer

abbrev wordy_request : CoReq
wordy_request = record { header_id = 9; method = constrained_get; uri = 77; payload = 1 ∷ [] }

abbrev wordy_device : DeviceSession
wordy_device = record (new_device_session [] id_bytes secret_bytes) {
  reg_get_handler_map = (77, wordy_handler) ∷ [];
  conn_in = co_req_frame server_send_req wordy_request ++ [];
}

oversize_answer_stops_example :
    (frame : List ℕ) × (Incoming.incomming_step wordy_device ≡ (
      ok tt,
      record wordy_device {
        conn_in = [];
        outgoing_chan = wordy_device.outgoing_chan ++ (frame ∷ []);
      },
    ))
    × ((tcp_incomming (config ∷ []) [] (record session { conn_in = frame ++ [] })).exit
        ≡ stopped err_decode)
unfolding load
oversize_answer_stops_example =
    oversize_answer_stops config [] [] wordy_request wordy_handler long_answer [] [] wordy_device
      session (omega arith) (inl (refl, refl)) refl refl
      (omega (arith, length-replicate {A = ℕ} 5000 b'x'))
      (omega (arith, length-replicate {A = ℕ} 5000 b'x'))
