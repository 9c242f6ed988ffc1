-- ===== src/Link/Notifications.antt =====
-- A notification of the device, to the observation of the server and back.
pub mod Receiving
use rtio.Prelude.{
  ℕ, ◌+◌, ◌≤◌, ◌<◌, ◌≡◌, refl, sym, ap, ◌∙◌, ==_refl, ◌==◌, Bool, Option, none, some, List, [], ◌∷◌,
  ◌++◌, append-nil, length, replicate, length-replicate, ok, arith, u32,
}
use rtio.Proto.Types.{device_send_req, device_send_resp}
use rtio.Rest.Status
use rtio.Rest.Defs.{observed_get, constrained_get, constrained_post}
use rtio.Rest.Framing.{frame_header}
use rtio.Rest.Observe.{ObGetNotifyReq, ObGetNotifyResp}
use rtio.Rest.Observe.Notify.{
  FitsObGetNotifyReq, FitsObGetNotifyResp, ob_get_notify_req_bytes, ob_get_notify_resp_bytes,
  decode_ob_get_notify_req_lem, decode_ob_get_notify_resp_lem,
}
use rtio.Rest.Observe.Frames.{
  notify_req_frame, notify_resp_frame, encode_notify_req_lem, encode_notify_resp_lem,
  decode_method-notify_req_bytes,
}
use rtio.SyncMap.{load, store, nat_eq}
use rtio.SyncMap.Laws.{load-store}
use rtio.TimeKv
use rtio.Server.State.{Session, Observa}
use rtio.Server.State.Reading.{read_full_lem}
use rtio.Server.Observing.{Arrival, body, receive_ob_notify_req, send_ob_notify_resp, notify_resp}
use rtio.Server.Requesting.Routing.{get-set}
use rtio.Server.Resources.{Service, device_send_request}
use rtio.Server.Serving.Sending.{bytes_of}
use rtio.Server.Incoming.{Config, reset}
use rtio.Server.Incoming.Faults.{incomming_step_lem}
use rtio.Device.State.{DeviceSession, M, after, ◌>>=◌, gen_header_id, open_resp_chan}
use rtio.Device.Answering.{chan_content}
use rtio.Device.Observing.{
  Round, notify_req, send_notify, send_round, observe_round, send_ob_notify_req,
  send_ob_notify_req_terminate, receive_ob_notify_resp,
}
use rtio.Device.Requesting.Sending.{next_header_id}
use rtio.Link.Calls.{arrival_of}
use rtio.Link.Resources.{server_read, through_server, pushed, through_answer_lem}
use rtio.Link.Notifications.Receiving.{notified, server_read_lem}

-- The notification for what the device's handler put on its channel, or for its end.
abbrev pub notice_code : Option (List ℕ) → ℕ
notice_code none = Status.terminate
notice_code (some payload) = Status.continue

abbrev pub notice_payload : Option (List ℕ) → List ℕ
notice_payload none = []
notice_payload (some payload) = payload

abbrev pub notification : ℕ → ℕ → Option (List ℕ) → ObGetNotifyReq
notification ob_id header_id received =
    notify_req ob_id header_id (notice_code received) (notice_payload received)

-- The device with a notification in flight, on a response channel of its own.
abbrev in_flight : ℕ → ObGetNotifyReq → DeviceSession → DeviceSession
in_flight now req d = record d {
  resp_chans = store d.next_chan [] d.resp_chans;
  next_chan = d.next_chan + 1;
  send_id_store = TimeKv.set now req.header_id d.next_chan d.send_id_store;
  outgoing_chan = d.outgoing_chan ++ (notify_req_frame req ∷ []);
}

send_notify_lem :
    (now : ℕ) (req : ObGetNotifyReq) (d : DeviceSession)
    → FitsObGetNotifyReq req
    → send_notify now req d ≡ (ok d.next_chan, in_flight now req d)
unfolding open_resp_chan
send_notify_lem now req d v =
    rw (encode_notify_req_lem req (replicate (8 + length req.payload) 0) v (length-replicate _ 0))

send_round_lem :
    (ob_id now header_id : ℕ) (received : Option (List ℕ)) (d : DeviceSession)
    → FitsObGetNotifyReq (notification ob_id header_id received)
    → send_round ob_id now header_id received d
      ≡ (ok d.next_chan, in_flight now (notification ob_id header_id received) d)
unfolding send_ob_notify_req send_ob_notify_req_terminate
send_round_lem ob_id now header_id none d v = send_notify_lem now _ d v
send_round_lem ob_id now header_id (some payload) d v = send_notify_lem now _ d v

received_lem :
    (resp : ObGetNotifyResp) (d : DeviceSession)
    → FitsObGetNotifyResp resp
    → resp.method ≡ observed_get
    → (receive_ob_notify_resp resp.ob_id resp.header_id (body (ob_get_notify_resp_bytes resp)) d).0
      ≡ ok resp.code
unfolding receive_ob_notify_resp
received_lem resp d v m =
    rw (decode_ob_get_notify_resp_lem resp v, ==_refl resp.ob_id, ap (λ k. k == observed_get) m)
      refl

module _ (c : Config) (now : ℕ) (req : ObGetNotifyReq) (ob : Observa) (s : Session)
    (d : DeviceSession) (v : FitsObGetNotifyReq req) (m : req.method ≡ observed_get)
    (known : load req.ob_id s.observa_store ≡ some ob) (e : d.outgoing_chan ≡ [])
    (empty : s.outgoing_chan ≡ []) where
  sent_lem : bytes_of (in_flight now req d).outgoing_chan ≡ notify_req_frame req
  sent_lem = ap (λ o. bytes_of (o ++ (notify_req_frame req ∷ []))) e ∙ append-nil _

  through_server_lem : through_server c s d.next_chan (in_flight now req d) ≡ (
    ok (body (ob_get_notify_resp_bytes (notify_resp req Status.continue))),
    pushed d.next_chan
        (ob_get_notify_resp_bytes (notify_resp req Status.continue))
        (in_flight now req d),
  )
  through_server_lem =
      let resp = notify_resp req Status.continue in
      through_answer_lem c req.header_id 3 d.next_chan (ob_get_notify_resp_bytes resp) s
        (in_flight now req d) v.id_lt (omega arith) refl
        (get-set now req.header_id d.next_chan d.send_id_store)
        (ground (arith, load-store {V = List (List ℕ)} d.next_chan d.next_chan [] d.resp_chans))
        (ap (λ u. bytes_of u.outgoing_chan) (server_read_lem req ob v c _ s m known sent_lem)
          ∙ (ap (λ o. bytes_of (o ++ (notify_resp_frame resp ∷ []))) empty ∙ append-nil _))

notification-Fits :
    (ob_id header_id : ℕ) (received : Option (List ℕ))
    → ob_id < 65536
    → header_id < 65536
    → 3 + length (notice_payload received) ≤ 4096
    → FitsObGetNotifyReq (notification ob_id header_id received)
notification-Fits ob_id header_id none b h le = omega arith
notification-Fits ob_id header_id (some payload) b h le = omega arith

-- What a round of `observe` sends.
abbrev pub asking : ℕ → ℕ → Option (List ℕ) → M ℕ
asking ob_id now received = do header_id ← gen_header_id; send_round ob_id now header_id received

-- The server once it has read what the device sends in the round.
abbrev pub told : Config → ℕ → ℕ → Option (List ℕ) → DeviceSession → Session → Session
told c ob_id now received d s =
    server_read c (bytes_of (asking ob_id now received d).1.outgoing_chan) s

-- A round of the device's `observe`, for a value of the handler's channel or for its end, with the server
-- at the other end of the connection, neither with anything else to send: where the value fits a frame
-- and the server has the observation, it hands the observation's reader one notification more, with
-- the value and the code Continue, or with no data and the code Terminate at the end of the channel,
-- and the device gets the answer Continue.
pub observe_round_notifies :
    (c : Config) (ob_id now : ℕ) (received : Option (List ℕ)) (ob : Observa) (s : Session)
    (d : DeviceSession)
    → ob_id < 65536
    → 3 + length (notice_payload received) ≤ 4096
    → load ob_id s.observa_store ≡ some ob
    → d.outgoing_chan ≡ []
    → s.outgoing_chan ≡ []
    → ((observe_round ob_id
          (record { received = received; now = now; wait = through_server c s })
          d).0
        ≡ ok Status.continue)
      × (load ob_id (told c ob_id now received d s).observa_store
          ≡ some (record ob {
            notify_chan = ob.notify_chan ++ (notification ob_id (next_header_id d) received ∷ []);
          }))
unfolding gen_header_id
observe_round_notifies c ob_id now received ob s d b le known e empty =
    let req = notification ob_id (next_header_id d) received in
    let d' : DeviceSession = record d { rolling_header_id = u32 (d.rolling_header_id + 1) } in
    let v = notification-Fits ob_id (next_header_id d) received b (omega arith) le in
    let ask = send_round_lem ob_id now (next_header_id d) received d' v in
    let answered = λ (a : Arrival). receive_ob_notify_resp ob_id (next_header_id d) a in
    let told_lem =
      ap (λ r. server_read c (bytes_of r.1.outgoing_chan) s) ask
      ∙ server_read_lem req ob v c _ s refl known
          (sent_lem c now req ob s d' v refl known e empty) in
    (
      ap (λ r. (after r (λ chan. through_server c s chan >>= answered)).0) ask
          ∙ (ap (λ r. (after r answered).0)
                (through_server_lem c now req ob s d' v refl known e empty)
              ∙ received_lem (notify_resp req Status.continue) _ (omega (arith, v)) refl),
      ap (λ t. load ob_id t.observa_store) told_lem
          ∙ (load-store ob_id ob_id _ s.observa_store ∙ rw (==_refl ob_id) refl),
    )
