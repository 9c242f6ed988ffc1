-- ===== src/Link/Observations.antt =====
-- The establishment of an observation, from the server to the device and back.
use rtio.Prelude.{
  ℕ, ◌+◌, ◌^◌, ◌≤◌, ◌<◌, ◌≡◌, refl, sym, ap, ◌∙◌, ==_refl, ◌==◌, some, List, [], ◌∷◌, ◌++◌,
  append-nil, length, replicate, length-replicate, ok, arith, u16, u32,
}
use rtio.Proto.Types.{server_send_req}
use rtio.Rest.Status
use rtio.Rest.Defs.{observed_get}
use rtio.Rest.Framing.{frame_header}
use rtio.Rest.Observe.{ObGetEstabReq, ObGetEstabResp}
use rtio.Rest.Observe.Establish.{
  FitsObGetEstabReq, FitsObGetEstabResp, ob_get_estab_req_bytes, ob_get_estab_resp_bytes,
  decode_ob_get_estab_req_lem, decode_ob_get_estab_resp_lem,
}
use rtio.Rest.Observe.Frames.{
  estab_req_frame, estab_resp_frame, encode_estab_req_lem, encode_estab_resp_lem,
  decode_method-estab_req_bytes,
}
use rtio.SyncMap.{load, store, nat_eq}
use rtio.SyncMap.Laws.{load-store}
use rtio.TimeKv
use rtio.Server.State.{Session, Observa, after, ◌>>=◌, gen_header_id}
use rtio.Server.Observing.{
  Arrival, body, open_resp_chan, send_ob_estab_req, receive_ob_estab_resp, ob_get_establish,
}
use rtio.Server.Requesting.Routing.{get-set}
use rtio.Server.Requesting.Sending.{next_header_id}
use rtio.Server.Serving.Sending.{bytes_of}
use rtio.Server.Incoming.{Config}
use rtio.Device.State.{DeviceSession, ObHandler}
use rtio.Device.State.Reading.{read_full_lem}
use rtio.Device.Answering.{estab_resp, ob_get_req_handler, server_send_request}
use rtio.Device.Incoming.Rounds.{device_incomming_step_lem}
use rtio.Link.Calls.{at_device, through, through_answer_lem, pushed}

-- The request of the session that establishes the observation `ob`.
abbrev pub estab_req : Session → ℕ → Observa → List ℕ → ObGetEstabReq
estab_req s uri ob payload = record {
  header_id = next_header_id s;
  method = observed_get;
  ob_id = ob.id;
  uri = uri;
  payload = payload;
}

-- The device once a goroutine reads the channel of its handler, and the server is told to go on.
abbrev observed : ObGetEstabReq → ℕ → DeviceSession → DeviceSession
observed req chan d = record d {
  conn_in = [];
  observers = d.observers ++ (record { ob_id = req.ob_id; notify_req_chan = chan } ∷ []);
  outgoing_chan = d.outgoing_chan ++ (estab_resp_frame (estab_resp req Status.continue) ∷ []);
}

-- The session with the request in flight, on a response channel of its own.
abbrev in_flight : ℕ → ObGetEstabReq → Session → Session
in_flight now req s = record s {
  resp_chans = store s.next_chan [] s.resp_chans;
  next_chan = s.next_chan + 1;
  send_id_store = TimeKv.set now req.header_id s.next_chan s.send_id_store;
  outgoing_chan = s.outgoing_chan ++ (estab_req_frame req ∷ []);
}

module _ (req : ObGetEstabReq) (handler : ObHandler) (chan : ℕ) (v : FitsObGetEstabReq req)
    (m : req.method ≡ observed_get) where
  handler_lem :
      (d : DeviceSession)
      → load req.uri d.reg_ob_get_handler_map ≡ some handler
      → handler req.payload ≡ some chan
      → d.conn_in ≡ []
      → ob_get_req_handler
          (frame_header server_send_req req.header_id (7 + length req.payload))
          (ob_get_estab_req_bytes req)
          d
        ≡ (ok tt, observed req chan d)
  unfolding ob_get_req_handler
  handler_lem d known h e =
      rw
        (
          decode_ob_get_estab_req_lem req v,
          ob_get_req_handler,
          known,
          h,
          encode_estab_resp_lem (estab_resp req Status.continue) (replicate 8 0) (omega (arith, v))
              refl,
        )
        (ap (λ i. (ok tt, record (observed req chan d) { conn_in = i })) e)

  request_lem :
      (d : DeviceSession)
      → load req.uri d.reg_ob_get_handler_map ≡ some handler
      → handler req.payload ≡ some chan
      → d.conn_in ≡ ob_get_estab_req_bytes req
      → server_send_request (frame_header server_send_req req.header_id (7 + length req.payload)) d
        ≡ (ok tt, observed req chan d)
  unfolding server_send_request
  request_lem d known h e =
      rw
        (
          read_full_lem (7 + length req.payload) d (ob_get_estab_req_bytes req) []
              (e ∙ sym (append-nil _)) (omega arith),
          decode_method-estab_req_bytes req v.method_lt,
          ap (λ k. k == observed_get) m,
        )
        (handler_lem (record d { conn_in = [] }) known h refl)

  at_device_lem :
      (d : DeviceSession) (bytes : List ℕ)
      → load req.uri d.reg_ob_get_handler_map ≡ some handler
      → handler req.payload ≡ some chan
      → bytes ≡ estab_req_frame req
      → at_device d bytes ≡ observed req chan d
  at_device_lem d bytes known h e =
      let xs = ob_get_estab_req_bytes req in
      let head = frame_header server_send_req req.header_id (7 + length req.payload) in
      ap (λ r. r.1)
        (device_incomming_step_lem head xs (record d { conn_in = bytes }) (omega (arith, v)) e
          ∙ request_lem (record d { conn_in = xs }) known h refl)

send_lem :
    (now uri : ℕ) (ob : Observa) (header_id : ℕ) (payload : List ℕ) (s : Session)
    → let req : ObGetEstabReq = record {
      header_id = header_id;
      method = observed_get;
      ob_id = ob.id;
      uri = uri;
      payload = payload;
    } in
      FitsObGetEstabReq req
      → send_ob_estab_req now ob uri header_id payload s ≡ (ok s.next_chan, in_flight now req s)
unfolding send_ob_estab_req open_resp_chan
send_lem now uri ob header_id payload s v = rw (
    encode_estab_req_lem _ (replicate (u16 (12 + u16 (length payload))) 0) v
      (length-replicate (u16 (12 + u16 (length payload))) 0 ∙ omega (arith, v)))

received_lem :
    (resp : ObGetEstabResp) (ob : Observa) (s : Session)
    → FitsObGetEstabResp resp
    → resp.method ≡ observed_get
    → resp.ob_id ≡ ob.id
    → (receive_ob_estab_resp ob resp.header_id (body (ob_get_estab_resp_bytes resp)) s).0
      ≡ ok resp.code
unfolding receive_ob_estab_resp
received_lem resp ob s v m i =
    rw (decode_ob_get_estab_resp_lem resp v, i, ==_refl ob.id, ap (λ k. k == observed_get) m) refl

module _ (c : Config) (now : ℕ) (req : ObGetEstabReq) (handler : ObHandler) (chan : ℕ) (s : Session)
    (d : DeviceSession) (v : FitsObGetEstabReq req) (m : req.method ≡ observed_get)
    (known : load req.uri d.reg_ob_get_handler_map ≡ some handler)
    (h : handler req.payload ≡ some chan) (e : s.outgoing_chan ≡ [])
    (empty : d.outgoing_chan ≡ []) where
  device_lem : at_device d (bytes_of (in_flight now req s).outgoing_chan) ≡ observed req chan d
  device_lem =
      at_device_lem req handler chan v m d _ known h
        (ap (λ o. bytes_of (o ++ (estab_req_frame req ∷ []))) e ∙ append-nil _)

  through_lem : through c d s.next_chan (in_flight now req s) ≡ (
    ok (body (ob_get_estab_resp_bytes (estab_resp req Status.continue))),
    pushed s.next_chan
        (ob_get_estab_resp_bytes (estab_resp req Status.continue))
        (in_flight now req s),
  )
  through_lem =
      let resp = estab_resp req Status.continue in
      through_answer_lem c req.header_id 3 s.next_chan (ob_get_estab_resp_bytes resp) d
        (in_flight now req s) v.id_lt (omega arith) refl
        (get-set now req.header_id s.next_chan s.send_id_store)
        (ground (arith, load-store {V = List (List ℕ)} s.next_chan s.next_chan [] s.resp_chans))
        (ap (λ u. bytes_of u.outgoing_chan) device_lem
          ∙ (ap (λ o. bytes_of (o ++ (estab_resp_frame resp ∷ []))) empty ∙ append-nil _))

-- The device once it has read what ObGetEstablish sends.
abbrev pub asked : ℕ → ℕ → Observa → List ℕ → Session → DeviceSession → DeviceSession
asked now uri ob payload s d = at_device d (
    bytes_of
      (send_ob_estab_req now ob uri (next_header_id s) payload
        (record s { rolling_header_id = u32 (s.rolling_header_id + 1) })).1.outgoing_chan)

-- ObGetEstablish for an observation, with the device at the other end of the connection, neither with
-- anything else to send: where the request fits a frame, and the device has a handler of observations
-- for the URI, which gives a channel for the payload, the status is Continue, and the device has one
-- goroutine more, which reads that channel for that observation.
pub ob_get_establish_observes :
    (c : Config) (now uri : ℕ) (ob : Observa) (payload : List ℕ) (handler : ObHandler) (chan : ℕ)
    (s : Session) (d : DeviceSession)
    → uri < 2 ^ 32
    → ob.id < 65536
    → 7 + length payload ≤ 4096
    → load uri d.reg_ob_get_handler_map ≡ some handler
    → handler payload ≡ some chan
    → s.outgoing_chan ≡ []
    → d.outgoing_chan ≡ []
    → ((ob_get_establish now uri ob payload (through c d) s).0 ≡ ok Status.continue)
      × ((asked now uri ob payload s d).observers
          ≡ d.observers ++ (record { ob_id = ob.id; notify_req_chan = chan } ∷ []))
unfolding ob_get_establish gen_header_id
ob_get_establish_observes c now uri ob payload handler chan s d u b le known h e empty =
    let req = estab_req s uri ob payload in
    let s' : Session = record s { rolling_header_id = u32 (s.rolling_header_id + 1) } in
    let v : FitsObGetEstabReq req = omega arith in
    let sent = send_lem now uri ob (next_header_id s) payload s' v in
    let receive = λ (a : Arrival). receive_ob_estab_resp ob (next_header_id s) a in
    (
      ap (λ r. (after r (λ k. through c d k >>= receive)).0) sent
          ∙ (ap (λ r. (after r receive).0)
                (through_lem c now req handler chan s' d v refl known h e empty)
              ∙ received_lem (estab_resp req Status.continue) ob _ (omega (arith, v)) refl refl),
      ap (λ r. (at_device d (bytes_of r.1.outgoing_chan)).observers) sent
          ∙ ap (λ t. t.observers) (device_lem c now req handler chan s' d v refl known h e empty),
    )
