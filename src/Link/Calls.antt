-- ===== src/Link/Calls.antt =====
-- A call of the server, through the device and back.
use rtio.Prelude.{
  ℕ, ◌+◌, ◌^◌, ◌≤◌, ◌<◌, ◌≡◌, refl, sym, ap, ◌∙◌, ◌⊎◌, inl, inr, ◌==◌, ==_refl, none, some, List,
  [], ◌∷◌, ◌++◌, append-nil, length, ok, arith, u32,
}
use rtio.Proto.Types.{server_send_req, server_send_resp}
use rtio.Proto.Header.Layout.{header_bytes}
use rtio.Rest.Status
use rtio.Rest.Defs.{constrained_get, constrained_post}
use rtio.Rest.Framing.{frame_header}
use rtio.Rest.Co.{CoReq, CoResp}
use rtio.Rest.Co.RoundTrip.{FitsReq, FitsResp, co_req_bytes, co_resp_bytes, decode_co_resp_lem}
use rtio.Rest.Co.Frames.{co_req_frame, co_resp_frame}
use rtio.SyncMap.{load, nat_eq}
use rtio.SyncMap.Laws.{load-store}
use rtio.TimeKv
use rtio.Server.State.{Session, M, after, ◌>>=◌, gen_header_id}
use rtio.Server.Observing.{Arrival, body, timeout}
use rtio.Server.Requesting.{send, push_chan, receive_co_resp, chan_content}
use rtio.Server.Requesting.Sending.{send_co_req_lem, in_flight, request, waiting, next_header_id}
use rtio.Server.Requesting.Routing.{server_send_respone_pushes, get-set, get-del}
use rtio.Server.Serving.Sending.{bytes_of}
use rtio.Server.Incoming.{Config, reset}
use rtio.Server.Incoming
use rtio.Server.Incoming.Faults.{incomming_step_lem}
use rtio.Device.State.{DeviceSession, Handler}
use rtio.Device.Incoming.{incomming_step}
use rtio.Device.Incoming.Rounds.{device_incomming_step_lem}
use rtio.Device.Answering.{co_resp}
use rtio.Device.Answering.Calls.{Serves, server_send_request_replies}

-- The device reads bytes that the server has sent, in one round of its loop.
abbrev pub at_device : DeviceSession → List ℕ → DeviceSession
at_device d bytes = (incomming_step (record d { conn_in = bytes })).1

-- And the server bytes that the device has sent.
abbrev pub at_server : Config → List ℕ → Session → Session
at_server c bytes s =
    (Incoming.incomming_step c (record s { outgoing_chan = []; conn_in = bytes })).1

-- What the `select` on a response channel then finds.
abbrev pub arrival_of : List (List ℕ) → Arrival
arrival_of [] = timeout
arrival_of (b ∷ bs) = body b

-- While Send waits, its frames go to the device `d`, and the answer comes back.
abbrev pub through : Config → DeviceSession → ℕ → M Arrival
through c d resp_chan s =
    let t = at_server c (bytes_of (at_device d (bytes_of s.outgoing_chan)).outgoing_chan) s in
    (ok (arrival_of (chan_content (load resp_chan t.resp_chans))), t)

at_device_lem :
    (req : CoReq) (handler : Handler) (out bytes : List ℕ) (d : DeviceSession)
    → FitsReq req
    → Serves d req.method req.uri handler
    → handler req.payload ≡ some out
    → 1 + length out ≤ 4096
    → bytes ≡ co_req_frame server_send_req req
    → (at_device d bytes).outgoing_chan
      ≡ d.outgoing_chan ++ (co_resp_frame server_send_resp (co_resp req Status.success out) ∷ [])
at_device_lem req handler out bytes d v serves h le e =
    ap (λ r. r.1.outgoing_chan)
      (device_incomming_step_lem
          (frame_header server_send_req req.header_id (5 + length req.payload)) (co_req_bytes req)
          (record d { conn_in = bytes }) (omega (arith, v)) e
        ∙ server_send_request_replies req handler out [] (record d { conn_in = co_req_bytes req }) v
            serves (sym (append-nil (co_req_bytes req))) h le)

-- The server has pushed the body of a response on the channel of its request.
abbrev pub pushed : ℕ → List ℕ → Session → Session
pushed chan xs s = push_chan chan xs (record s { conn_in = []; outgoing_chan = [] })

at_server_lem :
    (c : Config) (id n chan : ℕ) (xs bytes : List ℕ) (s : Session)
    → id < 65536
    → n ≤ 4096
    → length xs ≡ n
    → TimeKv.get id s.send_id_store ≡ some chan
    → bytes ≡ header_bytes (frame_header server_send_resp id n) ++ xs
    → at_server c bytes s ≡ pushed chan xs s
at_server_lem c id n chan xs bytes s lt le full k e =
    let h = frame_header server_send_resp id n in
    ap (λ r. r.1)
      (incomming_step_lem c h xs (record s { outgoing_chan = []; conn_in = bytes }) (omega arith) e)
    ∙ ap (λ r. (after r (λ u. reset)).1)
        (server_send_respone_pushes h xs [] chan (record s { outgoing_chan = []; conn_in = xs })
          (sym (append-nil xs)) full k)

pushed_arrival :
    (chan : ℕ) (xs : List ℕ) (s : Session)
    → load chan s.resp_chans ≡ some []
    → arrival_of (chan_content (load chan (pushed chan xs s).resp_chans)) ≡ body xs
unfolding push_chan
pushed_arrival chan xs s e = rw (e, load-store chan chan (xs ∷ []) s.resp_chans, ==_refl chan) refl

-- What the device answers to the frames of a session reaches the call that waits on its channel.
pub through_answer_lem :
    (c : Config) (id n chan : ℕ) (xs : List ℕ) (d : DeviceSession) (s : Session)
    → id < 65536
    → n ≤ 4096
    → length xs ≡ n
    → TimeKv.get id s.send_id_store ≡ some chan
    → load chan s.resp_chans ≡ some []
    → bytes_of (at_device d (bytes_of s.outgoing_chan)).outgoing_chan
      ≡ header_bytes (frame_header server_send_resp id n) ++ xs
    → through c d chan s ≡ (ok (body xs), pushed chan xs s)
through_answer_lem c id n chan xs d s lt le full k fresh e =
    ap (λ t. (ok (arrival_of (chan_content (load chan t.resp_chans))), t))
      (at_server_lem c id n chan xs _ s lt le full k e)
    ∙ ap (λ a. (ok a, pushed chan xs s)) (pushed_arrival chan xs s fresh)

through_lem :
    (c : Config) (req : CoReq) (handler : Handler) (out : List ℕ) (d : DeviceSession) (now : ℕ)
    (s : Session)
    → FitsReq req
    → Serves d req.method req.uri handler
    → handler req.payload ≡ some out
    → 1 + length out ≤ 4096
    → s.outgoing_chan ≡ []
    → d.outgoing_chan ≡ []
    → through c d s.next_chan (in_flight now req s) ≡ (
      ok (body (co_resp_bytes (co_resp req Status.success out))),
      pushed s.next_chan (co_resp_bytes (co_resp req Status.success out)) (in_flight now req s),
    )
through_lem c req handler out d now s v serves h le e empty =
    let resp = co_resp req Status.success out in
    let sent = ap (λ o. bytes_of (o ++ (co_req_frame server_send_req req ∷ []))) e ∙ append-nil _ in
    through_answer_lem c req.header_id (1 + length out) s.next_chan (co_resp_bytes resp) d
      (in_flight now req s) v.id_lt le (omega arith)
      (get-set now req.header_id s.next_chan s.send_id_store)
      (ground (arith, load-store {V = List (List ℕ)} s.next_chan s.next_chan [] s.resp_chans))
      (ap bytes_of (at_device_lem req handler out _ d v serves h le sent)
        ∙ (ap (λ o. bytes_of (o ++ (co_resp_frame server_send_resp resp ∷ []))) empty
            ∙ append-nil _))

request-FitsReq :
    (d : DeviceSession) (handler : Handler) (s : Session) (uri method : ℕ) (payload : List ℕ)
    → uri < 2 ^ 32
    → 5 + length payload ≤ 4096
    → Serves d method uri handler
    → FitsReq (request s uri method payload)
request-FitsReq d handler s uri method payload u le (inl (m, q)) = omega arith
request-FitsReq d handler s uri method payload u le (inr (m, q)) = omega arith

pub received_lem :
    (resp : CoResp) (s : Session)
    → FitsResp resp
    → (resp.method ≡ constrained_get) ⊎ (resp.method ≡ constrained_post)
    → receive_co_resp resp.header_id (body (co_resp_bytes resp)) s ≡ (
      ok (resp.code, resp.payload),
      record s { send_id_store = TimeKv.del resp.header_id s.send_id_store },
    )
unfolding receive_co_resp
received_lem resp s v (inl m) =
    rw (decode_co_resp_lem resp v, ap (λ k. k == constrained_get) m) refl
received_lem resp s v (inr m) =
    rw
      (
        decode_co_resp_lem resp v,
        ap (λ k. k == constrained_get) m,
        ap (λ k. k == constrained_post) m,
      )
      refl

method_served :
    (d : DeviceSession) (method uri : ℕ) (handler : Handler)
    → Serves d method uri handler
    → (method ≡ constrained_get) ⊎ (method ≡ constrained_post)
method_served d method uri handler (inl (m, q)) = inl m
method_served d method uri handler (inr (m, q)) = inr m

-- The session when the call has returned.
abbrev called : ℕ → ℕ → ℕ → List ℕ → List ℕ → Session → Session
called now uri method payload out s =
    let t =
      pushed s.next_chan (co_resp_bytes (co_resp (request s uri method payload) Status.success out))
        (waiting now uri method payload s) in
    record t { send_id_store = TimeKv.del (next_header_id s) t.send_id_store }

module _ (c : Config) (d : DeviceSession) (handler : Handler) (now uri method : ℕ)
    (payload out : List ℕ) (s : Session) (u : uri < 2 ^ 32) (le : 5 + length payload ≤ 4096)
    (serves : Serves d method uri handler) (h : handler payload ≡ some out)
    (fits : 1 + length out ≤ 4096) (e : s.outgoing_chan ≡ []) (empty : d.outgoing_chan ≡ []) where
  send_lem :
      send now uri method payload (through c d) s
      ≡ (ok (Status.success, out), called now uri method payload out s)
  unfolding send gen_header_id
  send_lem =
      let req = request s uri method payload in
      let s' : Session = record s { rolling_header_id = u32 (s.rolling_header_id + 1) } in
      let v = request-FitsReq d handler s uri method payload u le serves in
      let receive : Arrival → M (ℕ × List ℕ) = λ a. receive_co_resp (next_header_id s) a in
      ap (λ r. after r (λ chan. through c d chan >>= receive)) (send_co_req_lem now req s' v)
      ∙ (ap (λ r. after r receive) (through_lem c req handler out d now s' v serves h fits e empty)
          ∙ received_lem (co_resp req Status.success out) _ (omega (arith, v))
              (method_served d method uri handler serves))

-- A call of Send on a session with nothing else to send, for a method and a URI that the device at the
-- other end of the connection has a handler for, where the request and the answer each fit a frame
-- and the device has nothing else to send: it returns the status OK and what the handler gives for
-- the payload. Its id is forgotten, and no frame is left to send.
pub send_answered :
    (c : Config) (d : DeviceSession) (handler : Handler) (now uri method : ℕ) (payload out : List ℕ)
    (s : Session)
    → uri < 2 ^ 32
    → 5 + length payload ≤ 4096
    → Serves d method uri handler
    → handler payload ≡ some out
    → 1 + length out ≤ 4096
    → s.outgoing_chan ≡ []
    → d.outgoing_chan ≡ []
    → let r = send now uri method payload (through c d) s in
      (r.0 ≡ ok (Status.success, out))
      × (TimeKv.get (next_header_id s) r.1.send_id_store ≡ none)
      × (r.1.outgoing_chan ≡ [])
unfolding push_chan
send_answered c d handler now uri method payload out s u le serves h fits e empty =
    rw (send_lem c d handler now uri method payload out s u le serves h fits e empty)
      (refl, get-del (next_header_id s) _, refl)
