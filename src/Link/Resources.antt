-- ===== src/Link/Resources.antt =====
-- A call of the device, through the server to the device service and back.
use rtio.Prelude.{
  ℕ, ◌+◌, ◌^◌, ◌≤◌, ◌<◌, ◌≡◌, refl, sym, ap, ◌∙◌, ◌⊎◌, inl, inr, ==_refl, false, none, some, List,
  [], ◌∷◌, ◌++◌, append-nil, length, ok, arith, u32,
}
use rtio.Proto.Types.{device_send_req, device_send_resp}
use rtio.Proto.Header.Layout.{header_bytes}
use rtio.Rest.Status
use rtio.Rest.Defs.{constrained_get, constrained_post}
use rtio.Rest.Framing.{frame_header}
use rtio.Rest.Co.{CoReq}
use rtio.Rest.Co.RoundTrip.{FitsReq, co_req_bytes, co_resp_bytes}
use rtio.Rest.Co.Frames.{co_req_frame, co_resp_frame}
use rtio.SyncMap.{load, nat_eq}
use rtio.SyncMap.Laws.{load-store}
use rtio.TimeKv
use rtio.Server.State.{Session}
use rtio.Server.Observing.{Arrival, body}
use rtio.Server.Requesting.Routing.{get-set}
use rtio.Server.Resources.Calls.{Provides, response, device_send_request_replies}
use rtio.Server.Resources.{device_send_request}
use rtio.Server.Serving.Sending.{bytes_of}
use rtio.Server.Incoming.{Config, reset, incomming_step}
use rtio.Server.Incoming.Faults.{incomming_step_lem}
use rtio.Device.State.{DeviceSession, M, after, ◌>>=◌, gen_header_id}
use rtio.Device.Answering.{push_chan, chan_content}
use rtio.Device.Incoming
use rtio.Device.Incoming.Rounds.{device_incomming_step_lem}
use rtio.Device.Requesting.{get, post, co_request, receive_co_resp, sdk_result, when_sent}
use rtio.Device.Requesting.Sending.{
  in_flight, send_co_req_lem, device_send_respone_pushes, request, next_header_id, received_lem,
}
use rtio.Link.Calls.{arrival_of}

-- The server reads bytes that the device has sent, in one round of its loop.
abbrev pub server_read : Config → List ℕ → Session → Session
server_read c bytes s = (incomming_step c (record s { conn_in = bytes })).1

abbrev pub device_read : List ℕ → DeviceSession → DeviceSession
device_read bytes d = (Incoming.incomming_step (record d { outgoing_chan = []; conn_in = bytes })).1

-- While a call of the device waits, its frames go to the server's session `s`, and the answer comes
-- back.
abbrev pub through_server : Config → Session → ℕ → M Arrival
through_server c s resp_chan d =
    let e = device_read (bytes_of (server_read c (bytes_of d.outgoing_chan) s).outgoing_chan) d in
    (ok (arrival_of (chan_content (load resp_chan e.resp_chans))), e)

server_read_lem :
    (c : Config) (random : ℕ) (req : CoReq) (out bytes : List ℕ) (s : Session)
    → FitsReq req
    → c.disable_deviceservice ≡ false
    → Provides c.service random req out s
    → 1 + length out ≤ 4096
    → bytes ≡ co_req_frame device_send_req req
    → (server_read c bytes s).outgoing_chan
      ≡ s.outgoing_chan ++ (co_resp_frame device_send_resp (response req Status.success out) ∷ [])
server_read_lem c random req out bytes s v enabled p le e =
    let h = frame_header device_send_req req.header_id (5 + length req.payload) in
    let served : Provides c.service random req out (record s { conn_in = co_req_bytes req }) =
      record { has_client = p.has_client; has_random = p.has_random; replies = p.replies } in
    ap (λ r. r.1.outgoing_chan)
      (incomming_step_lem c h (co_req_bytes req) (record s { conn_in = bytes }) (omega (arith, v))
        e)
    ∙ (ap
          (λ b.
            (after (device_send_request b c.service h (record s { conn_in = co_req_bytes req }))
              (λ u. reset)).1.outgoing_chan)
          enabled
        ∙ ap (λ r. (after r (λ u. reset)).1.outgoing_chan)
            (device_send_request_replies c.service random req out []
              (record s { conn_in = co_req_bytes req }) v served
              (sym (append-nil (co_req_bytes req))) le))

-- The device has pushed the body of a response on the channel of its request.
abbrev pub pushed : ℕ → List ℕ → DeviceSession → DeviceSession
pushed chan xs d = push_chan chan xs (record d { conn_in = []; outgoing_chan = [] })

device_read_lem :
    (id n chan : ℕ) (xs bytes : List ℕ) (d : DeviceSession)
    → id < 65536
    → n ≤ 4096
    → length xs ≡ n
    → TimeKv.get id d.send_id_store ≡ some chan
    → bytes ≡ header_bytes (frame_header device_send_resp id n) ++ xs
    → device_read bytes d ≡ pushed chan xs d
device_read_lem id n chan xs bytes d lt le full k e =
    let h = frame_header device_send_resp id n in
    ap (λ r. r.1)
      (device_incomming_step_lem h xs (record d { outgoing_chan = []; conn_in = bytes })
          (omega arith) e
        ∙ device_send_respone_pushes h xs [] chan (record d { outgoing_chan = []; conn_in = xs })
            (sym (append-nil xs)) full k)

pushed_arrival :
    (chan : ℕ) (xs : List ℕ) (d : DeviceSession)
    → load chan d.resp_chans ≡ some []
    → arrival_of (chan_content (load chan (pushed chan xs d).resp_chans)) ≡ body xs
unfolding push_chan
pushed_arrival chan xs d e = rw (e, load-store chan chan (xs ∷ []) d.resp_chans, ==_refl chan) refl

-- What the server answers to the frames of a device reaches the call that waits on its channel.
pub through_answer_lem :
    (c : Config) (id n chan : ℕ) (xs : List ℕ) (s : Session) (d : DeviceSession)
    → id < 65536
    → n ≤ 4096
    → length xs ≡ n
    → TimeKv.get id d.send_id_store ≡ some chan
    → load chan d.resp_chans ≡ some []
    → bytes_of (server_read c (bytes_of d.outgoing_chan) s).outgoing_chan
      ≡ header_bytes (frame_header device_send_resp id n) ++ xs
    → through_server c s chan d ≡ (ok (body xs), pushed chan xs d)
through_answer_lem c id n chan xs s d lt le full k fresh e =
    ap (λ u. (ok (arrival_of (chan_content (load chan u.resp_chans))), u))
      (device_read_lem id n chan xs _ d lt le full k e)
    ∙ ap (λ a. (ok a, pushed chan xs d)) (pushed_arrival chan xs d fresh)

request-FitsReq :
    (d : DeviceSession) (uri method : ℕ) (payload : List ℕ)
    → uri < 2 ^ 32
    → 5 + length payload ≤ 4096
    → (method ≡ constrained_get) ⊎ (method ≡ constrained_post)
    → FitsReq (request d uri method payload)
request-FitsReq d uri method payload u le (inl m) = omega arith
request-FitsReq d uri method payload u le (inr m) = omega arith

module _ (c : Config) (random now : ℕ) (req : CoReq) (out : List ℕ) (s : Session)
    (d : DeviceSession) (v : FitsReq req) (enabled : c.disable_deviceservice ≡ false)
    (p : Provides c.service random req out s) (le : 1 + length out ≤ 4096)
    (e : d.outgoing_chan ≡ []) (empty : s.outgoing_chan ≡ []) where
  through_server_lem : through_server c s d.next_chan (in_flight now req d) ≡ (
    ok (body (co_resp_bytes (response req Status.success out))),
    pushed d.next_chan (co_resp_bytes (response req Status.success out)) (in_flight now req d),
  )
  through_server_lem =
      let resp = response req Status.success out in
      let sent =
        ap (λ o. bytes_of (o ++ (co_req_frame device_send_req req ∷ []))) e ∙ append-nil _ in
      through_answer_lem c req.header_id (1 + length out) d.next_chan (co_resp_bytes resp) s
        (in_flight now req d) v.id_lt le (omega arith)
        (get-set now req.header_id d.next_chan d.send_id_store)
        (ground (arith, load-store {V = List (List ℕ)} d.next_chan d.next_chan [] d.resp_chans))
        (ap bytes_of (server_read_lem c random req out _ s v enabled p le sent)
          ∙ (ap (λ o. bytes_of (o ++ (co_resp_frame device_send_resp resp ∷ []))) empty
              ∙ append-nil _))

-- A Get or Post of the device, by the method, that the server hands on: the service answers OK to it.
call_lem :
    (c : Config) (random now uri method : ℕ) (payload out : List ℕ) (s : Session)
    (d : DeviceSession)
    → uri < 2 ^ 32
    → 5 + length payload ≤ 4096
    → (method ≡ constrained_get) ⊎ (method ≡ constrained_post)
    → c.disable_deviceservice ≡ false
    → Provides c.service random (request d uri method payload) out s
    → 1 + length out ≤ 4096
    → d.outgoing_chan ≡ []
    → s.outgoing_chan ≡ []
    → (co_request receive_co_resp method now uri payload (through_server c s) d).0 ≡ ok (out, none)
unfolding gen_header_id
call_lem c random now uri method payload out s d u fits m enabled p le e empty =
    let req = request d uri method payload in
    let d' : DeviceSession = record d { rolling_header_id = u32 (d.rolling_header_id + 1) } in
    let v = request-FitsReq d uri method payload u fits m in
    let resp = response req Status.success out in
    let finish = λ (chan : ℕ).
      through_server c s chan >>= λ a t. sdk_result (receive_co_resp (next_header_id d) a t) in
    ap (λ r. (when_sent r finish).0) (send_co_req_lem now req d' v)
    ∙ (ap (λ r. (after r (λ a t. sdk_result (receive_co_resp (next_header_id d) a t))).0)
          (through_server_lem c random now req out s d' v enabled p le e empty)
        ∙ ap (λ r. (sdk_result r).0)
            (received_lem resp (pushed d.next_chan (co_resp_bytes resp) (in_flight now req d'))
              (omega (arith, v)) m))

-- Get and Post of the device with the server at the other end of the connection, neither with anything else to send,
-- and a device service that answers OK with some data: where the request and the data each fit a frame, the
-- call returns the data and no error, whether or not the server has verified the device.
pub device_calls_answered :
    (c : Config) (random now uri : ℕ) (payload got put : List ℕ) (s : Session) (d : DeviceSession)
    → uri < 2 ^ 32
    → 5 + length payload ≤ 4096
    → c.disable_deviceservice ≡ false
    → Provides c.service random (request d uri constrained_get payload) got s
    → Provides c.service random (request d uri constrained_post payload) put s
    → 1 + length got ≤ 4096
    → 1 + length put ≤ 4096
    → d.outgoing_chan ≡ []
    → s.outgoing_chan ≡ []
    → ((get now uri payload (through_server c s) d).0 ≡ ok (got, none))
      × ((post now uri payload (through_server c s) d).0 ≡ ok (put, none))
unfolding get post
device_calls_answered c random now uri payload got put s d u fits enabled p q le lf e empty = (
  call_lem c random now uri constrained_get payload got s d u fits (inl refl) enabled p le e empty,
  call_lem c random now uri constrained_post payload put s d u fits (inr refl) enabled q lf e empty,
)
