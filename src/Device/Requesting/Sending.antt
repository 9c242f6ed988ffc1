-- ===== src/Device/Requesting/Sending.antt =====
-- What a request of the device puts on the connection and in the store, and how it gets its answer.
use rtio.Prelude.{
  ℕ, ◌+◌, ◌≡◌, refl, ap, ◌⊎◌, inl, inr, ◌==◌, List, [], ◌∷◌, ◌++◌, length, replicate,
  length-replicate, some, ok, u16, u32,
}
use rtio.Proto.Types.{device_send_req}
use rtio.Proto.Header.{Header}
use rtio.Proto.Send.{decode_send_resp_body}
use rtio.Rest.Defs.{constrained_get, constrained_post}
use rtio.Rest.Co.{CoReq, CoResp}
use rtio.Rest.Co.RoundTrip.{FitsReq, FitsResp, co_resp_bytes, decode_co_resp_lem}
use rtio.Rest.Co.Frames.{co_req_frame, device_req_frame}
use rtio.SyncMap.{store, nat_eq}
use rtio.TimeKv
use rtio.Server.Observing.{body}
use rtio.Device.State.{DeviceSession, open_resp_chan}
use rtio.Device.State.Reading.{read_full_lem}
use rtio.Device.Requesting.{send_co_req, receive_co_resp}
use rtio.Device.Answering.{device_send_respone, push_chan}

-- The device with the request `req` in flight, on a response channel of its own.
abbrev pub in_flight : ℕ → CoReq → DeviceSession → DeviceSession
in_flight now req s = record s {
  resp_chans = store s.next_chan [] s.resp_chans;
  next_chan = s.next_chan + 1;
  send_id_store = TimeKv.set now req.header_id s.next_chan s.send_id_store;
  outgoing_chan = s.outgoing_chan ++ (co_req_frame device_send_req req ∷ []);
}

pub send_co_req_lem :
    (now : ℕ) (req : CoReq) (s : DeviceSession)
    → FitsReq req
    → send_co_req now req.header_id req.method req.uri req.payload s
      ≡ (ok s.next_chan, in_flight now req s)
unfolding send_co_req open_resp_chan
send_co_req_lem now req s v =
    rw (device_req_frame req v (replicate (10 + length req.payload) 0) (length-replicate _ 0))

-- The body of a response goes on the channel of the request with its id.
pub device_send_respone_pushes :
    (h : Header) (xs rest : List ℕ) (c : ℕ) (s : DeviceSession)
    → s.conn_in ≡ xs ++ rest
    → length xs ≡ h.body_len
    → TimeKv.get h.id s.send_id_store ≡ some c
    → device_send_respone h s ≡ (ok tt, push_chan c xs (record s { conn_in = rest }))
unfolding device_send_respone decode_send_resp_body
device_send_respone_pushes h xs rest c s e n k = rw (k, read_full_lem h.body_len s xs rest e n)

-- The request that takes the next id.
abbrev pub next_header_id : DeviceSession → ℕ
next_header_id s = u16 (u32 (s.rolling_header_id + 1))

abbrev pub request : DeviceSession → ℕ → ℕ → List ℕ → CoReq
request s uri method payload = record {
  header_id = next_header_id s;
  method = method;
  uri = uri;
  payload = payload;
}

pub received_lem :
    (resp : CoResp) (s : DeviceSession)
    → FitsResp resp
    → (resp.method ≡ constrained_get) ⊎ (resp.method ≡ constrained_post)
    → receive_co_resp resp.header_id (body (co_resp_bytes resp)) s ≡ (
      ok (resp.code, resp.payload),
      record s { send_id_store = TimeKv.del resp.header_id s.send_id_store },
    )
unfolding receive_co_resp
received_lem resp s v (inl m) =
    rw (decode_co_resp_lem resp v, ap (λ k. k == constrained_get) m) refl
received_lem resp s v (inr m) =
    rw
      (
        decode_co_resp_lem resp v,
        ap (λ k. k == constrained_get) m,
        ap (λ k. k == constrained_post) m,
      )
      refl
