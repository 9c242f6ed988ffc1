-- ===== src/Server/Requesting/Sending.antt =====
-- What a request of the server puts on the connection and in the store.
use rtio.Prelude.{
  ℕ, ◌+◌, ◌≡◌, ◌∙◌, List, [], ◌∷◌, ◌++◌, length, replicate, length-replicate, ok, arith, u16, u32,
}
use rtio.Proto.Types.{server_send_req}
use rtio.Rest.Co.{CoReq}
use rtio.Rest.Co.RoundTrip.{FitsReq}
use rtio.Rest.Co.Frames.{co_req_frame, server_req_frame}
use rtio.SyncMap.{store, nat_eq}
use rtio.TimeKv
use rtio.Server.State.{Session}
use rtio.Server.Observing.{open_resp_chan}
use rtio.Server.Requesting.{send_co_req}

-- The session with the request `req` in flight, on a response channel of its own.
abbrev pub in_flight : ℕ → CoReq → Session → Session
in_flight now req s = record s {
  resp_chans = store s.next_chan [] s.resp_chans;
  next_chan = s.next_chan + 1;
  send_id_store = TimeKv.set now req.header_id s.next_chan s.send_id_store;
  outgoing_chan = s.outgoing_chan ++ (co_req_frame server_send_req req ∷ []);
}

pub send_co_req_lem :
    (now : ℕ) (req : CoReq) (s : Session)
    → FitsReq req
    → send_co_req now req.uri req.method req.header_id req.payload s
      ≡ (ok s.next_chan, in_flight now req s)
unfolding send_co_req open_resp_chan
send_co_req_lem now req s v = rw (
    server_req_frame req v (replicate (u16 (10 + u16 (length req.payload))) 0)
      (length-replicate (u16 (10 + u16 (length req.payload))) 0 ∙ omega (arith, v)))

-- The id of the next request.
abbrev pub next_header_id : Session → ℕ
next_header_id s = u16 (u32 (s.rolling_header_id + 1))

-- The request that Send makes.
abbrev pub request : Session → ℕ → ℕ → List ℕ → CoReq
request s uri method payload = record {
  header_id = next_header_id s;
  method = method;
  uri = uri;
  payload = payload;
}

-- The session once Send has made its request, and waits.
abbrev pub waiting : ℕ → ℕ → ℕ → List ℕ → Session → Session
waiting now uri method payload s =
    in_flight now (request s uri method payload)
      (record s { rolling_header_id = u32 (s.rolling_header_id + 1) })
