-- ===== src/Link/Traffic/Answers.antt =====
-- What a caller finds, and that no loop ends.
use rtio.Prelude.{ℕ, ◌≡◌, ap, subst, ◌∙◌, ◌⊎◌, inl, inr, some, List, [], ◌∷◌, map, drop, ok, arith}
use rtio.Rest.Status
use rtio.Rest.Defs.{constrained_get, constrained_post}
use rtio.Rest.Co.{CoReq}
use rtio.SyncMap.{SyncMap, load, nat_eq}
use rtio.TimeKv.{TimeKv}
use rtio.Server.Observing.{body}
use rtio.Server.Requesting.{receive_co_resp}
use rtio.Server.Serving.Sending.{bytes_of}
use rtio.Server.Incoming.{Config, Effect}
use rtio.Server.Incoming
use rtio.Device.State.{DeviceSession}
use rtio.Device.Answering.{co_resp}
use rtio.Device.Incoming.{incomming_step}
use rtio.Link.Calls.{received_lem}
use rtio.Link.Traffic.{System, reply_of}
use rtio.Link.Traffic.Invariant.{
  All, Pending, asked_frame, reply_frame, reply_bytes, RespChans, IsServed, IsAwaited, IsIn,
  IsSound,
}
use rtio.Link.Traffic.Moving.{handled_lem, device_round_lem, server_round_lem, there-IsServed}
use rtio.Link.Traffic.Reaching.{Reach, Reach-Places}

blank_lem :
    (ids : TimeKv ℕ) (chans : RespChans) (next : ℕ) (calls : SyncMap ℕ CoReq) (chan : ℕ)
    (ps : List Pending)
    → IsIn chan ps
    → All (IsAwaited ids chans next calls) ps
    → load chan chans ≡ some []
blank_lem ids chans next calls chan [] h a = absurd h
blank_lem ids chans next calls chan (p ∷ ps) (inl e) a =
    subst (λ n. load n chans ≡ some []) e (a.0).blank
blank_lem ids chans next calls chan (p ∷ ps) (inr h) a =
    blank_lem ids chans next calls chan ps h a.1

method_lem :
    (d : DeviceSession) (req : CoReq) (out : List ℕ)
    → reply_of d req ≡ some out
    → (req.method ≡ constrained_get) ⊎ (req.method ≡ constrained_post)
method_lem d req out e = elim (handled_lem d req.method req.uri req.payload out e).1 [
  | inl (m, q) ↦ inl m
  | inr (m, q) ↦ inr m
]

-- However many callers there are, and in whatever order they and the loops of both ends step, where
-- each request and the answer to it fit a frame, its id is free when it is made, and no caller
-- times out: what a caller of Send finds on its channel is one body, which it reads as the status
-- OK and the output of the device's handler for its own request.
pub own_answer :
    (c : Config) (t : System) (chan : ℕ) (req : CoReq) (b : List ℕ) (bs : List (List ℕ))
    → Reach c t
    → load chan t.calls ≡ some req
    → load chan t.server.resp_chans ≡ some (b ∷ bs)
    → (bs ≡ [])
      × ((out : List ℕ) × (reply_of t.device req ≡ some out)
          × ((receive_co_resp req.header_id (body b) t.server).0 ≡ ok (Status.success, out)))
own_answer c t chan req b bs r called full =
    let places = Reach-Places r in
    let call = (places.sound).call chan req called in
    elim call.state [
      | inl h ↦
          absurd (ground (arith, full, blank_lem _ _ _ _ chan places.ps h (places.sound).awaited))
      | inr (out, e, le, q) ↦
          let same : b ∷ bs ≡ reply_bytes req out ∷ [] = ground (arith, full, q) in
          (
            ap (drop 1) same,
            (
              out,
              e,
              ap (λ x. (receive_co_resp req.header_id (body x) t.server).0) (cc (same))
                  ∙ ap (λ x. x.0)
                      (received_lem (co_resp req Status.success out) t.server
                        (omega (arith, call.fits, le)) (method_lem t.device req out e)),
            ),
          )
    ]

-- In every state that such callers and the loops come to, a round of the device's incoming loop
-- with something to read ends without an error or a panic, and so does a round of the server's:
-- neither end closes the connection.
pub loops_go_on :
    (c : Config) (t : System)
    → Reach c t
    → ((t.device.conn_in ≡ []) ⊎ ((incomming_step t.device).0 ≡ ok tt))
      × ((t.server.conn_in ≡ [])
          ⊎ ((es : List Effect) × ((Incoming.incomming_step c t.server).0 ≡ ok es)))
loops_go_on c t r =
    let places = Reach-Places r in
    (
      device_lem t places.ps places.back places.replied places.there places.asked places.sound,
      server_lem c t places.ps places.back places.replied places.there places.asked places.sound,
    )
  where
    device_lem :
        (t : System) (ps back replied there asked : List Pending)
        → IsSound t ps back replied there asked
        → (t.device.conn_in ≡ []) ⊎ ((incomming_step t.device).0 ≡ ok tt)
    device_lem t ps back replied [] asked s = inl s.there_eq
    device_lem t ps back replied (p ∷ there) asked s = inr (
        ap (λ x. x.0)
          (device_round_lem p (bytes_of (map asked_frame there)) t.device
            (there-IsServed t ps back replied there asked p s) s.there_eq))

    server_lem :
        (c : Config) (t : System) (ps back replied there asked : List Pending)
        → IsSound t ps back replied there asked
        → (t.server.conn_in ≡ [])
          ⊎ ((es : List Effect) × ((Incoming.incomming_step c t.server).0 ≡ ok es))
    server_lem c t ps [] replied there asked s = inl s.back_eq
    server_lem c t ps (p ∷ back) replied there asked s =
        let v : IsServed (reply_of t.device) p =
          (subst (All (IsServed (reply_of t.device))) s.split s.served).0 in
        let a : IsAwaited t.server.send_id_store t.server.resp_chans t.server.next_chan t.calls p =
          (subst
            (All (IsAwaited t.server.send_id_store t.server.resp_chans t.server.next_chan t.calls))
            s.split s.awaited).0 in
        let q =
          server_round_lem c p (bytes_of (map reply_frame back)) t.server v.fits v.out_le a.known
            s.back_eq in
        inr (q.0, ap (λ x. x.0) q.1)
