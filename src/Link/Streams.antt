-- ===== src/Link/Streams.antt =====
-- A user who observes a resource of a device.
use rtio.Prelude.{
  ℕ, ◌+◌, ◌^◌, ◌≤◌, ◌<◌, ◌≡◌, refl, sym, ap, ◌∙◌, Outcome, ok, some, List, [], append-nil, map,
  length, arith, le→ltb_false, Bool-cases, inl, inr,
}
use rtio.Rest.Status
use rtio.Rest.Observe.{ObGetNotifyReq}
use rtio.SyncMap.{load, nat_eq}
use rtio.Server.State.{Fault, Session}
use rtio.Server.Observing.Counting.{create_lem, created, fresh, next_id}
use rtio.Server.Incoming.{Config}
use rtio.Device.State.{DeviceSession, ObHandler}
use rtio.Server.Sessions.{get_session_of}
use rtio.Rpc.Calls.{AccessServer, Req, capacity_less}
use rtio.Rpc.Observe.{
  Meanwhile, observe_session, established, then_destroy, ob_get_notify_serve, ob_get,
}
use rtio.Rpc.Observe.Frames.{arrived, numbered, up_to_last, all_go_on, ob_get_notify_serve_numbers}
use rtio.Link.Calls.{through}
use rtio.Link.Observations.{ob_get_establish_observes}

-- While the user's stream is served, these notifications arrive, and nothing else.
abbrev pub only : List ObGetNotifyReq → Meanwhile
only ns s = (map arrived ns, s)

serve_lem :
    (req : Req) (ns : List ObGetNotifyReq)
    → ob_get_notify_serve req 0 (map arrived ns) ≡ numbered req 0 (up_to_last ns)
unfolding ob_get_notify_serve
serve_lem req ns =
    ap (ob_get_notify_serve req 0) (sym (append-nil (map arrived ns)))
    ∙ (ob_get_notify_serve_numbers req 0 ns [] refl ∙ (elim (Bool-cases (all_go_on ns)) [
      | inl e ↦ rw e (append-nil _)
      | inr e ↦ rw e (append-nil _)
    ]))

established_lem :
    (ns : List ObGetNotifyReq) (req : Req) (id : ℕ) (r : Outcome Fault ℕ × Session)
    → r.0 ≡ ok Status.continue
    → (then_destroy id (established (only ns) req r)).0
      ≡ ok (ob_get_notify_serve req 0 (map arrived ns))
established_lem ns req id (r, s) e =
    ap (λ q. (then_destroy id (established (only ns) req (q, s))).0) e

observe_session_streams :
    (c : Config) (d : DeviceSession) (handler : ObHandler) (chan : ℕ) (checksum : List ℕ → ℕ)
    (now : ℕ) (req : Req) (ns : List ObGetNotifyReq) (s : Session)
    → checksum req.uri < 2 ^ 32
    → length req.payload ≤ capacity_less 7 s
    → 7 + length req.payload ≤ 4096
    → s.observa_count < 256
    → load (checksum req.uri) d.reg_ob_get_handler_map ≡ some handler
    → handler req.payload ≡ some chan
    → s.outgoing_chan ≡ []
    → d.outgoing_chan ≡ []
    → (observe_session
        (record { checksum = checksum; now = now; wait = through c d })
        (only ns)
        req
        s).0
      ≡ ok (numbered req 0 (up_to_last ns))
unfolding observe_session
observe_session_streams c d handler chan checksum now req ns s u cap fits room known h e empty =
    let sent =
      (ob_get_establish_observes c now (checksum req.uri) (fresh s) req.payload handler chan
        (created s) d u (omega arith) fits known h e empty).0 in
    rw (le→ltb_false (capacity_less 7 s) (length req.payload) cap, create_lem s room)
      (established_lem ns req (next_id s) _ sent ∙ ap ok (serve_lem req ns))

-- A user's ObGet for a device that has a session in the map and is at the other end of it, neither with
-- anything else to send, and has a handler of observations for the checksum of the URI, which gives a
-- channel for the payload: if the session has room for an observation, and the request passes the
-- capacity check and fits a frame, the user's stream gets one response for each notification that
-- then arrives, numbered from 0 in their order, up to the first that does not say Continue.
pub ob_get_streams :
    (c : Config) (d : DeviceSession) (handler : ObHandler) (chan : ℕ) (checksum : List ℕ → ℕ)
    (now k : ℕ) (req : Req) (ns : List ObGetNotifyReq) (a : AccessServer)
    → get_session_of req.device_id a.sessions ≡ some k
    → checksum req.uri < 2 ^ 32
    → length req.payload ≤ capacity_less 7 (a.objects k)
    → 7 + length req.payload ≤ 4096
    → (a.objects k).observa_count < 256
    → load (checksum req.uri) d.reg_ob_get_handler_map ≡ some handler
    → handler req.payload ≡ some chan
    → (a.objects k).outgoing_chan ≡ []
    → d.outgoing_chan ≡ []
    → (ob_get (record { checksum = checksum; now = now; wait = through c d }) (only ns) req a).0
      ≡ ok (numbered req 0 (up_to_last ns))
unfolding ob_get
ob_get_streams c d handler chan checksum now k req ns a found u cap fits room known h e empty =
    rw (found, ob_get)
      (observe_session_streams c d handler chan checksum now req ns (a.objects k) u cap fits room
        known h e empty)
