-- ===== src/Rpc/Observe.antt =====
-- ObGet of the AccessServer: an observation from its creation to its end.
pub mod Frames
pub mod Balance
use rtio.Prelude.{
  ℕ, ◌+◌, ◌-◌, ◌==◌, Bool, Option, none, some, List, [], ◌∷◌, ◌++◌, length, ltb, if◌then◌else◌, u16,
  u32, Outcome, ok, err, panic,
}
use rtio.Rest.Status
use rtio.Rest.Observe.{ObGetNotifyReq, header_len_ob_get_estab_req}
use rtio.Server.State.{Fault, is_send_timeout, Observa, Session, M, after, ◌>>=◌, return, raise}
use rtio.Server.Observing.{Arrival, create_observa, destroy_observa, ob_get_establish}
use rtio.Server.Sessions.{get_session_of}
use rtio.Rpc.Codes.{
  trans_to_rpc_code, code_deviceid_offline, code_deviceid_timeout, code_bad_request,
  code_internal_server_error, code_terminate, code_continue,
}
use rtio.Rpc.Calls.{AccessServer, Env, Req, capacity_less, update}

pub record ObGetResp : Type 0 where
  pub id : ℕ
  pub fid : ℕ  -- uint32
  pub code : ℕ
  pub payload : List ℕ

-- What the `select` of obGetNotifyServe takes: the end of the device's session, the end of the user's
-- stream, or a notification, `none` when the channel is closed.
pub data Notice : Type 0 where
  session_done stream_done : Notice
  notified : Option ObGetNotifyReq → Notice

abbrev pub ob_coded : Req → ℕ → ℕ → List ℕ → ObGetResp
ob_coded req fid code payload = record { id = req.id; fid = fid; code = code; payload = payload }

-- What is sent on the stream, over the notices that the loop sees, with the frame id that the
-- observation has.
unfoldable pub ob_get_notify_serve : Req → ℕ → List Notice → List ObGetResp
ob_get_notify_serve req fid [] = []
ob_get_notify_serve req fid (session_done ∷ ns) = ob_coded req fid code_deviceid_offline [] ∷ []
ob_get_notify_serve req fid (stream_done ∷ ns) = []
ob_get_notify_serve req fid (notified none ∷ ns) = ob_coded req fid code_terminate [] ∷ []
ob_get_notify_serve req fid (notified (some n) ∷ ns) =
    let rest = ob_get_notify_serve req (u32 (fid + 1)) ns in
    ob_coded req fid (trans_to_rpc_code n.code) n.payload
    ∷ (if trans_to_rpc_code n.code == code_continue then rest else [])

-- The notices, and what the rest of the program does to the session while the loop runs.
abbrev pub Meanwhile : Type 0
Meanwhile = Session → List Notice × Session

abbrev pub established :
    Meanwhile → Req → Outcome Fault ℕ × Session → Outcome Fault (List ObGetResp) × Session
established notices req (err e, s) =
    let code = if is_send_timeout e then code_deviceid_timeout else code_internal_server_error in
    (ok (ob_coded req 0 code [] ∷ []), s)
established notices req (panic, s) = (panic, s)
established notices req (ok status, s) =
    if status == Status.continue
    then (let (ns, t) = notices s in (ok (ob_get_notify_serve req 0 ns), t))
    else (ok (ob_coded req 0 (trans_to_rpc_code status) [] ∷ []), s)

-- The deferred DestroyObserva, which runs after a panic too.
abbrev pub then_destroy :
    ℕ → Outcome Fault (List ObGetResp) × Session → Outcome Fault (List ObGetResp) × Session
then_destroy id (r, s) = (r, (destroy_observa id s).1)

-- What ObGet does with the session of the device: what it sends on the stream, or its error.
unfoldable pub observe_session : Env → Meanwhile → Req → M (List ObGetResp)
unfolding ob_get_notify_serve
observe_session env notices req s =
    if ltb (capacity_less header_len_ob_get_estab_req s) (length req.payload)
    then (ok (ob_coded req 0 code_bad_request [] ∷ []), s)
    else after (create_observa s) λ ob t. then_destroy ob.id (
        established notices req
          (ob_get_establish env.now (env.checksum req.uri) ob req.payload env.wait t))

abbrev observe_found :
    AccessServer → Env → Meanwhile → Req → Option ℕ → Outcome Fault (List ObGetResp) × AccessServer
observe_found a env notices req none = (ok (ob_coded req 0 code_deviceid_offline [] ∷ []), a)
observe_found a env notices req (some h) =
    let (result, s) = observe_session env notices req (a.objects h) in
    (result, record a { objects = update a.objects h s })

unfoldable pub ob_get :
    Env → Meanwhile → Req → AccessServer → Outcome Fault (List ObGetResp) × AccessServer
unfolding observe_session
ob_get env notices req a = observe_found a env notices req (get_session_of req.device_id a.sessions)
