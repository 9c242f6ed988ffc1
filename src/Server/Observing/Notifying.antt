-- ===== src/Server/Observing/Notifying.antt =====
-- What a notification does, and how the device reads the answer.
use rtio.Prelude.{
  ℕ, ◌<◌, ◌≡◌, refl, none, some, List, [], ◌∷◌, ◌++◌, length, replicate, ok, panic, arith, lt→ltb,
  append-nil,
}
use rtio.Proto.Types.{device_send_resp}
use rtio.Proto.Header.{Header}
use rtio.Rest.Status
use rtio.Rest.Observe.{ObGetNotifyReq, decode_ob_get_notify_req, decode_ob_get_notify_resp}
use rtio.Rest.Observe.Notify.{FitsObGetNotifyResp, ob_get_notify_resp_delivered}
use rtio.Rest.Framing.{receive, frame_header}
use rtio.SyncMap.{load, store, nat_eq}
use rtio.Server.State.{Observa, Session}
use rtio.Server.Observing.{receive_ob_notify_req, send_ob_notify_resp, notify_resp}

-- A notification of fewer than three bytes panics: the error path logs a field of the nil request.
receive_ob_notify_req_panics :
    (header : Header) (buf : List ℕ) (s : Session)
    → length buf < 3
    → (receive_ob_notify_req header buf s).0 ≡ panic
unfolding receive_ob_notify_req decode_ob_get_notify_req
receive_ob_notify_req_panics header buf s h = rw (lt→ltb (length buf) 3 h, receive_ob_notify_req)

-- The fields that a notification has when it comes off the wire.
pub record IsWired (req : ObGetNotifyReq) : Type 0 where
  pub method_lt : req.method < 16
  pub id_lt : req.header_id < 65536
  pub ob_id_lt : req.ob_id < 65536

-- A session with one more frame to send.
abbrev pub answered : Session → List ℕ → Session
answered s frame = record s { outgoing_chan = s.outgoing_chan ++ (frame ∷ []) }

module _ (header : Header) (buf : List ℕ) (req : ObGetNotifyReq) (s : Session)
    (decoded : decode_ob_get_notify_req header.id buf ≡ ok req) (v : IsWired req) where
  fits : (code : ℕ) → code < 16 → FitsObGetNotifyResp (notify_resp req code)
  fits code lt = omega (arith, v)

  -- A decoded notification for an observation in the store is appended to what its observer reads,
  -- and answered by one frame, which the device decodes as a response with the same ids and the
  -- code Continue. Nothing else changes.
  notify_known :
      (ob : Observa)
      → load req.ob_id s.observa_store ≡ some ob
      → (frame : List ℕ) × (receive decode_ob_get_notify_resp frame
          ≡ ok (frame_header device_send_resp req.header_id 3, notify_resp req Status.continue, []))
        × (receive_ob_notify_req header buf s ≡ (
          ok tt,
          answered
              (record s {
                observa_store =
                    store req.ob_id
                      (record ob { notify_chan = ob.notify_chan ++ (req ∷ []) })
                      s.observa_store;
              })
              frame,
        ))
  unfolding receive_ob_notify_req send_ob_notify_resp
  notify_known ob known =
      let (frame, enc, dec) =
        ob_get_notify_resp_delivered (notify_resp req Status.continue) (fits 3 (omega arith))
          (replicate 8 0) [] refl in
      (frame, rw (append-nil frame) at dec, rw (decoded, receive_ob_notify_req, known, enc))

  -- A decoded notification for an observation that is not in the store is answered by one frame,
  -- which the device decodes as a response with the same ids and the code Terminate. Nothing else
  -- changes.
  notify_unknown :
      load req.ob_id s.observa_store ≡ none
      → (frame : List ℕ) × (receive decode_ob_get_notify_resp frame
          ≡ ok
              (frame_header device_send_resp req.header_id 3, notify_resp req Status.terminate, []))
        × (receive_ob_notify_req header buf s ≡ (ok tt, answered s frame))
  unfolding receive_ob_notify_req send_ob_notify_resp
  notify_unknown gone =
      let (frame, enc, dec) =
        ob_get_notify_resp_delivered (notify_resp req Status.terminate) (fits 4 (omega arith))
          (replicate 8 0) [] refl in
      (frame, rw (append-nil frame) at dec, rw (decoded, receive_ob_notify_req, gone, enc))
