-- ===== src/Link/Notifications/Receiving.antt =====
-- A notification of the device, as the server takes it.
use rtio.Prelude.{
  ℕ, ◌+◌, ◌≡◌, refl, sym, ap, ◌∙◌, ◌==◌, Bool, some, List, [], ◌∷◌, ◌++◌, append-nil, length,
  replicate, ok, arith,
}
use rtio.Proto.Types.{device_send_req}
use rtio.Rest.Status
use rtio.Rest.Defs.{observed_get, constrained_get, constrained_post}
use rtio.Rest.Framing.{frame_header}
use rtio.Rest.Observe.{ObGetNotifyReq}
use rtio.Rest.Observe.Notify.{
  FitsObGetNotifyReq, ob_get_notify_req_bytes, decode_ob_get_notify_req_lem,
}
use rtio.Rest.Observe.Frames.{
  notify_req_frame, notify_resp_frame, encode_notify_resp_lem, decode_method-notify_req_bytes,
}
use rtio.SyncMap.{load, store, nat_eq}
use rtio.Server.State.{Session, Observa}
use rtio.Server.State.Reading.{read_full_lem}
use rtio.Server.Observing.{receive_ob_notify_req, send_ob_notify_resp, notify_resp}
use rtio.Server.Resources.{Service, device_send_request}
use rtio.Server.Incoming.{Config, reset}
use rtio.Server.Incoming.Faults.{incomming_step_lem}
use rtio.Device.State.{after}
use rtio.Link.Resources.{server_read}

-- The session once the observation `ob` has a notification, and the device is told to go on.
abbrev pub notified : ObGetNotifyReq → Observa → List ℕ → Session → Session
notified req ob rest s = record s {
  conn_in = rest;
  observa_store =
      store req.ob_id (record ob { notify_chan = ob.notify_chan ++ (req ∷ []) }) s.observa_store;
  outgoing_chan = s.outgoing_chan ++ (notify_resp_frame (notify_resp req Status.continue) ∷ []);
}

module _ (req : ObGetNotifyReq) (ob : Observa) (v : FitsObGetNotifyReq req) where
  receive_lem :
      (s : Session)
      → load req.ob_id s.observa_store ≡ some ob
      → receive_ob_notify_req
          (frame_header device_send_req req.header_id (3 + length req.payload))
          (ob_get_notify_req_bytes req)
          s
        ≡ (ok tt, notified req ob s.conn_in s)
  unfolding receive_ob_notify_req send_ob_notify_resp
  receive_lem s known =
      rw
        (
          decode_ob_get_notify_req_lem req v,
          receive_ob_notify_req,
          known,
          encode_notify_resp_lem (notify_resp req Status.continue) (replicate 8 0)
              (omega (arith, v)) refl,
        )
        refl

  request_lem :
      (b : Bool) (service : Service) (s : Session)
      → req.method ≡ observed_get
      → load req.ob_id s.observa_store ≡ some ob
      → s.conn_in ≡ ob_get_notify_req_bytes req
      → device_send_request b service
          (frame_header device_send_req req.header_id (3 + length req.payload))
          s
        ≡ (ok tt, notified req ob [] s)
  unfolding device_send_request
  request_lem b service s m known e =
      rw
        (
          read_full_lem (3 + length req.payload) s (ob_get_notify_req_bytes req) []
              (e ∙ sym (append-nil _)) (omega arith),
          decode_method-notify_req_bytes req v.method_lt v.code_lt,
          ap (λ k. k == constrained_get) m,
          ap (λ k. k == constrained_post) m,
          ap (λ k. k == observed_get) m,
        )
        (receive_lem (record s { conn_in = [] }) known)

  pub server_read_lem :
      (c : Config) (bytes : List ℕ) (s : Session)
      → req.method ≡ observed_get
      → load req.ob_id s.observa_store ≡ some ob
      → bytes ≡ notify_req_frame req
      → server_read c bytes s ≡ notified req ob [] s
  server_read_lem c bytes s m known e =
      let h = frame_header device_send_req req.header_id (3 + length req.payload) in
      let t : Session = record s { conn_in = ob_get_notify_req_bytes req } in
      ap (λ r. r.1)
        (incomming_step_lem c h (ob_get_notify_req_bytes req) (record s { conn_in = bytes })
          (omega (arith, v)) e)
      ∙ ap (λ r. (after r (λ u. reset)).1)
          (request_lem c.disable_deviceservice c.service t m known refl)
