-- ===== src/Link/Handshake.antt =====
-- What a device does first on a new connection, and what the server makes of it.
use rtio.Prelude.{
  ℕ, ◌≤◌, ◌<◌, ◌≡◌, refl, ap, ◌∙◌, ◌≢◌, ne→==_false, true, some, List, [], ◌∷◌, ◌++◌, append-nil,
  length, Lacks, ok, arith, u16,
}
use rtio.Proto.Types.{device_verify_req, device_ping_req}
use rtio.Proto.Header.Layout.{header_bytes}
use rtio.Proto.Verify.{VerifydReq}
use rtio.Proto.Verify.RoundTrip.{
  IsAllowed, verify_data, verify_frame, sent_header, received, encode_verify_req_lem,
  decode_body_lem, verify_data-length,
}
use rtio.Proto.Ping.{PingReq}
use rtio.Proto.Ping.RoundTrip.{encode_ping_req_lem}
use rtio.Proto.Ping
use rtio.Utils.{gen_uint16_id}
use rtio.Server.State.{after, Session, new_session, calcu_check_senconds}
use rtio.Server.Verifying.Safety.{Passes, receive_verify_req_accepts}
use rtio.Server.Pinging.Outcomes.{ping_answered_lem}
use rtio.Server.Incoming.{
  Config, Effect, passed, reset, add_session, reset_heartbeat, done, incomming_step, tcp_incomming,
}
use rtio.Server.Incoming.Faults.{incomming_step_lem}
use rtio.Device.State.{DeviceSession}
use rtio.Device.Serving.{serve_start, verify, ping_remote_set, request_header}
use rtio.Server.Serving.Sending.{bytes_of}

-- A device with an id of 36 bytes and no colon, and a secret of 24 to 64 bytes.
pub record IsRegistered (d : DeviceSession) : Type 0 where
  pub id_len_eq : length d.device_id ≡ 36
  pub id_lacks : Lacks b':' d.device_id
  pub secret_ge : 24 ≤ length d.device_secret
  pub secret_le : length d.device_secret ≤ 64

abbrev pub verify_of : DeviceSession → ℕ → VerifydReq
verify_of d id = record {
  header = request_header device_verify_req id;
  cap_level = 1;
  device_id = d.device_id;
  device_secret = d.device_secret;
}

verify_of-IsAllowed :
    (d : DeviceSession) (id : ℕ) → IsRegistered d → id < 65536 → IsAllowed (verify_of d id)
verify_of-IsAllowed d id v h = record {
  version_lt = omega arith;
  type_lt = omega arith;
  id_lt = h;
  code_lt = omega arith;
  cap_level_lt = omega arith;
  device_id_len_eq = v.id_len_eq;
  device_id_lacks = v.id_lacks;
  secret_ge = v.secret_ge;
  secret_le = v.secret_le;
}

-- A ping that asks for an interval of 60 seconds.
abbrev ping_60 : ℕ → PingReq
ping_60 id = record { header = request_header device_ping_req id; timeout = 60 }

abbrev ping_60_frame : ℕ → List ℕ
ping_60_frame id = header_bytes (Ping.RoundTrip.sent_header (ping_60 id)) ++ (0 ∷ 60 ∷ [])

-- The two frames that serve puts out first.
pub serve_start_frames :
    (d : DeviceSession) (r q : ℕ)
    → IsRegistered d
    → d.heartbeat_seconds ≢ 0
    → serve_start (some r) (some q) d ≡ (
      ok tt,
      record d {
        heartbeat_seconds = 60;
        outgoing_chan =
            (d.outgoing_chan ++ (verify_frame (verify_of d (u16 r)) ∷ []))
            ++ (ping_60_frame (u16 q) ∷ []);
      },
    )
unfolding serve_start verify ping_remote_set gen_uint16_id
serve_start_frames d r q v h =
    rw
      (
        ne→==_false d.heartbeat_seconds 0 h,
        encode_verify_req_lem (verify_of d (u16 r)) (verify_of-IsAllowed d (u16 r) v (omega arith)),
        encode_ping_req_lem (ping_60 (u16 q)) 60 refl (omega arith),
      )
      refl

-- The server reads the verify request of the device, and accepts it.
verify_round :
    (c : Config) (d : DeviceSession) (id : ℕ) (rest : List ℕ) (s : Session)
    → IsRegistered d
    → id < 65536
    → s.conn_in ≡ verify_frame (verify_of d id) ++ rest
    → Passes c.disable_deviceverify c.verifier (received (verify_of d id))
    → incomming_step c s ≡ (
      ok (add_session d.device_id ∷ []),
      record s {
        conn_in = rest;
        verify_pass = true;
        device_id = d.device_id;
        body_cap_size = 1024;
      },
    )
verify_round c d id rest s v h e p =
    let req = verify_of d id in
    let a = verify_of-IsAllowed d id v h in
    let buf : List ℕ = 64 ∷ verify_data req in
    incomming_step_lem c (sent_header req) (buf ++ rest) s (omega (arith, v)) e
    ∙ ap (λ r. after r passed)
        (receive_verify_req_accepts c.disable_deviceverify c.verifier (received req).header
          (record s { conn_in = buf ++ rest }) (received req) buf rest refl
          (omega (arith, verify_data-length req a)) (decode_body_lem (received req).header req a)
          (omega arith) p)

-- And then the ping, which sets its interval.
ping_round :
    (c : Config) (id : ℕ) (s : Session)
    → id < 65536
    → s.conn_in ≡ ping_60_frame id
    → (frame : List ℕ) × (incomming_step c s ≡ (
      ok (reset_heartbeat 90 ∷ []),
      record s {
        conn_in = [];
        heartbeat_seconds = 60;
        outgoing_chan = s.outgoing_chan ++ (frame ∷ []);
      },
    ))
unfolding calcu_check_senconds
ping_round c id s h e =
    let sent = Ping.RoundTrip.sent_header (ping_60 id) in
    let q =
      ping_answered_lem sent 0 60 [] (record s { conn_in = 0 ∷ 60 ∷ [] }) h refl (ground arith)
        refl in
    (
      q.0,
      incomming_step_lem c sent (0 ∷ 60 ∷ []) s (omega arith) e
          ∙ ap (λ r. after r (λ u. reset)) q.2,
    )

-- The session after the first round.
abbrev verified : DeviceSession → List ℕ → Session → Session
verified d rest s = record s {
  conn_in = rest;
  verify_pass = true;
  device_id = d.device_id;
  body_cap_size = 1024;
}

-- Two rounds of the loop that go on.
two_rounds :
    (c : Config) (es fs : List Effect) (s t u : Session)
    → incomming_step c s ≡ (ok es, t)
    → incomming_step c t ≡ (ok fs, u)
    → tcp_incomming (c ∷ c ∷ []) [] s ≡ record { exit = done; effects = es ++ fs; session = u }
unfolding tcp_incomming
two_rounds c es fs s t u e f = rw (e, f) refl

-- A registered device whose heartbeat is not 0 and with nothing else to send starts to serve, and a
-- new session of the server reads what it sends, where the server is as in `c`, and passes the verify request.
-- Then two rounds of the server's loop end with no error: it adds the session under the id of
-- the device and sets the heartbeat timer to 90 seconds, one and a half times the 60 seconds that
-- both ends then have as the interval. The session is verified, with nothing left to read.
pub handshake :
    (c : Config) (d : DeviceSession) (r q : ℕ)
    → IsRegistered d
    → d.heartbeat_seconds ≢ 0
    → d.outgoing_chan ≡ []
    → Passes c.disable_deviceverify c.verifier (received (verify_of d (u16 r)))
    → let sent = (serve_start (some r) (some q) d).1 in
      let t = tcp_incomming (c ∷ c ∷ []) [] (new_session (bytes_of sent.outgoing_chan)) in
      (t.exit ≡ done)
      × (t.effects ≡ add_session d.device_id ∷ reset_heartbeat 90 ∷ [])
      × (t.session.verify_pass ≡ true)
      × (t.session.device_id ≡ d.device_id)
      × (t.session.conn_in ≡ [])
      × (t.session.heartbeat_seconds ≡ sent.heartbeat_seconds)
unfolding new_session
handshake c d r q v h e p =
    let rest = ping_60_frame (u16 q) in
    let bytes = verify_frame (verify_of d (u16 r)) ++ rest in
    let sent =
      ap bytes_of (ap (λ r. r.1.outgoing_chan) (serve_start_frames d r q v h))
      ∙ (ap (λ o. bytes_of ((o ++ (verify_frame (verify_of d (u16 r)) ∷ [])) ++ (rest ∷ []))) e
          ∙ ap (λ b. verify_frame (verify_of d (u16 r)) ++ b) (append-nil rest)) in
    let one = verify_round c d (u16 r) rest (new_session bytes) v (omega arith) refl p in
    let two = ping_round c (u16 q) (verified d rest (new_session bytes)) (omega arith) refl in
    rw (sent, two_rounds c _ _ _ _ _ one two.1, serve_start_frames d r q v h)
      (refl, refl, refl, refl, refl, refl)
