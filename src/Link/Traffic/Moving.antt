-- ===== src/Link/Traffic/Moving.antt =====
-- What the moves of the loops do to the requests in flight.
use rtio.Prelude.{
  ℕ, ◌+◌, ◌≤◌, ◌≡◌, refl, sym, ap, subst, ◌∙◌, inl, inr, ◌==◌, ==_iff, Bool-cases, Option, none,
  some, List, [], ◌∷◌, ◌++◌, append-nil, append_assoc, map, length, drop, Outcome, ok, arith,
}
use rtio.Proto.Types.{server_send_req, server_send_resp}
use rtio.Rest.Status
use rtio.Rest.Defs.{constrained_get, constrained_post}
use rtio.Rest.Framing.{frame_header}
use rtio.Rest.Co.RoundTrip.{FitsReq, co_req_bytes}
use rtio.SyncMap.{load, nat_eq}
use rtio.TimeKv
use rtio.Server.State.{Session, after}
use rtio.Server.Requesting.{push_chan}
use rtio.Server.Requesting.Routing.{server_send_respone_pushes}
use rtio.Server.Serving.Sending.{bytes_of}
use rtio.Server.Incoming.{Config, Effect, reset}
use rtio.Server.Incoming
use rtio.Server.Incoming.Faults
use rtio.Device.State.{DeviceFault, DeviceSession, Handler}
use rtio.Device.Answering.{co_resp}
use rtio.Device.Answering.Calls.{Serves, answered, server_send_request_replies}
use rtio.Device.Incoming.{incomming_step}
use rtio.Device.Incoming.Rounds.{device_incomming_step_lem}
use rtio.Link.Traffic.{System, handler_of, answer_by, reply_of}
use rtio.Link.Traffic.Invariant.{
  All, Pending, asked_frame, reply_frame, reply_bytes, IsServed, IsSound,
}

bytes_of-snoc :
    (f : Pending → List ℕ) (ps : List Pending) (p : Pending)
    → bytes_of (map f (ps ++ (p ∷ []))) ≡ bytes_of (map f ps) ++ f p
bytes_of-snoc f [] p = append-nil (f p)
bytes_of-snoc f (q ∷ ps) p =
    ap (λ b. f q ++ b) (bytes_of-snoc f ps p) ∙ sym (append_assoc (f q) (bytes_of (map f ps)) (f p))

pub map-snoc :
    (f : Pending → List ℕ) (ps : List Pending) (p : Pending)
    → map f (ps ++ (p ∷ [])) ≡ map f ps ++ (f p ∷ [])
map-snoc f [] p = refl
map-snoc f (q ∷ ps) p = ap (λ l. f q ∷ l) (map-snoc f ps p)

-- The target of `server_writes`.
abbrev pub written : System → List ℕ → List (List ℕ) → System
written t f fs = record t {
  server = record (t.server) { outgoing_chan = fs };
  device = record (t.device) { conn_in = t.device.conn_in ++ f };
}

-- The target of `device_writes`.
abbrev pub replied_to : System → List ℕ → List (List ℕ) → System
replied_to t f fs = record t {
  server = record (t.server) { conn_in = t.server.conn_in ++ f };
  device = record (t.device) { outgoing_chan = fs };
}

module _ (t : System) (ps back replied there asked : List Pending) (p : Pending) (f : List ℕ)
    (fs : List (List ℕ)) where
  pub server_writes-IsSound :
      IsSound t ps back replied there (p ∷ asked)
      → t.server.outgoing_chan ≡ f ∷ fs
      → IsSound (written t f fs) ps back replied (there ++ (p ∷ [])) asked
  server_writes-IsSound s e =
      let same : f ∷ fs ≡ asked_frame p ∷ map asked_frame asked = sym e ∙ s.asked_eq in
      record {
        split =
            s.split ∙ ap (λ l. back ++ (replied ++ l)) (sym (append_assoc there (p ∷ []) asked));
        asked_eq = ap (drop 1) same;
        there_eq =
            ap (λ b. b ++ f) s.there_eq
            ∙ (ap (λ b. bytes_of (map asked_frame there) ++ b) (cc (same))
                ∙ sym (bytes_of-snoc asked_frame there p));
        replied_eq = s.replied_eq;
        back_eq = s.back_eq;
        served = s.served;
        awaited = s.awaited;
        distinct = s.distinct;
        call = s.call;
      }

  pub device_writes-IsSound :
      IsSound t ps back (p ∷ replied) there asked
      → t.device.outgoing_chan ≡ f ∷ fs
      → IsSound (replied_to t f fs) ps (back ++ (p ∷ [])) replied there asked
  device_writes-IsSound s e =
      let same : f ∷ fs ≡ reply_frame p ∷ map reply_frame replied = sym e ∙ s.replied_eq in
      record {
        split = s.split ∙ sym (append_assoc back (p ∷ []) (replied ++ (there ++ asked)));
        asked_eq = s.asked_eq;
        there_eq = s.there_eq;
        replied_eq = ap (drop 1) same;
        back_eq =
            ap (λ b. b ++ f) s.back_eq
            ∙ (ap (λ b. bytes_of (map reply_frame back) ++ b) (cc (same))
                ∙ sym (bytes_of-snoc reply_frame back p));
        served = s.served;
        awaited = s.awaited;
        distinct = s.distinct;
        call = s.call;
      }

handler_lem :
    (o : Option Handler) (payload out : List ℕ)
    → answer_by o payload ≡ some out
    → (handler : Handler) × (o ≡ some handler) × (handler payload ≡ some out)
handler_lem none payload out e = absurd (ground (arith, e))
handler_lem (some h) payload out e = (h, refl, e)

pub handled_lem :
    (d : DeviceSession) (method uri : ℕ) (payload out : List ℕ)
    → answer_by (handler_of d method uri) payload ≡ some out
    → (handler : Handler) × Serves d method uri handler × (handler payload ≡ some out)
handled_lem d method uri payload out e = elim (Bool-cases (method == constrained_get)) [
  | inl g ↦
      let q = handler_lem (load uri d.reg_get_handler_map) payload out (rw g at e) in
      (q.0, inl ((==_iff method constrained_get).0 g, q.1), q.2)
  | inr n ↦ elim (Bool-cases (method == constrained_post)) [
    | inl g ↦
        let q = handler_lem (load uri d.reg_post_handler_map) payload out (rw (n, g) at e) in
        (q.0, inr ((==_iff method constrained_post).0 g, q.1), q.2)
    | inr m ↦ absurd (ground (arith, rw (n, m) at e))
  ]
]

-- A round of the device, where a request is the first on its connection.
pub device_round_lem :
    (p : Pending) (rest : List ℕ) (d : DeviceSession)
    → IsServed (reply_of d) p
    → d.conn_in ≡ asked_frame p ++ rest
    → incomming_step d ≡ (ok tt, answered d rest (co_resp p.req Status.success p.out))
device_round_lem p rest d v e =
    let h = handled_lem d p.req.method p.req.uri p.req.payload p.out v.reply in
    device_incomming_step_lem
      (frame_header server_send_req p.req.header_id (5 + length p.req.payload))
      (co_req_bytes p.req ++ rest) d (omega (arith, v.fits)) e
    ∙ server_send_request_replies p.req h.0 p.out rest
        (record d { conn_in = co_req_bytes p.req ++ rest }) v.fits h.1 refl h.2 v.out_le

-- A round of the server, where an answer is the first on its connection.
pub server_round_lem :
    (c : Config) (p : Pending) (rest : List ℕ) (s : Session)
    → FitsReq p.req
    → 1 + length p.out ≤ 4096
    → TimeKv.get p.req.header_id s.send_id_store ≡ some p.chan
    → s.conn_in ≡ reply_frame p ++ rest
    → (es : List Effect) × (Incoming.incomming_step c s
        ≡ (ok es, push_chan p.chan (reply_bytes p.req p.out) (record s { conn_in = rest })))
server_round_lem c p rest s v le k e =
    let h = frame_header server_send_resp p.req.header_id (1 + length p.out) in
    let xs = reply_bytes p.req p.out in
    (
      _,
      Faults.incomming_step_lem c h (xs ++ rest) s (omega (arith, v)) e
          ∙ ap (λ r. after r (λ u. reset))
              (server_send_respone_pushes h xs rest p.chan (record s { conn_in = xs ++ rest }) refl
                (omega arith) k),
    )

All-rest {ℓ} : {A : Type ℓ} (P : A → Type 0) (xs ys : List A) → All P (xs ++ ys) → All P ys
All-rest P [] ys h = h
All-rest P (x ∷ xs) ys h = All-rest P xs ys h.1

-- The target of `device_reads`.
abbrev pub device_read : System → System
device_read t = record t { device = (incomming_step t.device).1 }

abbrev pub server_read : Config → System → System
server_read c t = record t { server = (Incoming.incomming_step c t.server).1 }

-- The first request on the connection to the device is one that it serves.
pub there-IsServed :
    (t : System) (ps back replied there asked : List Pending) (p : Pending)
    → IsSound t ps back replied (p ∷ there) asked
    → IsServed (reply_of t.device) p
there-IsServed t ps back replied there asked p s =
    (All-rest (IsServed (reply_of t.device)) replied _ (
      All-rest (IsServed (reply_of t.device)) back _
        (subst (All (IsServed (reply_of t.device))) s.split s.served))).0

pub device_reads-IsSound :
    (t : System) (ps back replied there asked : List Pending) (p : Pending)
    → IsSound t ps back replied (p ∷ there) asked
    → IsSound (device_read t) ps back (replied ++ (p ∷ [])) there asked
device_reads-IsSound t ps back replied there asked p s =
    let v = there-IsServed t ps back replied there asked p s in
    let rest = bytes_of (map asked_frame there) in
    subst
      (λ (r : Outcome DeviceFault (Unit {0}) × DeviceSession).
        IsSound (record t { device = r.1 }) ps back (replied ++ (p ∷ [])) there asked)
      (sym (device_round_lem p rest t.device v s.there_eq))
      (record {
        split =
            s.split ∙ ap (λ l. back ++ l) (sym (append_assoc replied (p ∷ []) (there ++ asked)));
        asked_eq = s.asked_eq;
        there_eq = refl;
        replied_eq =
            ap (λ l. l ++ (reply_frame p ∷ [])) s.replied_eq ∙ sym (map-snoc reply_frame replied p);
        back_eq = s.back_eq;
        served = s.served;
        awaited = s.awaited;
        distinct = s.distinct;
        call = s.call;
      })
