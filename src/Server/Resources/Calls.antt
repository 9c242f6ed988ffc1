-- ===== src/Server/Resources/Calls.antt =====
-- How the server answers a request of the device that the device service takes.
use rtio.Prelude.{
  ℕ, ◌+◌, ◌≤◌, ◌≡◌, refl, ap, ◌∙◌, ◌⊎◌, inl, inr, ◌==◌, true, false, some, List, [], ◌∷◌, ◌++◌,
  length, replicate, length-replicate, ok, arith, u16, u32,
}
use rtio.Proto.Types.{Error, device_send_req, device_send_resp}
use rtio.Proto.Header.{Header}
use rtio.Rest.Status
use rtio.Rest.Defs.{constrained_get, constrained_post}
use rtio.Rest.Framing.{frame_header}
use rtio.Rest.Co.{CoReq, CoResp}
use rtio.Rest.Co.RoundTrip.{FitsReq, FitsResp, co_req_bytes, decode_co_req_lem}
use rtio.Rest.Co.Frames.{co_resp_frame, device_resp_frame, decode_method-co_req_bytes}
use rtio.Utils.{gen_uint32_id}
use rtio.Server.State.{Session}
use rtio.Server.State.Reading.{read_full_lem}
use rtio.Server.Resources.{
  Service, ServiceReq, replied, access_resource, send_co_resp, receive_co_req, device_send_request,
}

-- What the device service is asked.
abbrev pub asked : ℕ → CoReq → Session → ServiceReq
asked random req s = record {
  id = u32 random;
  device_id = s.device_id;
  uri = req.uri;
  payload = req.payload;
}

-- The service is there, and answers OK.
pub record Provides (service : Service) (random : ℕ) (req : CoReq) (out : List ℕ) (s : Session)
    : Type 0 where
  pub has_client : service.has_client ≡ true
  pub has_random : service.random ≡ some random
  pub replies :
      ((req.method ≡ constrained_get) × (service.get (asked random req s) ≡ replied 1 out))
      ⊎ ((req.method ≡ constrained_post) × (service.post (asked random req s) ≡ replied 1 out))

abbrev pub response : CoReq → ℕ → List ℕ → CoResp
response req code payload = record {
  header_id = req.header_id;
  method = req.method;
  code = code;
  payload = payload;
}

access_resource_lem :
    (service : Service) (random : ℕ) (req : CoReq) (out : List ℕ) (s : Session)
    → Provides service random req out s
    → access_resource service req.method (asked random req s) ≡ ok (1, out)
unfolding access_resource
access_resource_lem service random req out s p = elim p.replies [
  | inl (m, q) ↦
      rw (p.has_client, ap (λ k. k == constrained_post) m, ap (λ k. k == constrained_get) m, q) refl
  | inr (m, q) ↦ rw (p.has_client, ap (λ k. k == constrained_post) m, q) refl
]

send_co_resp_lem :
    (resp : CoResp) (s : Session)
    → FitsResp resp
    → send_co_resp resp s ≡ (
      ok tt,
      record s { outgoing_chan = s.outgoing_chan ++ (co_resp_frame device_send_resp resp ∷ []) },
    )
unfolding send_co_resp
send_co_resp_lem resp s v = rw (
    device_resp_frame resp v (replicate (u16 (6 + u16 (length resp.payload))) 0)
      (length-replicate (u16 (6 + u16 (length resp.payload))) 0 ∙ omega (arith, v)))

drawn_lem :
    (service : Service) (random : ℕ)
    → service.random ≡ some random
    → gen_uint32_id {E = Error} service.random ≡ ok (u32 random)
unfolding gen_uint32_id
drawn_lem service random e = ap (gen_uint32_id {E = Error}) e

receive_co_req_lem :
    (service : Service) (random : ℕ) (h : Header) (req : CoReq) (out : List ℕ) (s : Session)
    → FitsReq req
    → Provides service random req out s
    → 1 + length out ≤ 4096
    → h.id ≡ req.header_id
    → receive_co_req false service h (co_req_bytes req) s ≡ (
      ok tt,
      record s {
        outgoing_chan =
            s.outgoing_chan
            ++ (co_resp_frame device_send_resp (response req Status.success out) ∷ []);
      },
    )
unfolding receive_co_req
receive_co_req_lem service random h req out s v p le i =
    let id_lem = drawn_lem service random p.has_random in
    rw
      (
        i,
        decode_co_req_lem req v,
        id_lem,
        access_resource_lem service random req out s p,
        send_co_resp_lem (response req Status.success out) s (omega (arith, v)),
      )
      refl

-- The server sends the service's answer with the status OK. It does not look at whether the device
-- was verified.
pub device_send_request_replies :
    (service : Service) (random : ℕ) (req : CoReq) (out rest : List ℕ) (s : Session)
    → FitsReq req
    → Provides service random req out s
    → s.conn_in ≡ co_req_bytes req ++ rest
    → 1 + length out ≤ 4096
    → device_send_request false service
        (frame_header device_send_req req.header_id (5 + length req.payload))
        s
      ≡ (
        ok tt,
        record s {
          conn_in = rest;
          outgoing_chan =
              s.outgoing_chan
              ++ (co_resp_frame device_send_resp (response req Status.success out) ∷ []);
        },
      )
unfolding device_send_request
device_send_request_replies service random req out rest s v p e le =
    let h = frame_header device_send_req req.header_id (5 + length req.payload) in
    let q =
      receive_co_req_lem service random h req out (record s { conn_in = rest }) v
        (record { has_client = p.has_client; has_random = p.has_random; replies = p.replies }) le
        refl in
    rw
      (
        read_full_lem (5 + length req.payload) s (co_req_bytes req) rest e (omega arith),
        decode_method-co_req_bytes req v.method_lt,
      )
      (elim p.replies [
        | inl (m, r) ↦ rw (ap (λ k. k == constrained_get) m) q
        | inr (m, r) ↦ rw (ap (λ k. k == constrained_get) m, ap (λ k. k == constrained_post) m) q
      ])
