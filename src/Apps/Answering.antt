-- ===== src/Apps/Answering.antt =====
-- A device at one end, the server, and the device service of examples/ at the other.
use rtio.Prelude.{
  ℕ, ◌+◌, ◌^◌, ◌≤◌, ◌<◌, ◌≡◌, ◌≢◌, refl, ◌⊎◌, inl, inr, false, none, List, [], length, ==_refl,
  ne→==_false, sym, ap, some, ok, arith,
}
use rtio.Rest.Defs.{constrained_get, constrained_post}
use rtio.Proto.Header.{Header}
use rtio.Proto.Verify.{VerifydReq, decode_verify_req_body}
use rtio.Proto.Verify.RoundTrip.{decode_verify_req_body_sound}
use rtio.Server.State.{Session}
use rtio.Server.Resources.{ServiceReq, replied}
use rtio.Server.Incoming.{Config}
use rtio.Device.State.{DeviceSession}
use rtio.Device.Requesting.{get, post}
use rtio.Device.Requesting.Sending.{request}
use rtio.Server.Resources.Calls.{asked}
use rtio.Link.Resources.{through_server, device_calls_answered}
use rtio.Apps.{
  example1, example2, text_for, verb_get, verb_post, answer_for, service_get, service_post,
  example_service, verify,
}

-- One of the two paths of the service.
abbrev pub IsPath : List ℕ → Type 0
IsPath path = (path ≡ example1) ⊎ (path ≡ example2)

answer_lem :
    (uri_hash : List ℕ → ℕ) (verb path : List ℕ) (req : ServiceReq)
    → uri_hash example1 ≢ uri_hash example2
    → IsPath path
    → req.uri ≡ uri_hash path
    → answer_for uri_hash verb req ≡ replied 1 (text_for verb path)
answer_lem uri_hash verb path req n (inl p) e = rw (e, p, ==_refl (uri_hash example1)) refl
answer_lem uri_hash verb path req n (inr p) e =
    rw
      (
        e,
        p,
        ne→==_false (uri_hash example2) (uri_hash example1) (λ q. n (sym q)),
        ==_refl (uri_hash example2),
      )
      refl

text_fits :
    (path : List ℕ)
    → IsPath path
    → (1 + length (text_for verb_get path) ≤ 4096) × (1 + length (text_for verb_post path) ≤ 4096)
text_fits path (inl p) = rw p (omega arith, omega arith)
text_fits path (inr p) = rw p (omega arith, omega arith)

-- Get and Post of a device for either path of the device service, with the server in between and no
-- other traffic: both return what the service says of that path, and no error, where the hashes of
-- the paths differ and the request fits a frame.
pub example_service_answers :
    (uri_hash : List ℕ → ℕ) (c : Config) (random now : ℕ) (path payload : List ℕ) (s : Session)
    (d : DeviceSession)
    → uri_hash example1 ≢ uri_hash example2
    → IsPath path
    → uri_hash path < 2 ^ 32
    → 5 + length payload ≤ 4096
    → c.disable_deviceservice ≡ false
    → c.service ≡ example_service uri_hash random
    → d.outgoing_chan ≡ []
    → s.outgoing_chan ≡ []
    → ((get now (uri_hash path) payload (through_server c s) d).0
        ≡ ok (text_for verb_get path, none))
      × ((post now (uri_hash path) payload (through_server c s) d).0
          ≡ ok (text_for verb_post path, none))
unfolding service_get service_post
example_service_answers uri_hash c random now path payload s d n p u fits enabled svc e empty =
    device_calls_answered c random now (uri_hash path) payload (text_for verb_get path)
      (text_for verb_post path) s d u fits enabled
      (record {
        has_client = ap (λ v. v.has_client) svc;
        has_random = ap (λ v. v.random) svc;
        replies = inl (
          refl,
          rw svc (
              answer_lem uri_hash verb_get path
                (asked random (request d (uri_hash path) constrained_get payload) s) n p refl),
        );
      })
      (record {
        has_client = ap (λ v. v.has_client) svc;
        has_random = ap (λ v. v.random) svc;
        replies = inr (
          refl,
          rw svc (
              answer_lem uri_hash verb_post path
                (asked random (request d (uri_hash path) constrained_post payload) s) n p refl),
        );
      })
      (text_fits path p).0 (text_fits path p).1 e empty

-- For every request that receiveVerifyReq decodes, Verify of examples/deviceverifier passes and does not panic.
pub verify_passes :
    (h : Header) (buf : List ℕ) (req : VerifydReq)
    → decode_verify_req_body (some h) buf ≡ ok req
    → verify req.device_secret ≡ ok 1
unfolding verify
verify_passes h buf req e = ground (arith, decode_verify_req_body_sound h buf req e)
