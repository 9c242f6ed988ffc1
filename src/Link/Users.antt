-- ===== src/Link/Users.antt =====
-- A call of a user, through the server and its session to the device and back.
use rtio.Prelude.{ℕ, ◌+◌, ◌^◌, ◌≤◌, ◌<◌, ◌≡◌, some, List, [], length, ok}
use rtio.Rest.Defs.{constrained_get}
use rtio.Server.Incoming.{Config}
use rtio.Server.Sessions.{get_session_of}
use rtio.Device.State.{DeviceSession, Handler}
use rtio.Device.Answering.Calls.{Serves}
use rtio.Rpc.Codes.{code_ok}
use rtio.Rpc.Calls.{AccessServer, Req, capacity_less, get}
use rtio.Rpc.Calls.Answers.{get_ok_iff}
use rtio.Link.Calls.{through, send_answered}

-- A user's Get for a device that has a session in the map and is at the other end of it, with nothing
-- else to send at either end, and has a handler for the checksum of the URI: if the request passes the
-- capacity check and it and the answer each fit a frame, the user gets CODE_OK and what the
-- handler gives for the payload.
pub get_answered :
    (c : Config) (d : DeviceSession) (handler : Handler) (checksum : List ℕ → ℕ) (now k : ℕ)
    (req : Req) (out : List ℕ) (a : AccessServer)
    → get_session_of req.device_id a.sessions ≡ some k
    → length req.payload ≤ capacity_less 1 (a.objects k)
    → checksum req.uri < 2 ^ 32
    → 5 + length req.payload ≤ 4096
    → Serves d constrained_get (checksum req.uri) handler
    → handler req.payload ≡ some out
    → 1 + length out ≤ 4096
    → (a.objects k).outgoing_chan ≡ []
    → d.outgoing_chan ≡ []
    → (get (record { checksum = checksum; now = now; wait = through c d }) req a).0
      ≡ ok (record { id = req.id; code = code_ok; payload = out })
get_answered c d handler checksum now k req out a found fits u le serves h small e empty =
    (get_ok_iff (record { checksum = checksum; now = now; wait = through c d }) req a out).1 (
      k,
      found,
      (
        fits,
        (send_answered c d handler now (checksum req.uri) constrained_get req.payload out
            (a.objects k) u le serves h small e empty).0,
      ),
    )
