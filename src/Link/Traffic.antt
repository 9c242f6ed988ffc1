-- ===== src/Link/Traffic.antt =====
-- Many callers of Send on one session at once, and the device at the other end: the two loops of each
-- end, and what callers do, in any order.
pub mod Invariant
pub mod Moving
pub mod Receiving
pub mod Calling
pub mod Returning
pub mod Reaching
pub mod Answers
pub mod Draining
pub mod Freshness
mod Examples
use rtio.Prelude.{
  ℕ, ◌+◌, ◌^◌, ◌≤◌, ◌<◌, ◌≡◌, ◌≢◌, ◌⊎◌, ◌==◌, Option, none, some, List, [], ◌∷◌, ◌++◌, length,
  if◌then◌else◌,
}
use rtio.Rest.Defs.{constrained_get, constrained_post}
use rtio.Rest.Co.{CoReq}
use rtio.SyncMap.{SyncMap, load, store, nat_eq}
use rtio.TimeKv
use rtio.Server.State.{Session, M, ◌>>=◌, gen_header_id}
use rtio.Server.Observing.{body}
use rtio.Server.Requesting.{send_co_req, receive_co_resp}
use rtio.Server.Requesting.Sending.{next_header_id, request}
use rtio.Server.Incoming.{Config}
use rtio.Server.Incoming
use rtio.Device.State.{DeviceSession, Handler}
use rtio.Device.Incoming.{incomming_step}

-- The handler that the device has for a method and a URI, and its answer to a request.
abbrev pub handler_of : DeviceSession → ℕ → ℕ → Option Handler
handler_of d method uri =
    if method == constrained_get
    then load uri d.reg_get_handler_map
    else if method == constrained_post
    then load uri d.reg_post_handler_map
    else none

abbrev answer_by : Option Handler → List ℕ → Option (List ℕ)
answer_by none payload = none
answer_by (some handler) payload = handler payload

abbrev pub reply_of : DeviceSession → CoReq → Option (List ℕ)
reply_of d req = answer_by (handler_of d req.method req.uri) req.payload

-- The session and the device, and each request that Send has made, by its response channel.
pub record System : Type 0 where
  pub server : Session
  pub device : DeviceSession
  pub calls : SyncMap ℕ CoReq

-- Send until it waits.
abbrev pub asking : ℕ → ℕ → ℕ → List ℕ → M ℕ
asking now uri method payload = do
  header_id ← gen_header_id
  send_co_req now uri method header_id payload

-- A caller may send where its request and the device's answer to it each fit a frame, and where no
-- request of its id is in flight.
pub record CanSend (t : System) (uri method : ℕ) (payload out : List ℕ) : Type 0 where
  pub uri_lt : uri < 2 ^ 32
  pub payload_le : 5 + length payload ≤ 4096
  pub reply : reply_of t.device (request t.server uri method payload) ≡ some out
  pub out_le : 1 + length out ≤ 4096
  pub is_free : TimeKv.get (next_header_id t.server) t.server.send_id_store ≡ none

-- What the loops of the two ends do: tcpOutgoing of the session and of the device take a frame each
-- to the connection, and tcpIncomming of either has a round.
pub data Move (c : Config) : System → System → Type 0 where
  server_writes :
      (t : System) (f : List ℕ) (fs : List (List ℕ))
      → t.server.outgoing_chan ≡ f ∷ fs
      → Move c t (record t {
        server = record (t.server) { outgoing_chan = fs };
        device = record (t.device) { conn_in = t.device.conn_in ++ f };
      })
  device_reads :
      (t : System)
      → t.device.conn_in ≢ []
      → Move c t (record t { device = (incomming_step t.device).1 })
  device_writes :
      (t : System) (f : List ℕ) (fs : List (List ℕ))
      → t.device.outgoing_chan ≡ f ∷ fs
      → Move c t (record t {
        server = record (t.server) { conn_in = t.server.conn_in ++ f };
        device = record (t.device) { outgoing_chan = fs };
      })
  server_reads :
      (t : System)
      → t.server.conn_in ≢ []
      → Move c t (record t { server = (Incoming.incomming_step c t.server).1 })

-- A move, a caller's request, or the return of a caller that finds a body on its channel.
pub data Step (c : Config) : System → System → Type 0 where
  moves : {t u : System} → Move c t u → Step c t u
  sends :
      (t : System) (now uri method : ℕ) (payload out : List ℕ)
      → CanSend t uri method payload out
      → Step c t (record t {
        server = (asking now uri method payload t.server).1;
        calls = store t.server.next_chan (request t.server uri method payload) t.calls;
      })
  returns :
      (t : System) (chan : ℕ) (req : CoReq) (b : List ℕ) (bs : List (List ℕ))
      → load chan t.calls ≡ some req
      → TimeKv.get req.header_id t.server.send_id_store ≡ some chan
      → load chan t.server.resp_chans ≡ some (b ∷ bs)
      → Step c t (record t { server = (receive_co_resp req.header_id (body b) t.server).1 })
