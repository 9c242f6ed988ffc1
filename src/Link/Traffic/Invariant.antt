-- ===== src/Link/Traffic/Invariant.antt =====
-- Where each request in flight is, and what each caller has.
use rtio.Prelude.{ℕ, ◌+◌, ◌≤◌, ◌<◌, ◌≡◌, ◌≢◌, ◌⊎◌, Option, some, List, [], ◌∷◌, ◌++◌, map, length}
use rtio.Proto.Types.{server_send_req, server_send_resp}
use rtio.Rest.Status
use rtio.Rest.Co.{CoReq}
use rtio.Rest.Co.RoundTrip.{FitsReq, co_resp_bytes}
use rtio.Rest.Co.Frames.{co_req_frame, co_resp_frame}
use rtio.SyncMap.{SyncMap, load, nat_eq}
use rtio.TimeKv.{TimeKv}
use rtio.TimeKv
use rtio.Server.Serving.Sending.{bytes_of}
use rtio.Device.Answering.{co_resp}
use rtio.Link.Traffic.{System, reply_of}

abbrev pub All {ℓ} : {A : Type ℓ} → (A → Type 0) → List A → Type 0
All P [] = Unit {0}
All P (x ∷ xs) = P x × All P xs

pub map-All {ℓ} :
    {A : Type ℓ} (P Q : A → Type 0) (xs : List A) → ((x : A) → P x → Q x) → All P xs → All Q xs
map-All P Q [] f h = tt
map-All P Q (x ∷ xs) f h = (f x h.0, map-All P Q xs f h.1)

-- A request in flight, the channel that its caller reads, and the handler's output for it.
pub record Pending : Type 0 where
  pub chan : ℕ
  pub req : CoReq
  pub out : List ℕ

abbrev pub asked_frame : Pending → List ℕ
asked_frame p = co_req_frame server_send_req p.req

abbrev pub reply_frame : Pending → List ℕ
reply_frame p = co_resp_frame server_send_resp (co_resp p.req Status.success p.out)

abbrev pub reply_bytes : CoReq → List ℕ → List ℕ
reply_bytes req out = co_resp_bytes (co_resp req Status.success out)

-- What the device answers to requests.
abbrev pub Replies : Type 0
Replies = CoReq → Option (List ℕ)

-- The device's side of a request in flight.
pub record IsServed (replies : Replies) (p : Pending) : Type 0 where
  pub fits : FitsReq p.req
  pub reply : replies p.req ≡ some p.out
  pub out_le : 1 + length p.out ≤ 4096

abbrev pub RespChans : Type 0
RespChans = SyncMap ℕ (List (List ℕ))

-- And the server's: the id leads to the channel, where nothing is yet.
pub record IsAwaited (ids : TimeKv ℕ) (chans : RespChans) (next : ℕ) (calls : SyncMap ℕ CoReq)
    (p : Pending) : Type 0 where
  pub known : TimeKv.get p.req.header_id ids ≡ some p.chan
  pub blank : load p.chan chans ≡ some []
  pub called : load p.chan calls ≡ some p.req
  pub chan_lt : p.chan < next

-- No two have the same channel.
abbrev pub IsDistinct : List Pending → Type 0
IsDistinct [] = Unit {0}
IsDistinct (p ∷ ps) = All (λ q. q.chan ≢ p.chan) ps × IsDistinct ps

-- A request in flight has this channel.
abbrev pub IsIn : ℕ → List Pending → Type 0
IsIn chan [] = ⊥
IsIn chan (p ∷ ps) = (p.chan ≡ chan) ⊎ IsIn chan ps

-- The caller finds the device's answer to its own request, and nothing else.
abbrev pub IsAnswered : Replies → RespChans → ℕ → CoReq → Type 0
IsAnswered replies chans chan req =
    (out : List ℕ) × (replies req ≡ some out)
    × (1 + length out ≤ 4096)
    × (load chan chans ≡ some (reply_bytes req out ∷ []))

-- Of a request that has been made.
pub record IsCall (replies : Replies) (chans : RespChans) (next : ℕ) (ps : List Pending) (chan : ℕ)
    (req : CoReq) : Type 0 where
  pub fits : FitsReq req
  pub chan_lt : chan < next
  pub state : IsIn chan ps ⊎ IsAnswered replies chans chan req

-- The requests in flight, the oldest first, are those answered and on the connection back, those
-- answered and in the device's channel, those on the connection there, and those in the session's
-- channel.
pub record IsSound (t : System) (ps back replied there asked : List Pending) : Type 0 where
  pub split : ps ≡ back ++ (replied ++ (there ++ asked))
  pub asked_eq : t.server.outgoing_chan ≡ map asked_frame asked
  pub there_eq : t.device.conn_in ≡ bytes_of (map asked_frame there)
  pub replied_eq : t.device.outgoing_chan ≡ map reply_frame replied
  pub back_eq : t.server.conn_in ≡ bytes_of (map reply_frame back)
  pub served : All (IsServed (reply_of t.device)) ps
  pub awaited :
      All (IsAwaited t.server.send_id_store t.server.resp_chans t.server.next_chan t.calls) ps
  pub distinct : IsDistinct ps
  pub call :
      (chan : ℕ) (req : CoReq)
      → load chan t.calls ≡ some req
      → IsCall (reply_of t.device) t.server.resp_chans t.server.next_chan ps chan req
