-- ===== src/Server/Sessions.antt =====
-- The sessions that are served: SessionMap of devicetcp/sessionmap.go, AddSession and DelSession of
-- devicetcp/devicetcp.go, and what a session's serve and its channel `done` have to do with them. A
-- session stands in the map as a number, a pointer in the source.
pub mod Registry
pub mod Adding
pub mod Standing
pub mod Replacing
pub mod Runs
pub mod Lockout
mod Examples
use rtio.Prelude.{
  ℕ, zero, suc, ◌==◌, if◌then◌else◌, ◌+◌, ◌^◌, ◌%◌, Option, none, some, List, Option-cases,
}
use rtio.SyncMap.{SyncMap, load, store, delete, bytes_eq}

abbrev pub SessionMap : Type 0
SessionMap = SyncMap (List ℕ) ℕ

unfoldable pub set_session : List ℕ → ℕ → SessionMap → SessionMap
set_session device_id value s = store device_id value s

unfoldable pub get_session_of : List ℕ → SessionMap → Option ℕ
get_session_of device_id s = load device_id s

unfoldable pub delete_session : List ℕ → SessionMap → SessionMap
delete_session device_id s = delete device_id s

pub record ServerTcp : Type 0 where
  pub sessions : SessionMap
  pub session_num : ℕ  -- int32, in two's complement

unfoldable pub del_session : List ℕ → ServerTcp → ServerTcp
unfolding delete_session
del_session device_id s = record {
  sessions = delete_session device_id s.sessions;
  session_num = (s.session_num + 4294967295) % 4294967296;
}

unfoldable pub put_session : List ℕ → ℕ → ServerTcp → ServerTcp
unfolding set_session
put_session device_id session s = record {
  sessions = set_session device_id session s.sessions;
  session_num = (s.session_num + 1) % 4294967296;
}

-- Where the goroutine of a session's serve is: it can get on, or waits for ever at its send on errChan
-- (as in Server.Goroutines), or has returned.
pub data Life : Type 0 where
  serving stuck gone : Life

-- A Session, as AddSession and its own serve see it.
pub record SessionState : Type 0 where
  pub life : Life
  pub verified : Option (List ℕ)  -- deviceID, once verifyPass is set
  pub done : ℕ  -- how many values the channel done holds

-- The server with its sessions. `next` is the number of the next connection's session.
pub record World : Type 0 where
  pub server : ServerTcp
  pub session : ℕ → SessionState
  pub next : ℕ

abbrev pub at_session : ℕ → SessionState → (ℕ → SessionState) → ℕ → SessionState
at_session h v f k = if k == h then v else f k

abbrev pub del_verified : Option (List ℕ) → ServerTcp → ServerTcp
del_verified none s = s
del_verified (some device_id) s = del_session device_id s

-- What serve defers: DelSession if the session has been verified, and the one value on `done`.
unfoldable pub serve_ends : ℕ → World → World
unfolding del_session
serve_ends h w = record w {
  server = del_verified (w.session h).verified w.server;
  session =
      at_session h (record (w.session h) { life = gone; done = (w.session h).done + 1 }) w.session;
}

abbrev pub ends_from : Life → ℕ → World → World
ends_from serving h w = serve_ends h w
ends_from stuck h w = w
ends_from gone h w = w

-- The context of a session is done, and its serve does what it still can.
unfoldable pub cancel : ℕ → World → World
cancel h w = ends_from (w.session h).life h w

-- `<-invalid.Done()`, `none` where nothing comes any more.
abbrev pub receive_done : ℕ → ℕ → World → Option World
receive_done zero h w = none
receive_done (suc n) h w =
    some (record w { session = at_session h (record (w.session h) { done = n }) w.session })

abbrev pub put_after : List ℕ → ℕ → Option World → Option World
put_after device_id session none = none
put_after device_id session (some w) =
    some (record w { server = put_session device_id session w.server })

abbrev pub await_done : ℕ → World → Option World
await_done invalid w = receive_done (w.session invalid).done invalid w

-- AddSession, where no other session comes or ends while it waits; `none` where it never returns.
unfoldable pub add_session_of : List ℕ → ℕ → World → Option World
unfolding get_session_of cancel
add_session_of device_id session w = elim (get_session_of device_id w.server.sessions) [
  | none ↦ put_after device_id session (some w)
  | some invalid ↦ put_after device_id session (await_done invalid (cancel invalid w))
]

-- receiveVerifyReq keeps the device id of a verification that passes.
abbrev pub keep_id : List ℕ → ℕ → World → World
keep_id device_id h w = record w {
  session = at_session h (record (w.session h) { verified = some device_id }) w.session;
}

-- A session passes its verification, and tcpIncomming adds it.
unfoldable pub pass_verification : List ℕ → ℕ → World → Option World
unfolding add_session_of
pass_verification device_id h w = add_session_of device_id h (keep_id device_id h w)
