-- ===== src/Server/Serving.antt =====
-- tcpOutgoing and serve of devicetcp/session.go, with what serve defers.
pub mod Closing
pub mod Sending
mod Examples
use rtio.Prelude.{
  ℕ, zero, suc, ◌+◌, Bool, true, false, Option, none, some, List, [], ◌∷◌, ◌++◌, length, take, map,
  if◌then◌else◌,
}
use rtio.SyncMap.{SyncMap}
use rtio.TimeKv.{del_expire_keys}
use rtio.Utils.{Written, Total, write_full}
use rtio.Server.State.{Fault, conn_write, Observa, Session}
use rtio.Server.Sessions.{ServerTcp, del_session}

-- How tcpOutgoing stands: it waits for a frame, or has sent an error to errChan. The fuel of WriteFull
-- has run out in the third case.
pub data Outgoing : Type 0 where
  waiting : Outgoing
  failed : Fault → Outgoing
  unfinished : Outgoing

-- What is on the connection, and the frames that are left in the channel.
pub record Transmission : Type 0 where
  pub written : List ℕ
  pub left : List (List ℕ)
  pub outgoing : Outgoing

abbrev pub put_frame : Transmission → List (List ℕ) → List ℕ → Option Total → Transmission
put_frame next queue buf none = record { written = []; left = queue; outgoing = unfinished }
put_frame next queue buf (some t) =
    if t.failed
    then record { written = take t.writelen buf; left = queue; outgoing = failed conn_write }
    else record next { written = take t.writelen buf ++ next.written }

-- The loop, over the frames of outgoingChan. `write` is the connection: the number of the frame, and
-- then as for WriteFull, which has fuel for each byte.
unfoldable pub tcp_outgoing : (ℕ → ℕ → List ℕ → Written) → ℕ → List (List ℕ) → Transmission
tcp_outgoing write n [] = record { written = []; left = []; outgoing = waiting }
tcp_outgoing write n (buf ∷ queue) =
    let next = tcp_outgoing write (n + 1) queue in
    put_frame next queue buf (write_full (suc (length buf)) (write n) 0 buf 0)

-- What the `select` of serve takes, and between that, what the other goroutines do.
pub data Event : Type 0 where
  verify_timer heartbeat_timer context_done : Event
  net_error : Fault → Event
  store_tick : ℕ → Event
  meanwhile : (Session → ServerTcp → Session × ServerTcp) → Event

-- Why serve returns.
pub data Reason : Type 0 where
  verify_not_completed heartbeat_timeout cancelled : Reason
  errored : Fault → Reason

-- After `returned`, `s.done` has its value, for which AddSession waits.
pub data Served : Type 0 where
  serving : Session → ServerTcp → Served
  returned : Reason → Session → ServerTcp → Served

abbrev pub tell_done : ℕ × Observa → ℕ × Observa
tell_done (id, ob) = (id, record ob { session_done = true })

-- What serve defers, in one piece: every observation is told, and a verified session leaves the map.
-- Other goroutines may run between these in the source; none of them does here. The send on `done`
-- that follows is in Server.Sessions.
unfoldable pub close : Reason → Session → ServerTcp → Served
close reason s server =
    returned reason (record s { observa_store = map tell_done s.observa_store })
      (if s.verify_pass then del_session s.device_id server else server)

-- The loop of serve, over the events that it sees.
unfoldable pub serve : List Event → Session → ServerTcp → Served
unfolding close
serve [] s server = serving s server
serve (verify_timer ∷ es) s server = close verify_not_completed s server
serve (heartbeat_timer ∷ es) s server = close heartbeat_timeout s server
serve (context_done ∷ es) s server = close cancelled s server
serve (net_error e ∷ es) s server = close (errored e) s server
serve (store_tick now ∷ es) s server =
    serve es (record s { send_id_store = del_expire_keys now s.send_id_store }) server
serve (meanwhile f ∷ es) s server = let (t, other) = f s server in serve es t other
