-- ===== src/Server/Goroutines.antt =====
-- The goroutines of one connection: serve of devicetcp/session.go with its two loops, as they meet at
-- the context, at errChan and at the connection. What the loops read and write is in Server.Incoming
-- and Server.Serving.
pub mod Shares
pub mod Room
pub mod Ending
pub mod Stranding
mod Examples
use rtio.Prelude.{ℕ, zero, suc, ◌+◌, Bool, true, false, Option, none, some, List, [], ◌∷◌, ltb}

-- A loop goes round, or has an error to send on errChan, or has returned. tcpIncomming may also wait
-- at `s.outgoingChan <-` with a frame to put, or for another goroutine: in AddSession for the `Done`
-- of an older session, or for room in a response channel or in NotifyChan.
pub data Loop : Type 0 where
  looping sending ended putting parked : Loop

pub data Cause : Type 0 where
  on_timeout on_error on_context : Cause

-- serve is at its `select`, or at the send that follows a timer, or has returned.
pub data Serving : Type 0 where
  selecting timed_out : Serving
  returned : Cause → Serving

pub record Conn : Type 0 where
  pub ctx_done : Bool  -- serveCtx
  pub closed : Bool  -- the connection
  pub errs : ℕ  -- how many errors errChan holds
  pub queue : ℕ  -- how many frames outgoingChan holds
  pub incomming : Loop
  pub outgoing : Loop
  pub serving : Serving

-- `make(chan error, 2)`
abbrev pub err_chan_size : ℕ
err_chan_size = 2

-- `OutgoingChanSize`
abbrev pub outgoing_chan_size : ℕ
outgoing_chan_size = 10

abbrev pub new_conn : Conn
new_conn = record {
  ctx_done = false;
  closed = false;
  errs = 0;
  queue = 0;
  incomming = looping;
  outgoing = looping;
  serving = selecting;
}

-- What happens next: a goroutine gets on, a timer fires, the context is cancelled by another
-- goroutine, a frame is put in outgoingChan by one, or tcpIncomming resumes, since another goroutine
-- gives what it waits for.
pub data Action : Type 0 where
  incomming_fails incomming_sends incomming_stops : Action
  incomming_answers incomming_puts incomming_parks incomming_resumes : Action
  frame_written outgoing_fails outgoing_sends outgoing_stops : Action
  timer_fires timeout_sends error_received context_received : Action
  cancelled frame_put : Action

abbrev pub only_if : Bool → Conn → Option Conn
only_if true c = some c
only_if false c = none

abbrev pub only_at_select : Serving → Conn → Option Conn
only_at_select selecting c = some c
only_at_select timed_out c = none
only_at_select (returned why) c = none

abbrev pub only_looping : Loop → Option Conn → Option Conn
only_looping looping c = c
only_looping sending c = none
only_looping ended c = none
only_looping putting c = none
only_looping parked c = none

-- A send on errChan waits while it is full.
abbrev pub send_err : Conn → Option Conn
send_err c = only_if (ltb c.errs err_chan_size) (record c { errs = c.errs + 1 })

abbrev pub only_sending : Loop → Option Conn → Option Conn
only_sending looping c = none
only_sending sending c = c
only_sending ended c = none
only_sending putting c = none
only_sending parked c = none

abbrev pub only_putting : Loop → Option Conn → Option Conn
only_putting looping c = none
only_putting sending c = none
only_putting ended c = none
only_putting putting c = c
only_putting parked c = none

abbrev pub only_parked : Loop → Option Conn → Option Conn
only_parked looping c = none
only_parked sending c = none
only_parked ended c = none
only_parked putting c = none
only_parked parked c = c

-- A put in outgoingChan waits while it is full.
abbrev pub put_frame : Conn → Option Conn
put_frame c = only_if (ltb c.queue outgoing_chan_size) (record c { queue = c.queue + 1 })

-- A frame is taken from outgoingChan.
abbrev pub take_frame : ℕ → Conn → Option Conn
take_frame zero c = none
take_frame (suc n) c = some (record c { queue = n })

-- What serve defers closes the connection.
abbrev pub return_serve : Cause → Conn → Conn
return_serve why c = record c { closed = true; serving = returned why }

abbrev pub send_timeout : Serving → Conn → Option Conn
send_timeout selecting c = none
send_timeout timed_out c = send_err (return_serve on_timeout c)
send_timeout (returned why) c = none

-- `err := <-errChan`, and `s.cancel()`.
abbrev pub receive_error : ℕ → Conn → Option Conn
receive_error zero c = none
receive_error (suc n) c =
    only_at_select c.serving (return_serve on_error (record c { errs = n; ctx_done = true }))

abbrev pub receive_context : Bool → Conn → Option Conn
receive_context true c = only_at_select c.serving (return_serve on_context c)
receive_context false c = none

-- `none` where the goroutine waits.
unfoldable pub step : Action → Conn → Option Conn
step incomming_fails c = only_looping c.incomming (some (record c { incomming = sending }))
step incomming_sends c = only_sending c.incomming (send_err (record c { incomming = ended }))
step incomming_stops c =
    only_looping c.incomming (only_if c.ctx_done (record c { incomming = ended }))
step incomming_answers c = only_looping c.incomming (some (record c { incomming = putting }))
step incomming_puts c = only_putting c.incomming (put_frame (record c { incomming = looping }))
step incomming_parks c = only_looping c.incomming (some (record c { incomming = parked }))
step incomming_resumes c = only_parked c.incomming (some (record c { incomming = looping }))
step frame_written c = only_looping c.outgoing (take_frame c.queue c)
step outgoing_fails c =
    only_looping c.outgoing (take_frame c.queue (record c { outgoing = sending }))
step outgoing_sends c = only_sending c.outgoing (send_err (record c { outgoing = ended }))
step outgoing_stops c = only_looping c.outgoing (only_if c.ctx_done (record c { outgoing = ended }))
step timer_fires c = only_at_select c.serving (record c { serving = timed_out })
step timeout_sends c = send_timeout c.serving c
step error_received c = receive_error c.errs c
step context_received c = receive_context c.ctx_done c
step cancelled c = some (record c { ctx_done = true })
step frame_put c = put_frame c

abbrev pub then_run : (Conn → Option Conn) → Option Conn → Option Conn
then_run next none = none
then_run next (some c) = next c

abbrev pub run : List Action → Conn → Option Conn
run [] c = some c
run (a ∷ more) c = then_run (run more) (step a c)
