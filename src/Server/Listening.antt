-- ===== src/Server/Listening.antt =====
-- ServerTCP of devicetcp/devicetcp.go: InitTCPServer, Serve with its goroutines, and Shutdown.
pub mod Waiting
pub mod Stopping
mod Examples
use rtio.Prelude.{ℕ, zero, suc, ◌+◌, Bool, true, false, Option, none, some, List, [], ◌∷◌}

-- The server and what its goroutines see. `wait` is the counter of its WaitGroup, `outer` the one of
-- the program's. Of the goroutines of sessions that have not called `wait.Done`, `serving` counts those
-- that can get on, and `stuck` those that wait for ever: serve at its send of a timeout on a full
-- errChan, as in Server.Goroutines.
pub record Listener : Type 0 where
  pub ctx_done : Bool
  pub listening : Bool
  pub closing : Bool  -- the goroutine that waits for the context
  pub accepting : Bool  -- the goroutine that accepts
  pub serving : ℕ
  pub stuck : ℕ
  pub wait : ℕ
  pub outer : ℕ
  pub returned : Bool  -- Serve

-- What a goroutine comes to: it has to wait, or panics, or gets on.
pub data Progress : Type 0 where
  waits panics : Progress
  goes_on : Listener → Progress

-- NewServerTCP, with what `net.Listen` gives, and Serve up to its `Wait`.
abbrev pub started : ℕ → Listener
started outer = record {
  ctx_done = false;
  listening = true;
  closing = true;
  accepting = true;
  serving = 0;
  stuck = 0;
  wait = 1;
  outer = outer + 1;
  returned = false;
}

-- No listener is an error, and nothing starts.
unfoldable pub init_tcp_server : Bool → ℕ → Option Listener
init_tcp_server true outer = some (started outer)
init_tcp_server false outer = none

unfoldable pub shutdown : Listener → Listener
shutdown s = record s { listening = false }

-- `Done` of a WaitGroup panics where the counter is 0.
abbrev pub wait_done : ℕ → Listener → Progress
wait_done zero s = panics
wait_done (suc n) s = goes_on (record s { wait = n })

abbrev pub outer_done : ℕ → Listener → Progress
outer_done zero s = panics
outer_done (suc n) s = goes_on (record s { outer = n })

-- What happens next: Accept gives a connection or an error, the serve of a session returns or comes to
-- wait for ever, the context of the program ends, the goroutine that waits for it gets on, or
-- `wait.Wait` does.
pub data Action : Type 0 where
  accepts accept_fails session_ends session_sticks context_ends closes waited : Action

abbrev pub accept : Bool → Bool → Listener → Progress
accept true true s = goes_on (record s { wait = s.wait + 1; serving = s.serving + 1 })
accept true false s = waits
accept false listening s = waits

-- The loop breaks on every error, and `cancel` and `wait.Done` are deferred.
abbrev pub stop_accepting : Bool → Listener → Progress
stop_accepting true s = wait_done s.wait (record s { accepting = false; ctx_done = true })
stop_accepting false s = waits

abbrev pub end_session : ℕ → Listener → Progress
end_session zero s = waits
end_session (suc n) s = wait_done s.wait (record s { serving = n })

-- The serve of a session comes to wait at its send on errChan, and does not return.
abbrev pub stick_session : ℕ → Listener → Progress
stick_session zero s = waits
stick_session (suc n) s = goes_on (record s { serving = n; stuck = s.stuck + 1 })

abbrev pub close_at_end : Bool → Bool → Listener → Progress
unfolding shutdown
close_at_end true true s = goes_on (shutdown (record s { closing = false }))
close_at_end true false s = waits
close_at_end false done s = waits

abbrev pub return_serve : Bool → ℕ → Listener → Progress
return_serve true n s = waits
return_serve false zero s = outer_done s.outer (record s { returned = true })
return_serve false (suc n) s = waits

unfoldable pub step : Action → Listener → Progress
step accepts s = accept s.accepting s.listening s
step accept_fails s = stop_accepting s.accepting s
step session_ends s = end_session s.serving s
step session_sticks s = stick_session s.serving s
step context_ends s = goes_on (record s { ctx_done = true })
step closes s = close_at_end s.closing s.ctx_done s
step waited s = return_serve s.returned s.wait s

abbrev pub then_run : (Listener → Progress) → Progress → Progress
then_run next waits = waits
then_run next panics = panics
then_run next (goes_on s) = next s

abbrev pub run : List Action → Listener → Progress
run [] s = goes_on s
run (a ∷ more) s = then_run (run more) (step a s)
