-- ===== src/Server/Listening/Examples.antt =====
-- A server that accepts two devices and stops.
use rtio.Prelude.{◌≡◌, ◌≤◌, refl, true, false, some, List, [], ◌∷◌}
use rtio.Server.Listening.{
  Listener, goes_on, started, init_tcp_server, Action, accepts, accept_fails, session_ends,
  session_sticks, context_ends, closes, waited, step, run,
}
use rtio.Server.Listening.Waiting.{Holds, WaitsForAll, serve_waits_for_sessions}
use rtio.Server.Listening.Stopping.{serve_can_return, ReturnsUnlessStuck, accept_error_ends_server}

initialised : init_tcp_server true 3 ≡ some (started 3)
unfolding init_tcp_server
initialised = refl

abbrev whole_life : List Action
whole_life =
    accepts ∷ accepts ∷ context_ends ∷ session_ends ∷ closes ∷ accept_fails ∷ session_ends ∷ waited
    ∷ []

serve_waits_for_sessions_example : Holds (WaitsForAll 3) (run whole_life (started 3))
serve_waits_for_sessions_example =
    serve_waits_for_sessions true 3 whole_life (started 3) initialised

abbrev told : List Action
told = accepts ∷ accepts ∷ context_ends ∷ []

abbrev two_served : Listener
two_served = record (started 3) { ctx_done = true; serving = 2; wait = 3 }

told_reached : run told (started 3) ≡ goes_on two_served
unfolding step
told_reached = refl

serve_can_return_example : ReturnsUnlessStuck two_served
serve_can_return_example =
    serve_can_return true 3 told (started 3) two_served initialised told_reached refl refl

-- One of the two sessions waits for ever.
abbrev one_stuck : Listener
one_stuck = record (started 3) { ctx_done = true; serving = 1; stuck = 1; wait = 3 }

one_stuck_reached :
    run (accepts ∷ accepts ∷ context_ends ∷ session_sticks ∷ []) (started 3) ≡ goes_on one_stuck
unfolding step
one_stuck_reached = refl

abbrev failed_after : Listener
failed_after = record (started 3) { ctx_done = true; accepting = false; serving = 1; wait = 1 }

abbrev two_accepted : Listener
two_accepted = record (started 3) { serving = 2; wait = 3 }

failed_reached : run (accept_fails ∷ session_ends ∷ []) two_accepted ≡ goes_on failed_after
unfolding step
failed_reached = refl

accept_error_ends_server_example :
    (failed_after.accepting ≡ false)
    × (failed_after.ctx_done ≡ true)
    × (failed_after.serving ≤ two_accepted.serving)
accept_error_ends_server_example =
    accept_error_ends_server (session_ends ∷ []) two_accepted failed_after failed_reached
