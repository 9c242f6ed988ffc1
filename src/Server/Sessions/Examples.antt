-- ===== src/Server/Sessions/Examples.antt =====
-- A device that connects again.
use rtio.Prelude.{ℕ, ◌≡◌, refl, Option, none, some, List, [], ◌∷◌, arith}
use rtio.SyncMap.{load, store, delete, bytes_eq}
use rtio.Server.Sessions.{
  get_session_of, set_session, delete_session, put_session, del_session, gone, World, serve_ends,
  cancel, add_session_of, pass_verification,
}
use rtio.Server.Sessions.Runs.{
  Event, arrives, leaves, new_session, run, no_sessions, Arrives, run-no_sessions,
}
use rtio.Server.Sessions.Lockout.{reverified_locks_out}
use rtio.Server.Sessions.Registry.{IsCounted}

abbrev first_device : List ℕ
first_device = 97 ∷ []

abbrev second_device : List ℕ
second_device = 98 ∷ []

-- The first device comes, comes again, and the second comes and leaves.
abbrev events : List Event
events = arrives first_device ∷ arrives first_device ∷ arrives second_device ∷ leaves 2 ∷ []

abbrev or_none : Option World → World
or_none none = no_sessions
or_none (some w) = w

abbrev after : World
after = or_none (run events no_sessions)

reached : run events no_sessions ≡ some after
unfolding pass_verification add_session_of cancel serve_ends get_session_of put_session del_session
    set_session delete_session load store delete
reached = refl

run-no_sessions_example : IsCounted after.server × Arrives first_device after
run-no_sessions_example = run-no_sessions events after first_device reached

-- The first device verifies again on the connection of its session 4, and later on another.
abbrev two_devices : World
two_devices = record {
  server = record { sessions = (first_device, 4) ∷ (second_device, 5) ∷ []; session_num = 2 };
  session = λ h. record new_session { verified = some first_device };
  next = 6;
}

reverified_locks_out_example :
    (t : World) × (pass_verification first_device 4 two_devices ≡ some t)
    × (get_session_of first_device t.server.sessions ≡ some 4)
    × ((t.session 4).life ≡ gone)
    × (pass_verification first_device 6 t ≡ none)
unfolding get_session_of load
reverified_locks_out_example =
    reverified_locks_out first_device 4 6 two_devices refl refl refl
      (λ e. absurd (omega (arith, e)))
