-- ===== src/Server/Serving/Closing.antt =====
-- What a session of the server leaves when its serve returns.
use rtio.Prelude.{
  ℕ, ◌≡◌, subst, ◌⊎◌, inl, inr, true, false, Bool-cases, none, some, List, [], ◌∷◌, map, arith,
}
use rtio.SyncMap.{SyncMap, load, nat_eq, bytes_eq}
use rtio.SyncMap.Laws.{load-delete}
use rtio.Server.State.{Observa, Session}
use rtio.Server.Sessions.{ServerTcp, get_session_of, del_session, delete_session}
use rtio.Server.Serving.{
  Event, verify_timer, heartbeat_timer, context_done, net_error, store_tick, meanwhile, Reason,
  verify_not_completed, heartbeat_timeout, cancelled, errored, Served, serving, returned, tell_done,
  close, serve,
}

-- The observations of a session that has ended are told, and the device of a verified one has no
-- session in the map.
pub record IsClosed (s : Session) (server : ServerTcp) : Type 0 where
  pub told : (id : ℕ) (ob : Observa) → load id s.observa_store ≡ some ob → ob.session_done ≡ true
  pub gone : (s.verify_pass ≡ false) ⊎ (get_session_of s.device_id server.sessions ≡ none)

told_lem :
    (m : SyncMap ℕ Observa) (id : ℕ) (ob : Observa)
    → load id (map tell_done m) ≡ some ob
    → ob.session_done ≡ true
unfolding load
told_lem [] id ob e = absurd (ground arith)
told_lem ((k, old) ∷ m) id ob e = elim (Bool-cases (nat_eq.beq k id)) [
  | inl q ↦ ground arith
  | inr q ↦ told_lem m id ob (ground arith)
]

deleted_lem : (id : List ℕ) (s : ServerTcp) → get_session_of id (del_session id s).sessions ≡ none
unfolding get_session_of del_session delete_session
deleted_lem id s = ground (arith, load-delete id id s.sessions, bytes_eq.beq_iff id id)

abbrev Closed : Served → Type 0
Closed (serving s server) = Unit {0}
Closed (returned reason s server) = IsClosed s server

close-Closed : (reason : Reason) (s : Session) (server : ServerTcp) → Closed (close reason s server)
unfolding close
close-Closed reason s server = record {
  told = told_lem s.observa_store;
  gone = elim (Bool-cases s.verify_pass) [
    | inl e ↦ rw e (inr (deleted_lem s.device_id server))
    | inr e ↦ inl e
  ];
}

serve-Closed : (es : List Event) (s : Session) (server : ServerTcp) → Closed (serve es s server)
unfolding serve
serve-Closed [] s server = tt
serve-Closed (verify_timer ∷ es) s server = close-Closed verify_not_completed s server
serve-Closed (heartbeat_timer ∷ es) s server = close-Closed heartbeat_timeout s server
serve-Closed (context_done ∷ es) s server = close-Closed cancelled s server
serve-Closed (net_error e ∷ es) s server = close-Closed (errored e) s server
serve-Closed (store_tick now ∷ es) s server = serve-Closed es _ server
serve-Closed (meanwhile f ∷ es) s server = serve-Closed es _ _

pub serve_closes :
    (es : List Event) (s t : Session) (server after : ServerTcp) (reason : Reason)
    → serve es s server ≡ returned reason t after
    → IsClosed t after
serve_closes es s t server after reason e = subst Closed e (serve-Closed es s server)
