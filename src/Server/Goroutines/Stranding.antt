-- ===== src/Server/Goroutines/Stranding.antt =====
-- What a timer of serve can leave behind.
use rtio.Prelude.{
  ℕ, zero, suc, ◌≡◌, refl, subst, Bool, true, false, Option, none, some, List, [], ◌∷◌, ltb,
}
use rtio.Server.Goroutines.{
  Loop, looping, sending, ended, putting, parked, incomming_answers, incomming_puts,
  incomming_parks, incomming_resumes, only_putting, only_parked, on_timeout, Serving, selecting,
  timed_out, returned, Conn, Action, incomming_fails, incomming_sends, incomming_stops,
  frame_written, outgoing_fails, outgoing_sends, outgoing_stops, timer_fires, timeout_sends,
  error_received, context_received, cancelled, frame_put, step, run, only_looping, only_sending,
  take_frame,
}
use rtio.Server.Goroutines.Shares.{OnSome, conn, first_step, run_keeps, only_if-OnSome}

looping-OnSome :
    (P : Conn → Type 0) (l : Loop) (o : Option Conn) → OnSome P o → OnSome P (only_looping l o)
looping-OnSome P looping o h = h
looping-OnSome P sending o h = tt
looping-OnSome P ended o h = tt
looping-OnSome P putting o h = tt
looping-OnSome P parked o h = tt

sending-OnSome :
    (P : Conn → Type 0) (l : Loop) (o : Option Conn) → OnSome P o → OnSome P (only_sending l o)
sending-OnSome P looping o h = tt
sending-OnSome P sending o h = h
sending-OnSome P ended o h = tt
sending-OnSome P putting o h = tt
sending-OnSome P parked o h = tt

putting-OnSome :
    (P : Conn → Type 0) (l : Loop) (o : Option Conn) → OnSome P o → OnSome P (only_putting l o)
putting-OnSome P looping o h = tt
putting-OnSome P sending o h = tt
putting-OnSome P ended o h = tt
putting-OnSome P putting o h = h
putting-OnSome P parked o h = tt

parked-OnSome :
    (P : Conn → Type 0) (l : Loop) (o : Option Conn) → OnSome P o → OnSome P (only_parked l o)
parked-OnSome P looping o h = tt
parked-OnSome P sending o h = tt
parked-OnSome P ended o h = tt
parked-OnSome P putting o h = tt
parked-OnSome P parked o h = h

frame-OnSome :
    (P : Conn → Type 0) (n : ℕ) (d : Conn)
    → ((m : ℕ) → P (record d { queue = m }))
    → OnSome P (take_frame n d)
frame-OnSome P zero d h = tt
frame-OnSome P (suc n) d h = h n

-- serve waits at its own send, with errChan full.
record IsStuck (closed : Bool) (c : Conn) : Type 0 where
  timed : c.serving ≡ timed_out
  full : c.errs ≡ 2
  same : c.closed ≡ closed

IsStuck-at :
    {closed : Bool} (c : Conn)
    → c.serving ≡ timed_out
    → c.errs ≡ 2
    → c.closed ≡ closed
    → IsStuck closed c
IsStuck-at c t f s = record { timed = t; full = f; same = s }

step_full :
    (a : Action) (ctx closed : Bool) (queue : ℕ) (i o : Loop)
    → OnSome (IsStuck closed) (step a (conn ctx closed 2 queue i o timed_out))
unfolding step
step_full incomming_fails ctx closed queue i o = looping-OnSome _ i _ (IsStuck-at _ refl refl refl)
step_full incomming_sends ctx closed queue i o = sending-OnSome _ i none tt
step_full incomming_stops ctx closed queue i o =
    looping-OnSome _ i _ (only_if-OnSome _ ctx _ (λ e. IsStuck-at _ refl refl refl))
step_full incomming_answers ctx closed queue i o =
    looping-OnSome _ i _ (IsStuck-at _ refl refl refl)
step_full incomming_puts ctx closed queue i o =
    putting-OnSome _ i _ (only_if-OnSome _ (ltb queue 10) _ (λ e. IsStuck-at _ refl refl refl))
step_full incomming_parks ctx closed queue i o = looping-OnSome _ i _ (IsStuck-at _ refl refl refl)
step_full incomming_resumes ctx closed queue i o = parked-OnSome _ i _ (IsStuck-at _ refl refl refl)
step_full frame_written ctx closed queue i o =
    looping-OnSome _ o _ (frame-OnSome _ queue _ (λ m. IsStuck-at _ refl refl refl))
step_full outgoing_fails ctx closed queue i o =
    looping-OnSome _ o _ (frame-OnSome _ queue _ (λ m. IsStuck-at _ refl refl refl))
step_full outgoing_sends ctx closed queue i o = sending-OnSome _ o none tt
step_full outgoing_stops ctx closed queue i o =
    looping-OnSome _ o _ (only_if-OnSome _ ctx _ (λ e. IsStuck-at _ refl refl refl))
step_full timer_fires ctx closed queue i o = tt
step_full timeout_sends ctx closed queue i o = tt
step_full error_received ctx closed queue i o = tt
step_full context_received true closed queue i o = tt
step_full context_received false closed queue i o = tt
step_full cancelled ctx closed queue i o = IsStuck-at _ refl refl refl
step_full frame_put ctx closed queue i o =
    only_if-OnSome _ (ltb queue 10) _ (λ e. IsStuck-at _ refl refl refl)

step-IsStuck :
    (closed : Bool) (a : Action) (c : Conn) → IsStuck closed c → OnSome (IsStuck closed) (step a c)
step-IsStuck closed a c h = go c.closed c.errs c.serving h.same h.full h.timed
  where
    go :
        (cl : Bool) (n : ℕ) (s : Serving)
        → cl ≡ closed
        → n ≡ 2
        → s ≡ timed_out
        → OnSome (IsStuck closed) (step a (conn c.ctx_done cl n c.queue c.incomming c.outgoing s))
    go cl n s q e t = rw (q, e, t) (step_full a c.ctx_done closed c.queue c.incomming c.outgoing)

timer-IsStuck :
    (c : Conn) → c.serving ≡ selecting → c.errs ≡ 2 → OnSome (IsStuck c.closed) (step timer_fires c)
unfolding step
timer-IsStuck c t f = rw t (IsStuck-at _ refl f refl)

-- Where both loops have sent an error that serve has not received, and serve's `select` takes a timer,
-- serve never gets on, whatever else happens, the end of the context included: it waits at its send on
-- errChan, from which only serve receives, and it never closes the connection.
pub timeout_waits_forever :
    (actions : List Action) (c d : Conn)
    → c.serving ≡ selecting
    → c.errs ≡ 2
    → run (timer_fires ∷ actions) c ≡ some d
    → (d.serving ≡ timed_out) × (d.errs ≡ 2) × (d.closed ≡ c.closed)
timeout_waits_forever actions c d t f e =
    let (fired, p, q) = first_step _ timer_fires actions c d (timer-IsStuck c t f) e in
    let h = run_keeps (IsStuck c.closed) (step-IsStuck c.closed) actions fired d p q in
    (h.timed, h.full, h.same)

-- Neither is the context ended by another goroutine, nor a frame put in outgoingChan.
abbrev pub IsOwn : Action → Type 0
IsOwn cancelled = ⊥
IsOwn frame_put = ⊥
IsOwn incomming_fails = Unit {0}
IsOwn incomming_sends = Unit {0}
IsOwn incomming_stops = Unit {0}
IsOwn incomming_answers = Unit {0}
IsOwn incomming_puts = ⊥
IsOwn incomming_parks = Unit {0}
IsOwn incomming_resumes = Unit {0}
IsOwn frame_written = Unit {0}
IsOwn outgoing_fails = Unit {0}
IsOwn outgoing_sends = Unit {0}
IsOwn outgoing_stops = Unit {0}
IsOwn timer_fires = Unit {0}
IsOwn timeout_sends = Unit {0}
IsOwn error_received = Unit {0}
IsOwn context_received = Unit {0}

abbrev pub AllOwn : List Action → Type 0
AllOwn [] = Unit {0}
AllOwn (a ∷ actions) = IsOwn a × AllOwn actions

-- tcpOutgoing waits for a frame or for the end of the context, with serve here.
record IsStranded (s : Serving) (c : Conn) : Type 0 where
  timed : c.serving ≡ s
  alive : c.ctx_done ≡ false
  blank : c.queue ≡ 0
  waits : c.outgoing ≡ looping

IsStranded-at :
    {s : Serving} (c : Conn)
    → c.serving ≡ s
    → c.ctx_done ≡ false
    → c.queue ≡ 0
    → c.outgoing ≡ looping
    → IsStranded s c
IsStranded-at c t a b w = record { timed = t; alive = a; blank = b; waits = w }

step_waiting-IsStranded :
    (a : Action) (closed : Bool) (errs : ℕ) (i : Loop)
    → IsOwn a
    → OnSome
        (IsStranded (returned on_timeout))
        (step a (conn false closed errs 0 i looping (returned on_timeout)))
unfolding step
step_waiting-IsStranded incomming_fails closed errs i own =
    looping-OnSome _ i _ (IsStranded-at _ refl refl refl refl)
step_waiting-IsStranded incomming_sends closed errs i own =
    sending-OnSome _ i _
      (only_if-OnSome _ (ltb errs 2) _ (λ e. IsStranded-at _ refl refl refl refl))
step_waiting-IsStranded incomming_stops closed errs i own = looping-OnSome _ i none tt
step_waiting-IsStranded incomming_answers closed errs i own =
    looping-OnSome _ i _ (IsStranded-at _ refl refl refl refl)
step_waiting-IsStranded incomming_puts closed errs i own = absurd own
step_waiting-IsStranded incomming_parks closed errs i own =
    looping-OnSome _ i _ (IsStranded-at _ refl refl refl refl)
step_waiting-IsStranded incomming_resumes closed errs i own =
    parked-OnSome _ i _ (IsStranded-at _ refl refl refl refl)
step_waiting-IsStranded frame_written closed errs i own = tt
step_waiting-IsStranded outgoing_fails closed errs i own = tt
step_waiting-IsStranded outgoing_sends closed errs i own = tt
step_waiting-IsStranded outgoing_stops closed errs i own = tt
step_waiting-IsStranded timer_fires closed errs i own = tt
step_waiting-IsStranded timeout_sends closed errs i own = tt
step_waiting-IsStranded error_received closed zero i own = tt
step_waiting-IsStranded error_received closed (suc n) i own = tt
step_waiting-IsStranded context_received closed errs i own = tt
step_waiting-IsStranded cancelled closed errs i own = absurd own
step_waiting-IsStranded frame_put closed errs i own = absurd own

step-IsStranded :
    (a : Action) (c : Conn)
    → IsOwn a
    → IsStranded (returned on_timeout) c
    → OnSome (IsStranded (returned on_timeout)) (step a c)
step-IsStranded a c own h =
    go c.ctx_done c.queue c.outgoing c.serving h.alive h.blank h.waits h.timed
  where
    go :
        (ctx : Bool) (n : ℕ) (o : Loop) (s : Serving)
        → ctx ≡ false
        → n ≡ 0
        → o ≡ looping
        → s ≡ returned on_timeout
        → OnSome
            (IsStranded (returned on_timeout))
            (step a (conn ctx c.closed c.errs n c.incomming o s))
    go ctx n o s e q l t =
        rw (e, q, l, t) (step_waiting-IsStranded a c.closed c.errs c.incomming own)

run-IsStranded :
    (actions : List Action) (c d : Conn)
    → AllOwn actions
    → IsStranded (returned on_timeout) c
    → run actions c ≡ some d
    → IsStranded (returned on_timeout) d
run-IsStranded [] c d own h e = subst (IsStranded (returned on_timeout)) (cc (e)) h
run-IsStranded (a ∷ more) c d own h e =
    let (next, q, r) = first_step _ a more c d (step-IsStranded a c own.0 h) e in
    run-IsStranded more next d own.1 q r

timer-IsStranded :
    (c : Conn) → IsStranded selecting c → OnSome (IsStranded timed_out) (step timer_fires c)
unfolding step
timer-IsStranded c h = rw h.timed (IsStranded-at _ refl h.alive h.blank h.waits)

timeout-IsStranded :
    (c : Conn)
    → IsStranded timed_out c
    → OnSome (IsStranded (returned on_timeout)) (step timeout_sends c)
unfolding step
timeout-IsStranded c h =
    rw h.timed
      (only_if-OnSome _ (ltb c.errs 2) _ (λ e. IsStranded-at _ refl h.alive h.blank h.waits))

-- When serve returns because the verification did not come in time, or no ping did, and there is
-- nothing left to send, tcpOutgoing goes on waiting whatever else the goroutines of the connection
-- do, until another goroutine ends the context or a frame is put: serve has not cancelled the context.
pub timeout_strands_outgoing :
    (actions : List Action) (c d : Conn)
    → c.serving ≡ selecting
    → c.ctx_done ≡ false
    → c.queue ≡ 0
    → c.outgoing ≡ looping
    → AllOwn actions
    → run (timer_fires ∷ timeout_sends ∷ actions) c ≡ some d
    → (d.serving ≡ returned on_timeout) × (d.ctx_done ≡ false) × (d.outgoing ≡ looping)
timeout_strands_outgoing actions c d t a b w own e =
    let (fired, p, q) =
      first_step _ timer_fires (timeout_sends ∷ actions) c d
        (timer-IsStranded c (IsStranded-at c t a b w)) e in
    let (timed, r, s) = first_step _ timeout_sends actions fired d (timeout-IsStranded fired p) q in
    let h = run-IsStranded actions timed d own r s in (h.timed, h.alive, h.waits)
