-- ===== src/Server/Goroutines/Ending.antt =====
-- How serve and both loops end.
use rtio.Prelude.{
  ℕ, zero, suc, ◌+◌, ◌<◌, ◌≡◌, ◌≢◌, refl, ap, subst, ◌∙◌, ◌⊎◌, inl, inr, Bool, true, false, ◌≤◌,
  lt→ltb, Bool-cases, ltb, ltb→lt, some, Option-cases, List, [], ◌∷◌, ◌++◌, arith,
}
use rtio.Server.Goroutines.{
  Loop, looping, sending, ended, putting, parked, incomming_puts, outgoing_chan_size, on_timeout,
  on_error, on_context, Serving, selecting, timed_out, returned, Conn, new_conn, Action,
  incomming_fails, incomming_sends, outgoing_sends, outgoing_stops, error_received,
  context_received, step, then_run, run,
}
use rtio.Server.Goroutines.Shares.{
  IsHeld, IsLeft, conn, OnSome, step-IsHeld, run_keeps, new_conn-IsHeld,
}
use rtio.Server.Goroutines.Room.{IsUntimed, incomming_sends_lem, outgoing_sends_lem}

run-append :
    (first more : List Action) (c d : Conn)
    → run first c ≡ some d
    → run (first ++ more) c ≡ run more d
run-append [] more c d e = ap (run more) (cc (e))
run-append (a ∷ first) more c d e = elim (Option-cases (step a c)) [
  | inl q ↦ absurd (ground (arith, e, q))
  | inr (next, q) ↦ rw q (run-append first more next d (rw q at e))
]

-- A state with these properties can be come to.
abbrev Comes : (Conn → Type 0) → Conn → Type 0
Comes P c = (actions : List Action) × (d : Conn) × (run actions c ≡ some d) × P d

Comes-then :
    (P Q : Conn → Type 0) (c : Conn)
    → Comes P c
    → ((d : Conn) → IsHeld d → P d → Comes Q d)
    → IsHeld c
    → Comes Q c
Comes-then P Q c (first, d, e, p) f h =
    let (more, x, r, q) = f d (run_keeps IsHeld step-IsHeld first c d h e) p in
    (first ++ more, x, run-append first more c d e ∙ r, q)

Comes-by : (P : Conn → Type 0) (a : Action) (c d : Conn) → step a c ≡ some d → Comes P d → Comes P c
Comes-by P a c d e (more, x, r, p) = (a ∷ more, x, ap (then_run (run more)) e ∙ r, p)

-- serve has returned, and not for a timer.
abbrev IsReturned : Serving → Type 0
IsReturned selecting = ⊥
IsReturned timed_out = ⊥
IsReturned (returned on_timeout) = ⊥
IsReturned (returned on_error) = Unit {0}
IsReturned (returned on_context) = Unit {0}

IsReturned-IsUntimed : (s : Serving) → IsReturned s → IsUntimed s
IsReturned-IsUntimed selecting r = absurd r
IsReturned-IsUntimed timed_out r = absurd r
IsReturned-IsUntimed (returned on_timeout) r = absurd r
IsReturned-IsUntimed (returned on_error) r = tt
IsReturned-IsUntimed (returned on_context) r = tt

left_lem :
    (s : Serving) (c : Conn) → IsReturned s → IsLeft s c → (c.ctx_done ≡ true) × (c.closed ≡ true)
left_lem selecting c r h = absurd r
left_lem timed_out c r h = absurd r
left_lem (returned on_timeout) c r h = absurd r
left_lem (returned on_error) c r h = h
left_lem (returned on_context) c r h = h

abbrev Gone : Conn → Type 0
Gone c = IsReturned c.serving

-- tcpIncomming has returned, or waits for another goroutine, or at a full outgoingChan.
abbrev pub EndsOrWaits : Loop → ℕ → Type 0
EndsOrWaits i queue = (i ≡ ended) ⊎ ((i ≡ parked) ⊎ ((i ≡ putting) × (outgoing_chan_size ≤ queue)))

abbrev GoneIncomming : Conn → Type 0
GoneIncomming c = IsReturned c.serving × EndsOrWaits c.incomming c.queue

abbrev GoneBoth : Conn → Type 0
GoneBoth c = IsReturned c.serving × EndsOrWaits c.incomming c.queue × (c.outgoing ≡ ended)

incomming_sent :
    (ctx closed : Bool) (errs queue : ℕ) (o : Loop) (s : Serving)
    → IsHeld (conn ctx closed errs queue sending o s)
    → IsReturned s
    → Comes GoneIncomming (conn ctx closed errs queue sending o s)
incomming_sent ctx closed errs queue o s h r =
    Comes-by GoneIncomming incomming_sends _ (conn ctx closed (errs + 1) queue ended o s)
      (incomming_sends_lem ctx closed errs queue o s h (IsReturned-IsUntimed s r))
      ([], _, refl, (r, inl refl))

-- A read of the connection fails once it is closed.
read_fails :
    (ctx closed : Bool) (errs queue : ℕ) (o : Loop) (s : Serving)
    → IsHeld (conn ctx closed errs queue looping o s)
    → IsReturned s
    → Comes GoneIncomming (conn ctx closed errs queue looping o s)
unfolding step
read_fails ctx closed errs queue o s h r =
    Comes-by GoneIncomming incomming_fails _ (conn ctx closed errs queue sending o s) refl (
      incomming_sent ctx closed errs queue o s
        (step-IsHeld incomming_fails (conn ctx closed errs queue looping o s) h) r)

puts_lem :
    (ctx closed : Bool) (errs queue : ℕ) (o : Loop) (s : Serving)
    → queue < 10
    → step incomming_puts (conn ctx closed errs queue putting o s)
      ≡ some (conn ctx closed errs (queue + 1) looping o s)
unfolding step
puts_lem ctx closed errs queue o s lt = rw (lt→ltb queue 10 lt) refl

incomming_ends :
    (ctx closed : Bool) (errs queue : ℕ) (i o : Loop) (s : Serving)
    → IsHeld (conn ctx closed errs queue i o s)
    → IsReturned s
    → Comes GoneIncomming (conn ctx closed errs queue i o s)
incomming_ends ctx closed errs queue looping o s h r = read_fails ctx closed errs queue o s h r
incomming_ends ctx closed errs queue sending o s h r = incomming_sent ctx closed errs queue o s h r
incomming_ends ctx closed errs queue ended o s h r = ([], _, refl, (r, inl refl))
incomming_ends ctx closed errs queue parked o s h r = ([], _, refl, (r, inr (inl refl)))
incomming_ends ctx closed errs queue putting o s h r = elim (Bool-cases (ltb queue 10)) [
  | inl e ↦
      let put = puts_lem ctx closed errs queue o s (ltb→lt queue 10 e) in
      Comes-by GoneIncomming incomming_puts _ (conn ctx closed errs (queue + 1) looping o s) put (
        read_fails ctx closed errs (queue + 1) o s
          (subst (OnSome IsHeld) put
            (step-IsHeld incomming_puts (conn ctx closed errs queue putting o s) h))
          r)
  | inr e ↦ ([], _, refl, (r, inr (inr (refl, ground (arith, e)))))
]

outgoing_ends :
    (ctx closed : Bool) (errs queue : ℕ) (i o : Loop) (s : Serving)
    → IsHeld (conn ctx closed errs queue i o s)
    → GoneIncomming (conn ctx closed errs queue i o s)
    → Comes GoneBoth (conn ctx closed errs queue i o s)
unfolding step
outgoing_ends true closed errs queue i looping s h (r, w) =
    Comes-by GoneBoth outgoing_stops _ (conn true closed errs queue i ended s) refl
      ([], _, refl, (r, w, refl))
outgoing_ends false closed errs queue i looping s h (r, w) =
    absurd (ground (arith, (left_lem s (conn false closed errs queue i looping s) r h.left).0))
outgoing_ends ctx closed errs queue i sending s h (r, w) =
    Comes-by GoneBoth outgoing_sends _ (conn ctx closed (errs + 1) queue i ended s)
      (outgoing_sends_lem ctx closed errs queue i s h (IsReturned-IsUntimed s r))
      ([], _, refl, (r, w, refl))
outgoing_ends ctx closed errs queue i ended s h (r, w) = ([], _, refl, (r, w, refl))
outgoing_ends ctx closed errs queue i putting s h g = absurd h.out
outgoing_ends ctx closed errs queue i parked s h g = absurd h.out

-- What serve waits for at its `select`, or it has returned.
abbrev pub HasEnd : Conn → Type 0
HasEnd c = (0 < c.errs) ⊎ (c.ctx_done ≡ true)

serve_returns :
    (ctx closed : Bool) (errs queue : ℕ) (i o : Loop) (s : Serving)
    → IsUntimed s
    → HasEnd (conn ctx closed errs queue i o s)
    → Comes Gone (conn ctx closed errs queue i o s)
unfolding step
serve_returns ctx closed zero queue i o selecting u (inl lt) = absurd (omega (arith, lt))
serve_returns ctx closed (suc n) queue i o selecting u (inl lt) = (error_received ∷ [], _, refl, tt)
serve_returns true closed errs queue i o selecting u (inr e) = (context_received ∷ [], _, refl, tt)
serve_returns false closed errs queue i o selecting u (inr e) = absurd (ground (arith, e))
serve_returns ctx closed errs queue i o timed_out u w = absurd u
serve_returns ctx closed errs queue i o (returned on_timeout) u w = absurd u
serve_returns ctx closed errs queue i o (returned on_error) u w = ([], _, refl, tt)
serve_returns ctx closed errs queue i o (returned on_context) u w = ([], _, refl, tt)

pub all_end :
    (actions : List Action) (c : Conn)
    → run actions new_conn ≡ some c
    → IsUntimed c.serving
    → HasEnd c
    → (more : List Action) × (d : Conn) × (run more c ≡ some d)
      × (d.serving ≢ selecting)
      × (d.closed ≡ true)
      × (d.outgoing ≡ ended)
      × EndsOrWaits d.incomming d.queue
all_end actions c e u w =
    let h = run_keeps IsHeld step-IsHeld actions new_conn c new_conn-IsHeld e in
    let (more, d, r, gone) =
      Comes-then GoneIncomming GoneBoth c
        (Comes-then Gone GoneIncomming c (serve_returns _ _ _ _ _ _ _ u w)
          (λ d k g. incomming_ends _ _ _ _ _ _ _ k g) h)
        (λ d k g. outgoing_ends _ _ _ _ _ _ _ k g) h in
    let k = run_keeps IsHeld step-IsHeld more c d h r in
    (more, d, r, at_select gone.0, (left_lem d.serving d gone.0 k.left).1, gone.2, gone.1)
  where
    at_select : {s : Serving} → IsReturned s → s ≢ selecting
    at_select {s} g q = subst IsReturned q g
