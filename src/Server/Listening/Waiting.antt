-- ===== src/Server/Listening/Waiting.antt =====
-- Serve waits for its sessions.
use rtio.Prelude.{
  ℕ, zero, suc, ◌+◌, ◌≡◌, refl, subst, ◌⊎◌, inl, inr, Bool, true, false, some, List, [], ◌∷◌, arith,
}
use rtio.Server.Listening.{
  Listener, Progress, waits, panics, goes_on, started, init_tcp_server, Action, accepts,
  accept_fails, session_ends, session_sticks, context_ends, closes, waited, shutdown, step,
  then_run, run,
}

abbrev pub one_if : Bool → ℕ
one_if true = 1
one_if false = 0

abbrev pub listener : Bool → Bool → Bool → Bool → ℕ → ℕ → ℕ → ℕ → Bool → Listener
listener ctx up closing accepting serving stuck wait outer returned = record {
  ctx_done = ctx;
  listening = up;
  closing = closing;
  accepting = accepting;
  serving = serving;
  stuck = stuck;
  wait = wait;
  outer = outer;
  returned = returned;
}

-- The counter counts the sessions and the goroutine that accepts; Serve is counted outside until it
-- returns, and returns when the counter is 0.
pub record IsCounted (others : ℕ) (s : Listener) : Type 0 where
  pub wait_eq : s.wait ≡ s.serving + (s.stuck + one_if s.accepting)
  pub outer_eq : s.outer + one_if s.returned ≡ others + 1
  pub last : (s.returned ≡ false) ⊎ (s.wait ≡ 0)
  pub ended : (s.accepting ≡ true) ⊎ (s.ctx_done ≡ true)
  pub closer : (s.closing ≡ true) ⊎ (s.listening ≡ false)

abbrev pub Holds : (Listener → Type 0) → Progress → Type 0
Holds P waits = Unit {0}
Holds P panics = ⊥
Holds P (goes_on s) = P s

-- While the counter is not 0, Serve has not returned.
still_waiting :
    (others n : ℕ) (s : Listener) → IsCounted others s → s.wait ≡ suc n → s.returned ≡ false
still_waiting others n s h e = elim h.last [ inl q ↦ q | inr q ↦ absurd (omega (arith, e, q)) ]

accepts-IsCounted :
    (others : ℕ) (ctx up closing accepting : Bool) (serving stuck wait outer : ℕ) (returned : Bool)
    → IsCounted others (listener ctx up closing accepting serving stuck wait outer returned)
    → Holds
        (IsCounted others)
        (step accepts (listener ctx up closing accepting serving stuck wait outer returned))
unfolding step
accepts-IsCounted others ctx true closing true serving stuck wait outer returned h = record {
  wait_eq = omega (arith, h.wait_eq);
  outer_eq = h.outer_eq;
  last = inl (still_waiting others (serving + stuck) _ h (omega (arith, h.wait_eq)));
  ended = inl refl;
  closer = h.closer;
}
accepts-IsCounted others ctx false closing true serving stuck wait outer returned h = tt
accepts-IsCounted others ctx up closing false serving stuck wait outer returned h = tt

fails-IsCounted :
    (others : ℕ) (ctx up closing accepting : Bool) (serving stuck wait outer : ℕ) (returned : Bool)
    → IsCounted others (listener ctx up closing accepting serving stuck wait outer returned)
    → Holds
        (IsCounted others)
        (step accept_fails (listener ctx up closing accepting serving stuck wait outer returned))
unfolding step
fails-IsCounted others ctx up closing true serving stuck zero outer returned h =
    absurd (omega (arith, h.wait_eq))
fails-IsCounted others ctx up closing true serving stuck (suc n) outer returned h = record {
  wait_eq = omega (arith, h.wait_eq);
  outer_eq = h.outer_eq;
  last = inl (still_waiting others n _ h refl);
  ended = inr refl;
  closer = h.closer;
}
fails-IsCounted others ctx up closing false serving stuck wait outer returned h = tt

session-IsCounted :
    (others : ℕ) (ctx up closing accepting : Bool) (serving stuck wait outer : ℕ) (returned : Bool)
    → IsCounted others (listener ctx up closing accepting serving stuck wait outer returned)
    → Holds
        (IsCounted others)
        (step session_ends (listener ctx up closing accepting serving stuck wait outer returned))
unfolding step
session-IsCounted others ctx up closing accepting zero stuck wait outer returned h = tt
session-IsCounted others ctx up closing accepting (suc m) stuck zero outer returned h =
    absurd (omega (arith, h.wait_eq))
session-IsCounted others ctx up closing accepting (suc m) stuck (suc n) outer returned h = record {
  wait_eq = omega (arith, h.wait_eq);
  outer_eq = h.outer_eq;
  last = inl (still_waiting others n _ h refl);
  ended = h.ended;
  closer = h.closer;
}

sticks-IsCounted :
    (others : ℕ) (ctx up closing accepting : Bool) (serving stuck wait outer : ℕ) (returned : Bool)
    → IsCounted others (listener ctx up closing accepting serving stuck wait outer returned)
    → Holds
        (IsCounted others)
        (step session_sticks (listener ctx up closing accepting serving stuck wait outer returned))
unfolding step
sticks-IsCounted others ctx up closing accepting zero stuck wait outer returned h = tt
sticks-IsCounted others ctx up closing accepting (suc m) stuck wait outer returned h = record {
  wait_eq = omega (arith, h.wait_eq);
  outer_eq = h.outer_eq;
  last = h.last;
  ended = h.ended;
  closer = h.closer;
}

closes-IsCounted :
    (others : ℕ) (ctx up closing accepting : Bool) (serving stuck wait outer : ℕ) (returned : Bool)
    → IsCounted others (listener ctx up closing accepting serving stuck wait outer returned)
    → Holds
        (IsCounted others)
        (step closes (listener ctx up closing accepting serving stuck wait outer returned))
unfolding step shutdown
closes-IsCounted others true up true accepting serving stuck wait outer returned h = record {
  wait_eq = h.wait_eq;
  outer_eq = h.outer_eq;
  last = h.last;
  ended = h.ended;
  closer = inr refl;
}
closes-IsCounted others false up true accepting serving stuck wait outer returned h = tt
closes-IsCounted others ctx up false accepting serving stuck wait outer returned h = tt

waited-IsCounted :
    (others : ℕ) (ctx up closing accepting : Bool) (serving stuck wait outer : ℕ) (returned : Bool)
    → IsCounted others (listener ctx up closing accepting serving stuck wait outer returned)
    → Holds
        (IsCounted others)
        (step waited (listener ctx up closing accepting serving stuck wait outer returned))
unfolding step
waited-IsCounted others ctx up closing accepting serving stuck wait outer true h = tt
waited-IsCounted others ctx up closing accepting serving stuck (suc n) outer false h = tt
waited-IsCounted others ctx up closing accepting serving stuck zero zero false h =
    absurd (omega (arith, h.outer_eq))
waited-IsCounted others ctx up closing accepting serving stuck zero (suc n) false h = record {
  wait_eq = h.wait_eq;
  outer_eq = omega (arith, h.outer_eq);
  last = inr refl;
  ended = h.ended;
  closer = h.closer;
}

pub step-IsCounted :
    (others : ℕ) (a : Action) (s : Listener)
    → IsCounted others s
    → Holds (IsCounted others) (step a s)
unfolding step
step-IsCounted others accepts s h = accepts-IsCounted _ _ _ _ _ _ _ _ _ _ h
step-IsCounted others accept_fails s h = fails-IsCounted _ _ _ _ _ _ _ _ _ _ h
step-IsCounted others session_ends s h = session-IsCounted _ _ _ _ _ _ _ _ _ _ h
step-IsCounted others session_sticks s h = sticks-IsCounted _ _ _ _ _ _ _ _ _ _ h
step-IsCounted others context_ends s h = record {
  wait_eq = h.wait_eq;
  outer_eq = h.outer_eq;
  last = h.last;
  ended = inr refl;
  closer = h.closer;
}
step-IsCounted others closes s h = closes-IsCounted _ _ _ _ _ _ _ _ _ _ h
step-IsCounted others waited s h = waited-IsCounted _ _ _ _ _ _ _ _ _ _ h

pub started-IsCounted : (others : ℕ) → IsCounted others (started others)
started-IsCounted others = record {
  wait_eq = omega arith;
  outer_eq = omega arith;
  last = inl refl;
  ended = inl refl;
  closer = inl refl;
}

next-Holds :
    (P : Listener → Type 0) (next : Listener → Progress)
    → ((s : Listener) → P s → Holds P (next s))
    → (r : Progress) → Holds P r
    → Holds P (then_run next r)
next-Holds P next f waits q = tt
next-Holds P next f panics q = q
next-Holds P next f (goes_on t) q = f t q

pub run-Holds :
    (P : Listener → Type 0)
    → ((a : Action) (s : Listener) → P s → Holds P (step a s))
    → (actions : List Action) (s : Listener) → P s
    → Holds P (run actions s)
run-Holds P keep [] s p = p
run-Holds P keep (a ∷ more) s p =
    next-Holds P (run more) (λ t q. run-Holds P keep more t q) (step a s) (keep a s p)

-- Serve has not returned, or everything that it counts has.
abbrev pub WaitsForAll : ℕ → Listener → Type 0
WaitsForAll others s =
    (s.returned ≡ false)
    ⊎ ((s.outer ≡ others)
        × (s.serving ≡ 0)
        × (s.stuck ≡ 0)
        × (s.accepting ≡ false)
        × (s.ctx_done ≡ true))

-- The counter is 0 only where nothing is counted.
counted_last :
    (others : ℕ) (ctx up closing accepting : Bool) (serving stuck wait outer : ℕ) (returned : Bool)
    → IsCounted others (listener ctx up closing accepting serving stuck wait outer returned)
    → WaitsForAll others (listener ctx up closing accepting serving stuck wait outer returned)
counted_last others ctx up closing accepting serving stuck wait outer false h = inl refl
counted_last others ctx up closing true serving stuck wait outer true h = elim h.last [
  | inl e ↦ inl e
  | inr e ↦ absurd (omega (arith, e, h.wait_eq))
]
counted_last others ctx up closing false serving stuck wait outer true h = elim h.last [
  | inl e ↦ inl e
  | inr e ↦ elim h.ended [
    | inl a ↦ absurd (ground (arith, a))
    | inr c ↦ inr (
      omega (arith, h.outer_eq),
      omega (arith, e, h.wait_eq),
      omega (arith, e, h.wait_eq),
      refl,
      c,
    )
  ]
]

pub progress-Holds :
    (P Q : Listener → Type 0) (r : Progress) → ((s : Listener) → P s → Q s) → Holds P r → Holds Q r
progress-Holds P Q waits f h = tt
progress-Holds P Q panics f h = h
progress-Holds P Q (goes_on s) f h = f s h

init_lem :
    (up : Bool) (others : ℕ) (s : Listener)
    → init_tcp_server up others ≡ some s
    → started others ≡ s
unfolding init_tcp_server
init_lem true others s e = cc (e)
init_lem false others s e = absurd (ground (arith, e))

pub run-IsCounted :
    (up : Bool) (others : ℕ) (actions : List Action) (s : Listener)
    → init_tcp_server up others ≡ some s
    → Holds (IsCounted others) (run actions s)
run-IsCounted up others actions s e =
    run-Holds (IsCounted others) (step-IsCounted others) actions s
      (subst (IsCounted others) (init_lem up others s e) (started-IsCounted others))

-- Over any interleaving of connections, errors of Accept, ends of sessions and the end of the context
-- after InitTCPServer, no WaitGroup goes below 0. Where Serve has returned, the counter of the program
-- is what it was before InitTCPServer, no connection is accepted any more, every session that was
-- accepted has returned, none waiting for ever, and the context of the sessions is done.
pub serve_waits_for_sessions :
    (up : Bool) (others : ℕ) (actions : List Action) (s : Listener)
    → init_tcp_server up others ≡ some s
    → Holds (WaitsForAll others) (run actions s)
serve_waits_for_sessions up others actions s e =
    progress-Holds (IsCounted others) (WaitsForAll others) (run actions s)
      (λ t h. counted_last others _ _ _ _ _ _ _ _ _ h) (run-IsCounted up others actions s e)
