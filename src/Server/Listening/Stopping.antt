-- ===== src/Server/Listening/Stopping.antt =====
-- How the server comes to an end.
use rtio.Prelude.{
  ◌<◌, ◌⊎◌, ℕ, zero, suc, ◌≤◌, ◌≡◌, refl, ap, subst, ◌∙◌, inl, inr, Bool, true, false, some, List,
  [], ◌∷◌, arith,
}
use rtio.Server.Listening.{
  Listener, Progress, waits, panics, goes_on, init_tcp_server, wait_done, Action, accepts,
  accept_fails, session_ends, session_sticks, context_ends, closes, waited, shutdown, step,
  then_run, run,
}
use rtio.Server.Listening.Waiting.{
  IsCounted, Holds, listener, run-IsCounted, step-IsCounted, run-Holds, progress-Holds,
}

-- The server can come to where Serve has returned.
abbrev Returns : Listener → Type 0
Returns s =
    (more : List Action) × (t : Listener) × (run more s ≡ goes_on t)
    × (t.returned ≡ true)
    × (t.serving ≡ 0)
    × (t.listening ≡ false)

Returns-by : (a : Action) (s t : Listener) → step a s ≡ goes_on t → Returns t → Returns s
Returns-by a s t e (more, u, r, q, n, l) = (a ∷ more, u, ap (then_run (run more)) e ∙ r, q, n, l)

-- With nothing accepted any more, the sessions return, and then Serve does.
sessions_return :
    (others : ℕ) (ctx closing : Bool) (serving wait outer : ℕ)
    → IsCounted others (listener ctx false closing false serving 0 wait outer false)
    → Returns (listener ctx false closing false serving 0 wait outer false)
unfolding step
sessions_return others ctx closing zero zero zero h = absurd (omega (arith, h.outer_eq))
sessions_return others ctx closing zero zero (suc n) h = (waited ∷ [], _, refl, refl, refl, refl)
sessions_return others ctx closing zero (suc n) outer h = absurd (omega (arith, h.wait_eq))
sessions_return others ctx closing (suc m) zero outer h = absurd (omega (arith, h.wait_eq))
sessions_return others ctx closing (suc m) (suc n) outer h =
    Returns-by session_ends _ (listener ctx false closing false m 0 n outer false) refl (
      sessions_return others ctx closing m n outer (record {
        wait_eq = omega (arith, h.wait_eq);
        outer_eq = h.outer_eq;
        last = inl refl;
        ended = h.ended;
        closer = h.closer;
      }))

-- The listener is closed, and Accept fails.
accepting_stops :
    (others : ℕ) (closing accepting : Bool) (serving wait outer : ℕ)
    → IsCounted others (listener true false closing accepting serving 0 wait outer false)
    → Returns (listener true false closing accepting serving 0 wait outer false)
unfolding step
accepting_stops others closing false serving wait outer h =
    sessions_return others true closing serving wait outer h
accepting_stops others closing true serving zero outer h = absurd (omega (arith, h.wait_eq))
accepting_stops others closing true serving (suc n) outer h =
    Returns-by accept_fails _ (listener true false closing false serving 0 n outer false) refl
      (sessions_return others true closing serving n outer (step-IsCounted others accept_fails _ h))

-- The goroutine that waits for the context closes the listener.
closer_closes :
    (others : ℕ) (up closing accepting : Bool) (serving wait outer : ℕ)
    → IsCounted others (listener true up closing accepting serving 0 wait outer false)
    → Returns (listener true up closing accepting serving 0 wait outer false)
unfolding step shutdown
closer_closes others up true accepting serving wait outer h =
    Returns-by closes _ (listener true false false accepting serving 0 wait outer false) refl
      (accepting_stops others false accepting serving wait outer (step-IsCounted others closes _ h))
closer_closes others false false accepting serving wait outer h =
    accepting_stops others false accepting serving wait outer h
closer_closes others true false accepting serving wait outer h = elim h.closer [
  | inl e ↦ absurd (ground (arith, e))
  | inr e ↦ absurd (ground (arith, e))
]

abbrev IfGoes : (Listener → Type 0) → Progress → Type 0
IfGoes P waits = Unit {0}
IfGoes P panics = Unit {0}
IfGoes P (goes_on s) = P s

done_IfGoes :
    (P : Listener → Type 0) (n : ℕ) (s : Listener)
    → ((m : ℕ) → P (record s { wait = m }))
    → IfGoes P (wait_done n s)
done_IfGoes P zero s f = tt
done_IfGoes P (suc n) s f = f n

-- A session waits for ever, and Serve has not returned.
abbrev pub IsBlocked : Listener → Type 0
IsBlocked s = (0 < s.stuck) × (s.returned ≡ false)

-- Nothing frees a session that waits for ever, and the counter counts it.
listener-IsBlocked :
    (others : ℕ) (a : Action) (ctx up closing accepting : Bool) (serving stuck wait outer : ℕ)
    (returned : Bool)
    → IsCounted others (listener ctx up closing accepting serving stuck wait outer returned)
    → IsBlocked (listener ctx up closing accepting serving stuck wait outer returned)
    → IfGoes IsBlocked
        (step a (listener ctx up closing accepting serving stuck wait outer returned))
unfolding step shutdown
listener-IsBlocked others accepts ctx true closing true serving stuck wait outer returned h k = k
listener-IsBlocked others accepts ctx false closing true serving stuck wait outer returned h k = tt
listener-IsBlocked others accepts ctx up closing false serving stuck wait outer returned h k = tt
listener-IsBlocked others accept_fails ctx up closing true serving stuck wait outer returned h k =
    done_IfGoes _ wait _ (λ m. k)
listener-IsBlocked others accept_fails ctx up closing false serving stuck wait outer returned h k =
    tt
listener-IsBlocked others session_ends ctx up closing accepting zero stuck wait outer returned h k =
    tt
listener-IsBlocked others session_ends ctx up closing accepting (suc m) stuck wait outer returned h
      k =
    done_IfGoes _ wait _ (λ n. k)
listener-IsBlocked others session_sticks ctx up closing accepting zero stuck wait outer returned h
      k =
    tt
listener-IsBlocked others session_sticks ctx up closing accepting (suc m) stuck wait outer returned
      h k =
    (omega (arith, k.0), k.1)
listener-IsBlocked others context_ends ctx up closing accepting serving stuck wait outer returned h
      k =
    k
listener-IsBlocked others closes true up true accepting serving stuck wait outer returned h k = k
listener-IsBlocked others closes false up true accepting serving stuck wait outer returned h k = tt
listener-IsBlocked others closes ctx up false accepting serving stuck wait outer returned h k = tt
listener-IsBlocked others waited ctx up closing accepting serving stuck wait outer true h k = tt
listener-IsBlocked others waited ctx up closing accepting serving stuck zero outer false h k =
    absurd (omega (arith, h.wait_eq, k.0))
listener-IsBlocked others waited ctx up closing accepting serving stuck (suc n) outer false h k = tt

both_hold :
    (P Q : Listener → Type 0) (r : Progress) → Holds P r → IfGoes Q r → Holds (λ s. P s × Q s) r
both_hold P Q waits p q = tt
both_hold P Q panics p q = p
both_hold P Q (goes_on s) p q = (p, q)

blocked_runs :
    (others : ℕ) (more : List Action) (t : Listener)
    → IsCounted others t
    → IsBlocked t
    → Holds (λ u. u.returned ≡ false) (run more t)
blocked_runs others more t h k =
    progress-Holds _ _ (run more t) (λ u p. p.1.1)
      (run-Holds (λ u. IsCounted others u × IsBlocked u)
        (λ a s p.
          both_hold (IsCounted others) IsBlocked (step a s) (step-IsCounted others a s p.0)
            (listener-IsBlocked others a _ _ _ _ _ _ _ _ _ p.0 p.1))
        more t (h, k))

-- What Serve can come to: it can return, with the listener closed and all sessions returned, or a
-- session waits for ever, and whatever else happens Serve does not return.
abbrev pub ReturnsUnlessStuck : Listener → Type 0
ReturnsUnlessStuck t =
    ((t.stuck ≡ 0)
      × ((more : List Action) × (u : Listener) × (run more t ≡ goes_on u)
          × (u.returned ≡ true)
          × (u.serving ≡ 0)
          × (u.listening ≡ false)))
    ⊎ ((0 < t.stuck) × ((more : List Action) → Holds (λ u. u.returned ≡ false) (run more t)))

-- In every state after InitTCPServer where the context is done and Serve has not returned, whatever
-- happened before and however many sessions there are: if no session waits for ever, the goroutines
-- of the server can get on to where Serve has returned, with the listener closed and all sessions
-- returned; and if one does, Serve never returns, whatever else happens.
pub serve_can_return :
    (up : Bool) (others : ℕ) (actions : List Action) (s t : Listener)
    → init_tcp_server up others ≡ some s
    → run actions s ≡ goes_on t
    → t.ctx_done ≡ true
    → t.returned ≡ false
    → ReturnsUnlessStuck t
serve_can_return up others actions s t e r done n =
    let h = subst (Holds (IsCounted others)) r (run-IsCounted up others actions s e) in
    go t.ctx_done t.stuck t.returned done n h
  where
    go :
        (ctx : Bool) (stuck : ℕ) (back : Bool)
        → ctx ≡ true
        → back ≡ false
        → IsCounted others (record t { ctx_done = ctx; stuck = stuck; returned = back })
        → ReturnsUnlessStuck (record t { ctx_done = ctx; stuck = stuck; returned = back })
    go true zero false c b h = inl (refl, closer_closes others _ _ _ _ _ _ h)
    go true (suc m) false c b h =
        inr (omega arith, λ more. blocked_runs others more _ h (omega arith, refl))
    go true stuck true c b h = absurd (ground (arith, b))
    go false stuck back c b h = absurd (ground (arith, c))

-- No connection is accepted any more.
record IsOver (n : ℕ) (s : Listener) : Type 0 where
  no_accept : s.accepting ≡ false
  done : s.ctx_done ≡ true
  fewer : s.serving ≤ n

IsOver-at :
    {n : ℕ} (s : Listener) → s.accepting ≡ false → s.ctx_done ≡ true → s.serving ≤ n → IsOver n s
IsOver-at s a c k = record { no_accept = a; done = c; fewer = k }

listener-IsOver :
    (n : ℕ) (a : Action) (up closing : Bool) (serving stuck wait outer : ℕ) (returned : Bool)
    → serving ≤ n
    → IfGoes (IsOver n) (step a (listener true up closing false serving stuck wait outer returned))
unfolding step shutdown
listener-IsOver n accepts up closing serving stuck wait outer returned le = tt
listener-IsOver n accept_fails up closing serving stuck wait outer returned le = tt
listener-IsOver n session_ends up closing zero stuck wait outer returned le = tt
listener-IsOver n session_ends up closing (suc m) stuck wait outer returned le =
    done_IfGoes _ wait _ (λ k. IsOver-at _ refl refl (omega (arith, le)))
listener-IsOver n session_sticks up closing zero stuck wait outer returned le = tt
listener-IsOver n session_sticks up closing (suc m) stuck wait outer returned le =
    IsOver-at _ refl refl (omega (arith, le))
listener-IsOver n context_ends up closing serving stuck wait outer returned le =
    IsOver-at _ refl refl le
listener-IsOver n closes up true serving stuck wait outer returned le = IsOver-at _ refl refl le
listener-IsOver n closes up false serving stuck wait outer returned le = tt
listener-IsOver n waited up closing serving stuck wait outer true le = tt
listener-IsOver n waited up closing serving stuck zero zero false le = tt
listener-IsOver n waited up closing serving stuck zero (suc m) false le = IsOver-at _ refl refl le
listener-IsOver n waited up closing serving stuck (suc m) outer false le = tt

step-IsOver : (n : ℕ) (a : Action) (s : Listener) → IsOver n s → IfGoes (IsOver n) (step a s)
step-IsOver n a s h = go s.ctx_done s.accepting h.done h.no_accept
  where
    go :
        (ctx accepting : Bool)
        → ctx ≡ true
        → accepting ≡ false
        → IfGoes (IsOver n) (step a (record s { ctx_done = ctx; accepting = accepting }))
    go ctx accepting c e =
        rw (c, e)
          (listener-IsOver n a s.listening s.closing s.serving s.stuck s.wait s.outer s.returned
            h.fewer)

run_from :
    (P Q : Listener → Type 0) (r : Progress) (more : List Action) (t : Listener)
    → IfGoes P r
    → then_run (run more) r ≡ goes_on t
    → ((s : Listener) → P s → run more s ≡ goes_on t → Q t)
    → Q t
run_from P Q waits more t h e f = absurd (ground (arith, e))
run_from P Q panics more t h e f = absurd (ground (arith, e))
run_from P Q (goes_on s) more t h e f = f s h e

run-IsOver :
    (n : ℕ) (actions : List Action) (s t : Listener)
    → IsOver n s
    → run actions s ≡ goes_on t
    → IsOver n t
run-IsOver n [] s t h e = subst (IsOver n) (cc (e)) h
run-IsOver n (a ∷ more) s t h e =
    run_from (IsOver n) (IsOver n) (step a s) more t (step-IsOver n a s h) e
      (λ u k r. run-IsOver n more u t k r)

fails-IsOver :
    (ctx up closing accepting : Bool) (serving stuck wait outer : ℕ) (returned : Bool)
    → IfGoes
        (IsOver serving)
        (step accept_fails (listener ctx up closing accepting serving stuck wait outer returned))
unfolding step
fails-IsOver ctx up closing true serving stuck wait outer returned =
    done_IfGoes _ wait _ (λ k. IsOver-at _ refl refl (omega arith))
fails-IsOver ctx up closing false serving stuck wait outer returned = tt

-- After one error of Accept, whichever it is, no connection is accepted any more, and the context of
-- every session that is still served is done, whatever happens next.
pub accept_error_ends_server :
    (actions : List Action) (s t : Listener)
    → run (accept_fails ∷ actions) s ≡ goes_on t
    → (t.accepting ≡ false) × (t.ctx_done ≡ true) × (t.serving ≤ s.serving)
accept_error_ends_server actions s t e =
    let h =
      run_from (IsOver s.serving) (IsOver s.serving) (step accept_fails s) actions t
        (fails-IsOver _ _ _ _ _ _ _ _ _) e (λ u k r. run-IsOver s.serving actions u t k r) in
    (h.no_accept, h.done, h.fewer)
