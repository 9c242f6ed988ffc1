-- ===== src/Server/Sessions/Runs.antt =====
-- Devices that come and go, one after the other.
use rtio.Prelude.{
  ℕ, ◌+◌, ◌≡◌, ◌≢◌, ◌⊎◌, inl, inr, refl, sym, ap, subst, ◌∙◌, ltb, ltb→lt, Bool-cases, Option, none,
  some, List, [], ◌∷◌, Option-cases, if◌then◌else◌, arith,
}
use rtio.SyncMap.{load, bytes_eq}
use rtio.Server.Sessions.{
  get_session_of, Life, serving, stuck, gone, SessionState, World, at_session, serve_ends,
  ends_from, cancel, keep_id, pass_verification,
}
use rtio.Server.Sessions.Registry.{IsCounted}
use rtio.Server.Sessions.Adding.{set_same, set_other, kept_session}
use rtio.Server.Sessions.Standing.{IsServed, kept-IsServed, set-IsKept, cancel-IsServed}
use rtio.Server.Sessions.Replacing.{IsAdding, adds}

-- A device is verified on a new connection, a connection ends, or its serve comes to wait for ever.
pub data Event : Type 0 where
  arrives : List ℕ → Event
  leaves sticks : ℕ → Event

abbrev pub new_session : SessionState
new_session = record { life = serving; verified = none; done = 0 }

abbrev pub connected : World → World
connected w = record w { session = at_session w.next new_session w.session }

abbrev pub then_next : Option World → Option World
then_next none = none
then_next (some w) = some (record w { next = w.next + 1 })

abbrev pub stick_from : Life → ℕ → World → World
stick_from serving h w = record w {
  session = at_session h (record (w.session h) { life = stuck }) w.session;
}
stick_from stuck h w = w
stick_from gone h w = w

-- Only a session that there is can end, or come to wait.
abbrev pub step : Event → World → Option World
step (arrives id) w = then_next (pass_verification id w.next (connected w))
step (leaves h) w = some (if ltb h w.next then cancel h w else w)
step (sticks h) w = some (if ltb h w.next then stick_from (w.session h).life h w else w)

abbrev pub then_run : (World → Option World) → Option World → Option World
then_run next none = none
then_run next (some s) = next s

abbrev pub run : List Event → World → Option World
run [] s = some s
run (e ∷ es) s = then_run (run es) (step e s)

abbrev pub no_sessions : World
no_sessions = record {
  server = record { sessions = []; session_num = 0 };
  session = λ h. new_session;
  next = 0;
}

stick-IsServed :
    (n h : ℕ) (l : Life) (w : World)
    → (w.session h).life ≡ l
    → IsServed n w
    → IsServed n (stick_from l h w)
stick-IsServed n h serving w e s =
    kept-IsServed n w.next w _
      (set-IsKept n h (record (w.session h) { life = stuck }) w.session
        (λ d. record {
          same = refl;
          kept = λ id v l q. absurd (ground (arith, q));
          alive = λ q. absurd (ground (arith, q));
          still = λ f l. f (λ g. absurd (ground (arith, e, g)));
        }))
      s
stick-IsServed n h stuck w e s = s
stick-IsServed n h gone w e s = s

-- The state in which the next connection has a session whose verification has passed.
abbrev coming : List ℕ → World → World
coming id w = keep_id id w.next (connected w)

coming-IsServed : (id : List ℕ) (w : World) → IsServed w.next w → IsServed w.next (coming id w)
coming-IsServed id w s =
    kept-IsServed w.next w.next (connected w) _
      (set-IsKept w.next w.next _ _ (λ d. absurd (d refl)))
      (kept-IsServed w.next w.next w _ (set-IsKept w.next w.next _ _ (λ d. absurd (d refl))) s)

coming-IsAdding : (id : List ℕ) (w : World) → IsAdding id ((coming id w).session w.next)
coming-IsAdding id w =
    let kept = kept_session id w.next (connected w) in
    let fresh = set_same w.next new_session w.session in
    (
      ap (λ x. x.life) kept ∙ ap (λ x. x.life) fresh,
      ap (λ x. x.verified) kept,
      ap (λ x. x.done) kept ∙ ap (λ x. x.done) fresh,
    )

-- What an arrival comes to.
abbrev pub Arrives : List ℕ → World → Type 0
Arrives id w =
    ((t : World) × (step (arrives id) w ≡ some t)
      × (get_session_of id t.server.sessions ≡ some w.next)
      × IsCounted t.server)
    ⊎ ((old : ℕ) × (get_session_of id w.server.sessions ≡ some old)
        × ((w.session old).life ≡ stuck)
        × (step (arrives id) w ≡ none))

coming_other :
    (id : List ℕ) (w : World) (k : ℕ) → k ≢ w.next → (coming id w).session k ≡ w.session k
coming_other id w k d =
    set_other w.next k (record ((connected w).session w.next) { verified = some id })
      (connected w).session d
    ∙ set_other w.next k new_session w.session d

arrival :
    (id : List ℕ) (w : World)
    → IsServed w.next w
    → ((t : World) × (step (arrives id) w ≡ some t)
        × (get_session_of id t.server.sessions ≡ some w.next)
        × IsServed t.next t)
      ⊎ ((old : ℕ) × (get_session_of id w.server.sessions ≡ some old)
          × ((w.session old).life ≡ stuck)
          × (step (arrives id) w ≡ none))
unfolding pass_verification
arrival id w s =
    elim (adds w.next id (coming id w) (coming-IsServed id w s) (coming-IsAdding id w)) [
      | inl (t, e, found, same, kept) ↦
          inl (record t { next = t.next + 1 }, ap then_next e, found, rw same kept)
      | inr (old, e, l, never) ↦
          let (other, seen, left) = s.holds id old e in
          inr (old, e, ap (λ x. x.life) (sym (coming_other id w old other)) ∙ l, ap then_next never)
    ]

OnSome : (World → Type 0) → Option World → Type 0
OnSome P none = Unit {0}
OnSome P (some w) = P w

IsOpen : World → Type 0
IsOpen w = IsServed w.next w

cancel_next : (h : ℕ) (l : Life) (w : World) → (ends_from l h w).next ≡ w.next
unfolding serve_ends
cancel_next h serving w = refl
cancel_next h stuck w = refl
cancel_next h gone w = refl

stick_next : (h : ℕ) (l : Life) (w : World) → (stick_from l h w).next ≡ w.next
stick_next h serving w = refl
stick_next h stuck w = refl
stick_next h gone w = refl

step-IsOpen : (e : Event) (w : World) → IsOpen w → OnSome IsOpen (step e w)
unfolding IsOpen OnSome cancel
step-IsOpen (arrives id) w s = elim (arrival id w s) [
  | inl (t, e, found, kept) ↦ rw e kept
  | inr (old, e, l, never) ↦ rw never tt
]
step-IsOpen (leaves h) w s = elim (Bool-cases (ltb h w.next)) [
  | inl e ↦
      rw (e, cancel_next h (w.session h).life w)
        (cancel-IsServed w.next h w (λ q. absurd (omega (arith, q, ltb→lt h w.next e))) s)
  | inr e ↦ rw e s
]
step-IsOpen (sticks h) w s = elim (Bool-cases (ltb h w.next)) [
  | inl e ↦
      rw (e, stick_next h (w.session h).life w)
        (stick-IsServed w.next h (w.session h).life w refl s)
  | inr e ↦ rw e s
]

run-IsOpen : (es : List Event) (w t : World) → IsOpen w → run es w ≡ some t → IsOpen t
unfolding IsOpen OnSome
run-IsOpen [] w t s e = subst IsOpen (cc (e)) s
run-IsOpen (a ∷ es) w t s e = elim (Option-cases (step a w)) [
  | inl none_next ↦ absurd (ground (arith, e, none_next))
  | inr (next, q) ↦ run-IsOpen es next t (subst (OnSome IsOpen) q (step-IsOpen a w s)) (rw q at e)
]

no_sessions-IsOpen : IsOpen no_sessions
unfolding IsOpen get_session_of load
no_sessions-IsOpen = record {
  counted = record { distinct = tt; counted = refl };
  holds = λ id h e. absurd (cc (e));
  live = λ id h d l v. absurd (ground (arith, v));
  fresh = λ h lt. refl;
  quiet = λ h d l. refl;
}

-- Devices arrive on new connections and sessions end, or come to wait for ever in serve, one after the
-- other, on a server that starts with none. In every state that this comes to, no device has two
-- sessions, sessionNum is the number of devices that have one, as an int32, and AddSession of a device
-- that arrives next returns, with its new session in the map and the count right again, unless the
-- device's old session is one that waits for ever: AddSession never returns then.
pub run-no_sessions :
    (es : List Event) (w : World) (id : List ℕ)
    → run es no_sessions ≡ some w
    → IsCounted w.server × Arrives id w
unfolding IsOpen
run-no_sessions es w id e =
    let s = run-IsOpen es no_sessions w no_sessions-IsOpen e in
    (
      s.counted,
      elim (arrival id w s) [
        | inl (t, q, found, kept) ↦ inl (t, q, found, kept.counted)
        | inr never ↦ inr never
      ],
    )
