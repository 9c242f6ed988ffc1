-- ===== src/Server/Sessions/Replacing.antt =====
-- How AddSession puts a session in the place of an older one.
use rtio.Prelude.{
  ℕ, ◌+◌, ◌≡◌, ◌⊎◌, inl, inr, refl, sym, ap, ◌∙◌, none, some, List, Option-cases, arith,
}
use rtio.SyncMap.{bytes_eq}
use rtio.Server.Sessions.{
  get_session_of, put_session, serving, stuck, gone, SessionState, World, serve_ends, put_after,
  await_done, add_session_of,
}
use rtio.Server.Sessions.Registry.{gone_after-del_session, put_after-put_session}
use rtio.Server.Sessions.Adding.{
  set_other, add_session_none, add_session_old, cancel_serving, cancel_stuck, take_done, wait_some,
  wait_none, ended_session,
}
use rtio.Server.Sessions.Standing.{
  IsServed, kept-IsServed, set-IsKept, placed, ends-IsServed, life_cases,
}

-- A session that is being added has this device id, and can get on.
abbrev pub IsAdding : List ℕ → SessionState → Type 0
IsAdding id v = (v.life ≡ serving) × (v.verified ≡ some id) × (v.done ≡ 0)

-- What AddSession of the next session comes to.
abbrev pub Added : List ℕ → ℕ → World → Type 0
Added id n w =
    (t : World) × (add_session_of id n w ≡ some t)
    × (get_session_of id t.server.sessions ≡ some n)
    × (t.next ≡ w.next)
    × IsServed (n + 1) (record t { next = n + 1 })

abbrev pub Waits : List ℕ → ℕ → World → Type 0
Waits id n w =
    (old : ℕ) × (get_session_of id w.server.sessions ≡ some old)
    × ((w.session old).life ≡ stuck)
    × (add_session_of id n w ≡ none)

-- The old session's serve returns, and its value is taken.
replaced :
    (n old : ℕ) (id : List ℕ) (w : World)
    → IsServed n w
    → IsAdding id (w.session n)
    → get_session_of id w.server.sessions ≡ some old
    → (w.session old).life ≡ serving
    → Added id n w
unfolding serve_ends
replaced n old id w s (l, v, z) found alive =
    let (other, seen, left) = s.holds id old found in
    let w3 = serve_ends old w in
    let d = (w.session old).done in
    let w4 = take_done d old w3 in
    let same : w4.session n ≡ w.session n =
      set_other old n _ w3.session (λ e. other (sym e))
      ∙ set_other old n (record (w.session old) { life = gone; done = d + 1 }) w.session
          (λ e. other (sym e)) in
    let blank : get_session_of id w4.server.sessions ≡ none =
      rw seen (gone_after-del_session id w.server) in
    let s4 : IsServed n w4 =
      kept-IsServed n w.next w3 _
        (set-IsKept n old (record (w3.session old) { done = d }) w3.session
          (λ k. record {
            same = refl;
            kept = λ i u q. q;
            alive = λ q. q;
            still = λ f q. absurd (q (ap (λ x. x.life) (ended_session old w)));
          }))
        (ends-IsServed n old w other alive s) in
    (
      record w4 { server = put_session id n w4.server },
      add_session_old id n old w found
          ∙ ap (λ u. put_after id n (await_done old u)) (cancel_serving old w alive)
          ∙ ap (put_after id n)
              (wait_some old d w3 (ap (λ x. x.done) (ended_session old w) ∙ omega arith)),
      put_after-put_session id n w4.server,
      refl,
      placed n id w4 s4 blank (ap (λ x. x.life) same ∙ l) (ap (λ x. x.verified) same ∙ v)
          (ap (λ x. x.done) same ∙ z),
    )

-- The session that is added, where the map has one of its device or none.
pub adds :
    (n : ℕ) (id : List ℕ) (w : World)
    → IsServed n w
    → IsAdding id (w.session n)
    → Added id n w ⊎ Waits id n w
adds n id w s a = elim (Option-cases (get_session_of id w.server.sessions)) [
  | inl e ↦ inl (
    record w { server = put_session id n w.server },
    add_session_none id n w e,
    put_after-put_session id n w.server,
    refl,
    placed n id w s e a.0 a.1 a.2,
  )
  | inr (old, e) ↦ elim (life_cases (w.session old).life) [
    | inl l ↦ inl (replaced n old id w s a e l)
    | inr (inl l) ↦
        let (other, seen, left) = s.holds id old e in
        inr (
          old,
          e,
          l,
          add_session_old id n old w e
              ∙ ap (λ u. put_after id n (await_done old u)) (cancel_stuck old w l)
              ∙ ap (put_after id n) (wait_none old w (s.quiet old other left)),
        )
    | inr (inr l) ↦ absurd ((s.holds id old e).2 l)
  ]
]
