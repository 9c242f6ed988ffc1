-- ===== src/Server/Sessions/Standing.antt =====
-- What holds of the sessions in the map, and how the end of one keeps it.
use rtio.Prelude.{
  ℕ_discrete, ℕ, ◌+◌, ◌<◌, ◌≡◌, ◌≢◌, ◌⊎◌, inl, inr, refl, sym, ap, subst, ◌∙◌, Option, none, some,
  List, Option-cases, arith,
}
use rtio.SyncMap.{bytes_eq}
use rtio.Server.Sessions.{
  del_verified, get_session_of, put_session, Life, serving, stuck, gone, SessionState, World,
  at_session, serve_ends, cancel,
}
use rtio.Server.Sessions.Registry.{
  IsCounted, del_session-IsCounted, put_session-IsCounted, found_after-del_session,
  others_after-del_session, found_after-put_session, put_after-put_session, kept_after-put_session,
}
use rtio.Server.Sessions.Adding.{set_same, set_other, cancel_serving, cancel_stuck, cancel_gone}

-- Every session of the map has passed the verification of its device and has not returned, and every
-- verified one that can get on is in the map; only the end of a session sends on its `done`. Session `n` is the next, or the one that is added.
pub record IsServed (n : ℕ) (w : World) : Type 0 where
  pub counted : IsCounted w.server
  pub holds :
      (id : List ℕ) (h : ℕ)
      → get_session_of id w.server.sessions ≡ some h
      → (h ≢ n) × ((w.session h).verified ≡ some id) × ((w.session h).life ≢ gone)
  pub live :
      (id : List ℕ) (h : ℕ)
      → h ≢ n
      → (w.session h).life ≡ serving
      → (w.session h).verified ≡ some id
      → get_session_of id w.server.sessions ≡ some h
  pub fresh : (h : ℕ) → n < h → (w.session h).verified ≡ none
  pub quiet : (h : ℕ) → h ≢ n → (w.session h).life ≢ gone → (w.session h).done ≡ 0

-- What may change of a session while the map stays as it is.
pub record IsKept (a b : SessionState) : Type 0 where
  pub same : b.verified ≡ a.verified
  pub kept : (id : List ℕ) → a.verified ≡ some id → a.life ≢ gone → b.life ≢ gone
  pub alive : b.life ≡ serving → a.life ≡ serving
  pub still : (a.life ≢ gone → a.done ≡ 0) → b.life ≢ gone → b.done ≡ 0

refl-IsKept : (a : SessionState) → IsKept a a
refl-IsKept a = record { same = refl; kept = λ id e l. l; alive = λ e. e; still = λ q. q }

pub kept-IsServed :
    (n m : ℕ) (w : World) (f : ℕ → SessionState)
    → ((k : ℕ) → k ≢ n → IsKept (w.session k) (f k))
    → IsServed n w
    → IsServed n (record w { session = f; next = m })
kept-IsServed n m w f k s = record {
  counted = s.counted;
  holds = λ id h e.
      let (other, v, l) = s.holds id h e in (other, (k h other).same ∙ v, (k h other).kept id v l);
  live = λ id h other l v. s.live id h other ((k h other).alive l) (sym (k h other).same ∙ v);
  fresh = λ h lt.
      let other : h ≢ n = λ e. absurd (omega (arith, lt, e)) in (k h other).same ∙ s.fresh h lt;
  quiet = λ h other l. (k h other).still (s.quiet h other) l;
}

-- One session changes.
pub set-IsKept :
    (n h : ℕ) (v : SessionState) (f : ℕ → SessionState)
    → ((h ≢ n) → IsKept (f h) v)
    → (k : ℕ) → k ≢ n
    → IsKept (f k) (at_session h v f k)
set-IsKept n h v f p k other = elim (ℕ_discrete k h) [
  | yes e ↦
      subst (λ x. IsKept (f x) (at_session h v f x)) (sym e)
        (subst (IsKept (f h)) (sym (set_same h v f)) (p (λ q. other (e ∙ q))))
  | no d ↦ subst (IsKept (f k)) (sym (set_other h k v f d)) (refl-IsKept (f k))
]

-- What the end of serve comes to, for a session with this device id.
abbrev ended_with : Option (List ℕ) → ℕ → World → World
ended_with o h w = record w {
  server = del_verified o w.server;
  session =
      at_session h (record (w.session h) { life = gone; done = (w.session h).done + 1 }) w.session;
}

serve_ends_lem :
    (o : Option (List ℕ)) (h : ℕ) (w : World)
    → (w.session h).verified ≡ o
    → serve_ends h w ≡ ended_with o h w
unfolding serve_ends
serve_ends_lem o h w e = ap (λ v. ended_with v h w) e

-- A session that has not been verified ends.
unverified_ends :
    (n h : ℕ) (w : World)
    → (w.session h).verified ≡ none
    → IsServed n w
    → IsServed n (ended_with none h w)
unverified_ends n h w e s =
    kept-IsServed n w.next w _
      (set-IsKept n h (record (w.session h) { life = gone; done = (w.session h).done + 1 })
        w.session
        (λ d. record {
          same = refl;
          kept = λ id v. absurd (ground (arith, e, v));
          alive = λ q. absurd (ground (arith, q));
          still = λ q l. absurd (l refl);
        }))
      s

-- A verified session ends: it was the one of its device.
verified_ends :
    (n h : ℕ) (id : List ℕ) (w : World)
    → h ≢ n
    → (w.session h).life ≡ serving
    → (w.session h).verified ≡ some id
    → IsServed n w
    → IsServed n (ended_with (some id) h w)
verified_ends n h id w other l e s =
    let found = s.live id h other l e in
    let v : SessionState = record (w.session h) { life = gone; done = (w.session h).done + 1 } in
    record {
      counted = del_session-IsCounted id h w.server found s.counted;
      holds = λ id2 k q.
          let (old, ne) = found_after-del_session id id2 k w.server q in
          let d : k ≢ h = λ eq. ne (
            ground (
              arith,
              e,
              subst (λ x. (w.session x).verified ≡ some id2) eq (s.holds id2 k old).1,
            )) in
          subst (λ x. (k ≢ n) × (x.verified ≡ some id2) × (x.life ≢ gone))
            (sym (set_other h k v w.session d)) (s.holds id2 k old);
      live = λ id2 k k_n q r. elim (ℕ_discrete k h) [
        | yes eq ↦ absurd (
            ground (
              arith,
              sym q
                  ∙ ap (λ x. (at_session h v w.session x).life) eq
                  ∙ ap (λ x. x.life) (set_same h v w.session),
            ))
        | no d ↦
            let same = set_other h k v w.session d in
            let old =
              s.live id2 k k_n (ap (λ x. x.life) (sym same) ∙ q)
                (ap (λ x. x.verified) (sym same) ∙ r) in
            others_after-del_session id id2 w.server (λ eq. d (
              ground
                (arith, found, subst (λ i. get_session_of i w.server.sessions ≡ some k) eq old)))
            ∙ old
      ];
      fresh = λ k lt.
          let d : k ≢ h = λ eq.
            absurd
              (ground (arith, e, subst (λ x. (w.session x).verified ≡ none) eq (s.fresh k lt))) in
          ap (λ x. x.verified) (set_other h k v w.session d) ∙ s.fresh k lt;
      quiet = λ k k_n q. elim (ℕ_discrete k h) [
        | yes eq ↦ absurd (
            q (
              ap (λ x. (at_session h v w.session x).life) eq
              ∙ ap (λ x. x.life) (set_same h v w.session)))
        | no d ↦
            let same = set_other h k v w.session d in
            ap (λ x. x.done) same ∙ s.quiet k k_n (λ r. q (ap (λ x. x.life) same ∙ r))
      ];
    }

-- The next session is put in the map, where its device has none.
pub placed :
    (n : ℕ) (id : List ℕ) (w : World)
    → IsServed n w
    → get_session_of id w.server.sessions ≡ none
    → (w.session n).life ≡ serving
    → (w.session n).verified ≡ some id
    → (w.session n).done ≡ 0
    → IsServed (n + 1) (record w { server = put_session id n w.server; next = n + 1 })
placed n id w s e l v z = record {
  counted = put_session-IsCounted id n w.server e s.counted;
  holds = λ id2 k q. elim (found_after-put_session id id2 n k w.server q) [
    | inl (same, eq) ↦ (
      omega (arith, eq),
      ap (λ x. (w.session x).verified) eq ∙ v ∙ ap some (sym same),
      λ r. absurd (ground (arith, l, ap (λ x. (w.session x).life) (sym eq) ∙ r)),
    )
    | inr old ↦
        let (other, seen, alive) = s.holds id2 k old in
        (λ eq. absurd (ground (arith, seen, s.fresh k (omega (arith, eq)))), seen, alive)
  ];
  live = λ id2 k k_n q r. elim (ℕ_discrete k n) [
    | yes eq ↦
        let same : id2 ≡ id = ground (arith, v, ap (λ x. (w.session x).verified) (sym eq) ∙ r) in
        subst (λ i. get_session_of i (put_session id n w.server).sessions ≡ some k) (sym same)
          (put_after-put_session id n w.server ∙ ap some (sym eq))
    | no d ↦ kept_after-put_session id id2 n k w.server e (s.live id2 k d q r)
  ];
  fresh = λ k lt. s.fresh k (omega (arith, lt));
  quiet = λ k k_n q. elim (ℕ_discrete k n) [
    | yes eq ↦ ap (λ x. (w.session x).done) eq ∙ z
    | no d ↦ s.quiet k d q
  ];
}

pub ends-IsServed :
    (n h : ℕ) (w : World)
    → h ≢ n
    → (w.session h).life ≡ serving
    → IsServed n w
    → IsServed n (serve_ends h w)
ends-IsServed n h w other l s = elim (Option-cases (w.session h).verified) [
  | inl e ↦ subst (IsServed n) (sym (serve_ends_lem none h w e)) (unverified_ends n h w e s)
  | inr (id, e) ↦
      subst (IsServed n) (sym (serve_ends_lem (some id) h w e)) (verified_ends n h id w other l e s)
]

pub life_cases : (l : Life) → (l ≡ serving) ⊎ ((l ≡ stuck) ⊎ (l ≡ gone))
life_cases serving = inl refl
life_cases stuck = inr (inl refl)
life_cases gone = inr (inr refl)

pub cancel-IsServed : (n h : ℕ) (w : World) → h ≢ n → IsServed n w → IsServed n (cancel h w)
cancel-IsServed n h w other s = elim (life_cases (w.session h).life) [
  | inl e ↦ subst (IsServed n) (sym (cancel_serving h w e)) (ends-IsServed n h w other e s)
  | inr (inl e) ↦ subst (IsServed n) (sym (cancel_stuck h w e)) s
  | inr (inr e) ↦ subst (IsServed n) (sym (cancel_gone h w e)) s
]
