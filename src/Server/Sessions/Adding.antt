-- ===== src/Server/Sessions/Adding.antt =====
-- The steps of AddSession.
use rtio.Prelude.{ℕ, ◌+◌, suc, ◌≡◌, ◌≢◌, refl, ap, none, some, List, arith}
use rtio.Server.Sessions.{
  get_session_of, serving, stuck, gone, SessionState, World, at_session, serve_ends, ends_from,
  cancel, receive_done, put_after, await_done, add_session_of, keep_id,
}

pub set_same : (h : ℕ) (v : SessionState) (f : ℕ → SessionState) → at_session h v f h ≡ v
set_same h v f = ground arith

pub set_other :
    (h k : ℕ) (v : SessionState) (f : ℕ → SessionState) → k ≢ h → at_session h v f k ≡ f k
set_other h k v f n = ground (arith, n)

pub add_session_none :
    (id : List ℕ) (h : ℕ) (w : World)
    → get_session_of id w.server.sessions ≡ none
    → add_session_of id h w ≡ put_after id h (some w)
unfolding add_session_of
add_session_none id h w e = rw (e, add_session_of) refl

pub add_session_old :
    (id : List ℕ) (h old : ℕ) (w : World)
    → get_session_of id w.server.sessions ≡ some old
    → add_session_of id h w ≡ put_after id h (await_done old (cancel old w))
unfolding add_session_of
add_session_old id h old w e = rw (e, add_session_of) refl

pub cancel_serving :
    (h : ℕ) (w : World) → (w.session h).life ≡ serving → cancel h w ≡ serve_ends h w
unfolding cancel
cancel_serving h w e = ap (λ l. ends_from l h w) e

pub cancel_stuck : (h : ℕ) (w : World) → (w.session h).life ≡ stuck → cancel h w ≡ w
unfolding cancel
cancel_stuck h w e = ap (λ l. ends_from l h w) e

pub cancel_gone : (h : ℕ) (w : World) → (w.session h).life ≡ gone → cancel h w ≡ w
unfolding cancel
cancel_gone h w e = ap (λ l. ends_from l h w) e

-- One value is taken from `done`.
abbrev pub take_done : ℕ → ℕ → World → World
take_done n h w = record w { session = at_session h (record (w.session h) { done = n }) w.session }

pub wait_some :
    (h n : ℕ) (w : World) → (w.session h).done ≡ suc n → await_done h w ≡ some (take_done n h w)
wait_some h n w e = ap (λ m. receive_done m h w) e

pub wait_none : (h : ℕ) (w : World) → (w.session h).done ≡ 0 → await_done h w ≡ none
wait_none h w e = ap (λ m. receive_done m h w) e

pub taken_session :
    (n h : ℕ) (w : World) → (take_done n h w).session h ≡ record (w.session h) { done = n }
taken_session n h w = set_same h (record (w.session h) { done = n }) w.session

pub kept_session :
    (id : List ℕ) (h : ℕ) (w : World)
    → (keep_id id h w).session h ≡ record (w.session h) { verified = some id }
kept_session id h w = set_same h (record (w.session h) { verified = some id }) w.session

pub ended_session :
    (h : ℕ) (w : World)
    → (serve_ends h w).session h
      ≡ record (w.session h) { life = gone; done = (w.session h).done + 1 }
unfolding serve_ends
ended_session h w =
    set_same h (record (w.session h) { life = gone; done = (w.session h).done + 1 }) w.session
