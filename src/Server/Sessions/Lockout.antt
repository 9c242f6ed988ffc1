-- ===== src/Server/Sessions/Lockout.antt =====
-- A device that verifies twice on one connection.
use rtio.Prelude.{ℕ, ◌+◌, ◌≡◌, ◌≢◌, sym, ap, ◌∙◌, none, some, List, arith}
use rtio.SyncMap.{bytes_eq}
use rtio.Server.Sessions.{
  get_session_of, put_session, serving, gone, World, serve_ends, put_after, await_done, keep_id,
  pass_verification,
}
use rtio.Server.Sessions.Registry.{get_put-del_session}
use rtio.Server.Sessions.Adding.{
  set_other, taken_session, kept_session, ended_session, add_session_old, cancel_serving,
  cancel_gone, take_done, wait_some, wait_none,
}

-- The session in the map adds itself: it has ended, and its one value is taken.
abbrev readded : List ℕ → ℕ → World → World
readded id h w =
    let over = take_done 0 h (serve_ends h (keep_id id h w)) in
    record over { server = put_session id h over.server }

session_readded :
    (id : List ℕ) (h : ℕ) (w : World)
    → (((readded id h w).session h).life ≡ gone) × (((readded id h w).session h).done ≡ 0)
session_readded id h w =
    let taken = taken_session 0 h (serve_ends h (keep_id id h w)) in
    (
      ap (λ v. v.life) taken ∙ ap (λ v. v.life) (ended_session h (keep_id id h w)),
      ap (λ v. v.done) taken,
    )

get_readded :
    (id : List ℕ) (h : ℕ) (w : World) → get_session_of id (readded id h w).server.sessions ≡ some h
unfolding serve_ends
get_readded id h w =
    let verified = ap (λ v. v.verified) (kept_session id h w) in
    rw verified (ground (arith, get_put-del_session id id h w.server, bytes_eq.beq_iff id id))

reverified :
    (id : List ℕ) (h : ℕ) (w : World)
    → get_session_of id w.server.sessions ≡ some h
    → (w.session h).life ≡ serving
    → (w.session h).done ≡ 0
    → pass_verification id h w ≡ some (readded id h w)
unfolding pass_verification
reverified id h w found alive unsent =
    let kept = keep_id id h w in
    let same = kept_session id h w in
    add_session_old id h h kept found
    ∙ ap (λ v. put_after id h (await_done h v))
        (cancel_serving h kept (ap (λ v. v.life) same ∙ alive))
    ∙ ap (put_after id h) (
        wait_some h 0 (serve_ends h kept) (
          ap (λ v. v.done) (ended_session h kept)
          ∙ ap (λ v. v.done + 1) same
          ∙ ap (λ n. n + 1) unsent))

-- No session of this device can be added while the map has one that has ended, and whose `done` is
-- empty.
locked_out :
    (id : List ℕ) (h next : ℕ) (w : World)
    → get_session_of id w.server.sessions ≡ some h
    → next ≢ h
    → (w.session h).life ≡ gone
    → (w.session h).done ≡ 0
    → pass_verification id next w ≡ none
unfolding pass_verification
locked_out id h next w found other dead empty =
    let kept = keep_id id next w in
    let same : kept.session h ≡ w.session h =
      set_other next h (record (w.session next) { verified = some id }) w.session
        (λ e. other (sym e)) in
    add_session_old id next h kept found
    ∙ ap (λ v. put_after id next (await_done h v))
        (cancel_gone h kept (ap (λ v. v.life) same ∙ dead))
    ∙ ap (put_after id next) (wait_none h kept (ap (λ v. v.done) same ∙ empty))

-- A session that is served, in the map and with nothing on its channel `done` passes the verification
-- of its own device once more: AddSession cancels that same session, takes the one value that its end
-- sends on `done`, and puts it back, ended. AddSession never returns then for another session of this
-- device.
pub reverified_locks_out :
    (id : List ℕ) (h next : ℕ) (w : World)
    → get_session_of id w.server.sessions ≡ some h
    → (w.session h).life ≡ serving
    → (w.session h).done ≡ 0
    → next ≢ h
    → (t : World) × (pass_verification id h w ≡ some t)
      × (get_session_of id t.server.sessions ≡ some h)
      × ((t.session h).life ≡ gone)
      × (pass_verification id next t ≡ none)
reverified_locks_out id h next w found alive unsent other =
    let t = readded id h w in
    let (dead, empty) = session_readded id h w in
    (
      t,
      reverified id h w found alive unsent,
      get_readded id h w,
      dead,
      locked_out id h next t (get_readded id h w) other dead empty,
    )
