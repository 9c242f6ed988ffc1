-- ===== src/Server/Goroutines/Room.antt =====
-- errChan has room for what the two loops send.
use rtio.Prelude.{ℕ, ◌+◌, ◌≤◌, ◌≡◌, ◌≢◌, refl, ◌⊎◌, inl, inr, Bool, some, List, lt→ltb, arith}
use rtio.Server.Goroutines.{
  Loop, looping, sending, ended, putting, parked, on_timeout, on_error, on_context, Serving,
  selecting, timed_out, returned, Conn, new_conn, Action, incomming_sends, outgoing_sends, step,
  run,
}
use rtio.Server.Goroutines.Shares.{own, IsHeld, conn, step-IsHeld, run_keeps, new_conn-IsHeld}

-- No timer has fired.
abbrev pub IsUntimed : Serving → Type 0
IsUntimed selecting = Unit {0}
IsUntimed timed_out = ⊥
IsUntimed (returned on_timeout) = ⊥
IsUntimed (returned on_error) = Unit {0}
IsUntimed (returned on_context) = Unit {0}

own_untimed : (s : Serving) → IsUntimed s → own s ≡ 0
own_untimed selecting u = refl
own_untimed timed_out u = absurd u
own_untimed (returned on_timeout) u = absurd u
own_untimed (returned on_error) u = refl
own_untimed (returned on_context) u = refl

-- In `c` the send of this action does not wait.
abbrev CanDo : Action → Conn → Type 0
CanDo a c = (d : Conn) × (step a c ≡ some d)

pub incomming_sends_lem :
    (ctx closed : Bool) (errs queue : ℕ) (o : Loop) (s : Serving)
    → IsHeld (conn ctx closed errs queue sending o s)
    → IsUntimed s
    → step incomming_sends (conn ctx closed errs queue sending o s)
      ≡ some (conn ctx closed (errs + 1) queue ended o s)
unfolding step
incomming_sends_lem ctx closed errs queue o s h u =
    rw (lt→ltb errs 2 (omega (arith, h.shares, own_untimed s u))) refl

pub outgoing_sends_lem :
    (ctx closed : Bool) (errs queue : ℕ) (i : Loop) (s : Serving)
    → IsHeld (conn ctx closed errs queue i sending s)
    → IsUntimed s
    → step outgoing_sends (conn ctx closed errs queue i sending s)
      ≡ some (conn ctx closed (errs + 1) queue i ended s)
unfolding step
outgoing_sends_lem ctx closed errs queue i s h u =
    rw (lt→ltb errs 2 (omega (arith, h.shares, own_untimed s u))) refl

incomming_room :
    (ctx closed : Bool) (errs queue : ℕ) (i o : Loop) (s : Serving)
    → IsHeld (conn ctx closed errs queue i o s)
    → IsUntimed s
    → (i ≢ sending) ⊎ CanDo incomming_sends (conn ctx closed errs queue i o s)
incomming_room ctx closed errs queue looping o s h u = inl (λ e. absurd (cc (e)))
incomming_room ctx closed errs queue sending o s h u =
    inr (_, incomming_sends_lem ctx closed errs queue o s h u)
incomming_room ctx closed errs queue ended o s h u = inl (λ e. absurd (cc (e)))
incomming_room ctx closed errs queue putting o s h u = inl (λ e. absurd (cc (e)))
incomming_room ctx closed errs queue parked o s h u = inl (λ e. absurd (cc (e)))

outgoing_room :
    (ctx closed : Bool) (errs queue : ℕ) (i o : Loop) (s : Serving)
    → IsHeld (conn ctx closed errs queue i o s)
    → IsUntimed s
    → (o ≢ sending) ⊎ CanDo outgoing_sends (conn ctx closed errs queue i o s)
outgoing_room ctx closed errs queue i looping s h u = inl (λ e. absurd (cc (e)))
outgoing_room ctx closed errs queue i sending s h u =
    inr (_, outgoing_sends_lem ctx closed errs queue i s h u)
outgoing_room ctx closed errs queue i ended s h u = inl (λ e. absurd (cc (e)))
outgoing_room ctx closed errs queue i putting s h u = absurd h.out
outgoing_room ctx closed errs queue i parked s h u = absurd h.out

-- A timer has fired.
abbrev pub IsTimed : Serving → Type 0
IsTimed selecting = ⊥
IsTimed timed_out = Unit {0}
IsTimed (returned on_timeout) = Unit {0}
IsTimed (returned on_error) = ⊥
IsTimed (returned on_context) = ⊥

IsTimed-or_IsUntimed : (s : Serving) → IsTimed s ⊎ IsUntimed s
IsTimed-or_IsUntimed selecting = inr tt
IsTimed-or_IsUntimed timed_out = inl tt
IsTimed-or_IsUntimed (returned on_timeout) = inl tt
IsTimed-or_IsUntimed (returned on_error) = inr tt
IsTimed-or_IsUntimed (returned on_context) = inr tt

-- In whatever order serve and its loops get on from a new connection, errChan never holds more than
-- two errors, and unless a timer has fired, a loop that has an error to send finds room for it.
pub err_chan_has_room :
    (actions : List Action) (c : Conn)
    → run actions new_conn ≡ some c
    → (c.errs ≤ 2)
      × (IsTimed c.serving
          ⊎ (((c.incomming ≢ sending) ⊎ ((d : Conn) × (step incomming_sends c ≡ some d)))
              × ((c.outgoing ≢ sending) ⊎ ((d : Conn) × (step outgoing_sends c ≡ some d)))))
err_chan_has_room actions c e =
    let h = run_keeps IsHeld step-IsHeld actions new_conn c new_conn-IsHeld e in
    (
      h.errs_le,
      elim (IsTimed-or_IsUntimed c.serving) [
        | inl t ↦ inl t
        | inr u ↦ inr (incomming_room _ _ _ _ _ _ _ h u, outgoing_room _ _ _ _ _ _ _ h u)
      ],
    )
