-- ===== src/Server/Goroutines/Shares.antt =====
-- What the three goroutines may still send on errChan.
use rtio.Prelude.{
  ℕ, zero, suc, ◌+◌, ◌≤◌, ◌≡◌, refl, sym, ap, subst, ◌∙◌, inl, inr, Bool, true, false, Option, none,
  some, List, [], ◌∷◌, ltb, Option-cases, arith,
}
use rtio.Server.Goroutines.{
  Loop, looping, sending, ended, putting, parked, incomming_answers, incomming_puts,
  incomming_parks, incomming_resumes, on_timeout, on_error, on_context, Serving, selecting,
  timed_out, returned, Conn, new_conn, Action, incomming_fails, incomming_sends, incomming_stops,
  frame_written, outgoing_fails, outgoing_sends, outgoing_stops, timer_fires, timeout_sends,
  error_received, context_received, cancelled, frame_put, only_if, take_frame, step, run,
}

-- The errors that a loop may still send.
abbrev pub share : Loop → ℕ
share looping = 1
share sending = 1
share ended = 0
share putting = 1
share parked = 1

-- Only tcpIncomming puts frames, or waits for others.
abbrev pub IsOutgoing : Loop → Type 0
IsOutgoing looping = Unit {0}
IsOutgoing sending = Unit {0}
IsOutgoing ended = Unit {0}
IsOutgoing putting = ⊥
IsOutgoing parked = ⊥

-- The error that serve itself has sent.
abbrev pub own : Serving → ℕ
own selecting = 0
own timed_out = 0
own (returned on_timeout) = 1
own (returned on_error) = 0
own (returned on_context) = 0

-- What holds once serve has returned for another reason than a timer.
abbrev pub IsLeft : Serving → Conn → Type 0
IsLeft selecting c = Unit {0}
IsLeft timed_out c = Unit {0}
IsLeft (returned on_timeout) c = Unit {0}
IsLeft (returned on_error) c = (c.ctx_done ≡ true) × (c.closed ≡ true)
IsLeft (returned on_context) c = (c.ctx_done ≡ true) × (c.closed ≡ true)

pub record IsHeld (c : Conn) : Type 0 where
  pub errs_le : c.errs ≤ 2
  pub shares : c.errs + (share c.incomming + share c.outgoing) ≤ 2 + own c.serving
  pub left : IsLeft c.serving c
  pub out : IsOutgoing c.outgoing

-- If there is a next state, the predicate holds of it.
abbrev pub OnSome : (Conn → Type 0) → Option Conn → Type 0
OnSome P none = Unit {0}
OnSome P (some c) = P c

pub only_if-OnSome :
    (P : Conn → Type 0) (b : Bool) (c : Conn) → ((b ≡ true) → P c) → OnSome P (only_if b c)
only_if-OnSome P true c h = h refl
only_if-OnSome P false c h = tt

IsLeft-kept :
    (s : Serving) (c d : Conn)
    → (c.ctx_done ≡ true → d.ctx_done ≡ true)
    → d.closed ≡ c.closed
    → IsLeft s c
    → IsLeft s d
IsLeft-kept selecting c d f e h = tt
IsLeft-kept timed_out c d f e h = tt
IsLeft-kept (returned on_timeout) c d f e h = tt
IsLeft-kept (returned on_error) c d f e h = (f h.0, e ∙ h.1)
IsLeft-kept (returned on_context) c d f e h = (f h.0, e ∙ h.1)

abbrev pub conn : Bool → Bool → ℕ → ℕ → Loop → Loop → Serving → Conn
conn ctx closed errs queue i o s = record {
  ctx_done = ctx;
  closed = closed;
  errs = errs;
  queue = queue;
  incomming = i;
  outgoing = o;
  serving = s;
}

-- A loop goes to a state with the same share, or a smaller one.
moved :
    (c d : Conn)
    → d.serving ≡ c.serving
    → d.errs + (share d.incomming + share d.outgoing)
      ≤ c.errs + (share c.incomming + share c.outgoing)
    → d.errs ≤ 2
    → d.ctx_done ≡ c.ctx_done
    → d.closed ≡ c.closed
    → IsOutgoing d.outgoing
    → IsHeld c
    → IsHeld d
moved c d same le bound ctx cl out h = record {
  errs_le = bound;
  shares = ground (arith, ap own same, le, h.shares);
  left = subst (λ s. IsLeft s d) (sym same) (IsLeft-kept c.serving c d (λ e. ctx ∙ e) cl h.left);
  out = out;
}

incomming_IsHeld :
    (ctx closed : Bool) (errs queue : ℕ) (i o : Loop) (s : Serving)
    → IsHeld (conn ctx closed errs queue i o s)
    → OnSome IsHeld (step incomming_fails (conn ctx closed errs queue i o s))
      × OnSome IsHeld (step incomming_sends (conn ctx closed errs queue i o s))
      × OnSome IsHeld (step incomming_stops (conn ctx closed errs queue i o s))
      × OnSome IsHeld (step incomming_answers (conn ctx closed errs queue i o s))
      × OnSome IsHeld (step incomming_puts (conn ctx closed errs queue i o s))
      × OnSome IsHeld (step incomming_parks (conn ctx closed errs queue i o s))
      × OnSome IsHeld (step incomming_resumes (conn ctx closed errs queue i o s))
unfolding step
incomming_IsHeld ctx closed errs queue looping o s h = (
  moved _ _ refl (omega arith) h.errs_le refl refl h.out h,
  tt,
  only_if-OnSome IsHeld ctx _ (λ e. moved _ _ refl (omega arith) h.errs_le refl refl h.out h),
  moved _ _ refl (omega arith) h.errs_le refl refl h.out h,
  tt,
  moved _ _ refl (omega arith) h.errs_le refl refl h.out h,
  tt,
)
incomming_IsHeld ctx closed errs queue sending o s h = (
  tt,
  only_if-OnSome IsHeld (ltb errs 2) _
      (λ lt. moved _ _ refl (omega arith) (ground (arith, lt)) refl refl h.out h),
  tt,
  tt,
  tt,
  tt,
  tt,
)
incomming_IsHeld ctx closed errs queue ended o s h = (tt, tt, tt, tt, tt, tt, tt)
incomming_IsHeld ctx closed errs queue putting o s h = (
  tt,
  tt,
  tt,
  tt,
  only_if-OnSome IsHeld (ltb queue 10) _
      (λ lt. moved _ _ refl (omega arith) h.errs_le refl refl h.out h),
  tt,
  tt,
)
incomming_IsHeld ctx closed errs queue parked o s h =
    (tt, tt, tt, tt, tt, tt, moved _ _ refl (omega arith) h.errs_le refl refl h.out h)

take_frame-IsHeld :
    (n : ℕ) (d : Conn)
    → ((m : ℕ) → IsHeld (record d { queue = m }))
    → OnSome IsHeld (take_frame n d)
take_frame-IsHeld zero d f = tt
take_frame-IsHeld (suc n) d f = f n

outgoing_IsHeld :
    (ctx closed : Bool) (errs queue : ℕ) (i o : Loop) (s : Serving)
    → IsHeld (conn ctx closed errs queue i o s)
    → OnSome IsHeld (step frame_written (conn ctx closed errs queue i o s))
      × OnSome IsHeld (step outgoing_fails (conn ctx closed errs queue i o s))
      × OnSome IsHeld (step outgoing_sends (conn ctx closed errs queue i o s))
      × OnSome IsHeld (step outgoing_stops (conn ctx closed errs queue i o s))
unfolding step
outgoing_IsHeld ctx closed errs queue i looping s h = (
  take_frame-IsHeld queue _ (λ m. moved _ _ refl (omega arith) h.errs_le refl refl tt h),
  take_frame-IsHeld queue _ (λ m. moved _ _ refl (omega arith) h.errs_le refl refl tt h),
  tt,
  only_if-OnSome IsHeld ctx _ (λ e. moved _ _ refl (omega arith) h.errs_le refl refl tt h),
)
outgoing_IsHeld ctx closed errs queue i sending s h = (
  tt,
  tt,
  only_if-OnSome IsHeld (ltb errs 2) _
      (λ lt. moved _ _ refl (omega arith) (ground (arith, lt)) refl refl tt h),
  tt,
)
outgoing_IsHeld ctx closed errs queue i ended s h = (tt, tt, tt, tt)
outgoing_IsHeld ctx closed errs queue i putting s h = absurd h.out
outgoing_IsHeld ctx closed errs queue i parked s h = absurd h.out

timers_IsHeld :
    (ctx closed : Bool) (errs queue : ℕ) (i o : Loop) (s : Serving)
    → IsHeld (conn ctx closed errs queue i o s)
    → OnSome IsHeld (step timer_fires (conn ctx closed errs queue i o s))
      × OnSome IsHeld (step timeout_sends (conn ctx closed errs queue i o s))
unfolding step
timers_IsHeld ctx closed errs queue i o selecting h =
    (record { errs_le = h.errs_le; shares = h.shares; left = tt; out = h.out }, tt)
timers_IsHeld ctx closed errs queue i o timed_out h = (
  tt,
  only_if-OnSome IsHeld (ltb errs 2) _ (λ lt. record {
    errs_le = ground (arith, lt);
    shares = omega (arith, h.shares);
    left = tt;
    out = h.out;
  }),
)
timers_IsHeld ctx closed errs queue i o (returned why) h = (tt, tt)

error_IsHeld :
    (ctx closed : Bool) (errs queue : ℕ) (i o : Loop) (s : Serving)
    → IsHeld (conn ctx closed errs queue i o s)
    → OnSome IsHeld (step error_received (conn ctx closed errs queue i o s))
unfolding step
error_IsHeld ctx closed zero queue i o s h = tt
error_IsHeld ctx closed (suc n) queue i o selecting h = record {
  errs_le = omega (arith, h.errs_le);
  shares = omega (arith, h.shares);
  left = (refl, refl);
  out = h.out;
}
error_IsHeld ctx closed (suc n) queue i o timed_out h = tt
error_IsHeld ctx closed (suc n) queue i o (returned why) h = tt

context_IsHeld :
    (ctx closed : Bool) (errs queue : ℕ) (i o : Loop) (s : Serving)
    → IsHeld (conn ctx closed errs queue i o s)
    → OnSome IsHeld (step context_received (conn ctx closed errs queue i o s))
unfolding step
context_IsHeld true closed errs queue i o selecting h = record {
  errs_le = h.errs_le;
  shares = h.shares;
  left = (refl, refl);
  out = h.out;
}
context_IsHeld true closed errs queue i o timed_out h = tt
context_IsHeld true closed errs queue i o (returned why) h = tt
context_IsHeld false closed errs queue i o s h = tt

others_IsHeld :
    (c : Conn) → IsHeld c → OnSome IsHeld (step cancelled c) × OnSome IsHeld (step frame_put c)
unfolding step
others_IsHeld c h = (
  record {
    errs_le = h.errs_le;
    shares = h.shares;
    left = IsLeft-kept c.serving c _ (λ e. refl) refl h.left;
    out = h.out;
  },
  only_if-OnSome IsHeld (ltb c.queue 10) _
      (λ e. moved c _ refl (omega arith) h.errs_le refl refl h.out h),
)

pub step-IsHeld : (a : Action) (c : Conn) → IsHeld c → OnSome IsHeld (step a c)
step-IsHeld incomming_fails c h = (incomming_IsHeld _ _ _ _ _ _ _ h).0
step-IsHeld incomming_sends c h = (incomming_IsHeld _ _ _ _ _ _ _ h).1
step-IsHeld incomming_stops c h = (incomming_IsHeld _ _ _ _ _ _ _ h).2
step-IsHeld incomming_answers c h = (incomming_IsHeld _ _ _ _ _ _ _ h).3
step-IsHeld incomming_puts c h = (incomming_IsHeld _ _ _ _ _ _ _ h).4
step-IsHeld incomming_parks c h = (incomming_IsHeld _ _ _ _ _ _ _ h).5
step-IsHeld incomming_resumes c h = (incomming_IsHeld _ _ _ _ _ _ _ h).6
step-IsHeld frame_written c h = (outgoing_IsHeld _ _ _ _ _ _ _ h).0
step-IsHeld outgoing_fails c h = (outgoing_IsHeld _ _ _ _ _ _ _ h).1
step-IsHeld outgoing_sends c h = (outgoing_IsHeld _ _ _ _ _ _ _ h).2
step-IsHeld outgoing_stops c h = (outgoing_IsHeld _ _ _ _ _ _ _ h).3
step-IsHeld timer_fires c h = (timers_IsHeld _ _ _ _ _ _ _ h).0
step-IsHeld timeout_sends c h = (timers_IsHeld _ _ _ _ _ _ _ h).1
step-IsHeld error_received c h = error_IsHeld _ _ _ _ _ _ _ h
step-IsHeld context_received c h = context_IsHeld _ _ _ _ _ _ _ h
step-IsHeld cancelled c h = (others_IsHeld c h).0
step-IsHeld frame_put c h = (others_IsHeld c h).1

-- A run that gets somewhere has a first step.
pub first_step :
    (P : Conn → Type 0) (a : Action) (more : List Action) (c d : Conn)
    → OnSome P (step a c)
    → run (a ∷ more) c ≡ some d
    → (next : Conn) × P next × (run more next ≡ some d)
first_step P a more c d p e = elim (Option-cases (step a c)) [
  | inl none_next ↦ absurd (ground (arith, e, none_next))
  | inr (next, q) ↦ (next, subst (OnSome P) q p, rw q at e)
]

-- What every step keeps, every run keeps.
pub run_keeps :
    (P : Conn → Type 0)
    → ((a : Action) (c : Conn) → P c → OnSome P (step a c))
    → (actions : List Action) (c d : Conn) → P c
    → run actions c ≡ some d
    → P d
run_keeps P keep [] c d p e = subst P (cc (e)) p
run_keeps P keep (a ∷ more) c d p e =
    let (next, q, r) = first_step P a more c d (keep a c p) e in run_keeps P keep more next d q r

pub new_conn-IsHeld : IsHeld new_conn
new_conn-IsHeld = record { errs_le = omega arith; shares = omega arith; left = tt; out = tt }
