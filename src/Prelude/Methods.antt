-- ===== src/Prelude/Methods.antt =====
-- Methods of a Go object: each returns an outcome, and the object as it leaves it.

use rtio.Prelude.Results.{Outcome, ok, err, panic}

abbrev pub Method : Type 0 → Type 0 → Type 0 → Type 0
Method S F A = S → Outcome F A × S

module _ {S F : Type 0} where
  abbrev pub after : {A B : Type 0} → Outcome F A × S → (A → Method S F B) → Outcome F B × S
  after (ok a, s) f = f a s
  after (err e, s) f = (err e, s)
  after (panic, s) f = (panic, s)

  infixl 5 ◌>>=◌ ◌>>◌
  abbrev pub ◌>>=◌ : {A B : Type 0} → Method S F A → (A → Method S F B) → Method S F B
  ◌>>=◌ m f s = after (m s) f

  abbrev pub ◌>>◌ : {B : Type 0} → Method S F (Unit {0}) → Method S F B → Method S F B
  m >> k = m >>= λ _. k

  abbrev pub return : {A : Type 0} → A → Method S F A
  return a s = (ok a, s)

  abbrev pub raise : {A : Type 0} → F → Method S F A
  raise e s = (err e, s)

  -- A nil pointer dereference, or another run-time panic.
  abbrev pub crash : {A : Type 0} → Method S F A
  crash s = (panic, s)

  abbrev pub get_state : Method S F S
  get_state s = (ok s, s)

  abbrev pub modify : (S → S) → Method S F (Unit {0})
  modify f s = (ok tt, f s)

  -- The result of a function that does not use the object, its error passed on.
  abbrev pub lift_by : {E A : Type 0} → (E → F) → Outcome E A → Method S F A
  lift_by wrap (ok a) s = (ok a, s)
  lift_by wrap (err e) s = (err (wrap e), s)
  lift_by wrap panic s = (panic, s)

  -- `if err != nil { log }`: the error is dropped.
  abbrev pub drop_error : Outcome F (Unit {0}) × S → Outcome F (Unit {0}) × S
  drop_error (ok a, t) = (ok tt, t)
  drop_error (err e, t) = (ok tt, t)
  drop_error (panic, t) = (panic, t)

  abbrev pub ignore_error : Method S F (Unit {0}) → Method S F (Unit {0})
  ignore_error m s = drop_error (m s)
